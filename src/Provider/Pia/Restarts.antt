-- ===== src/Provider/Pia/Restarts.antt =====
-- How often the plugin restarts the daemon.
use tundler.Base.{
  ℕ, zero, suc, ◌+◌, ◌≤◌, ◌≡◌, refl, ◌∙◌, inl, inr, Text, Bool, true, false, not, ◌&&◌, ◌||◌, ◌-◌,
  Option, none, some, List, [], ◌∷◌, codes, text_eq, Bool-cases, Option-cases, arith, ltb,
  if◌then◌else◌,
}
use mathlib.Core.Path.{subst}
use tundler.Exec.{run_cmd}
use tundler.Provider.{Status}
use tundler.Provider.Machine.{Machine, is_none, seconds, command}
use tundler.Provider.Pia.{
  Pia, boot, Feed, daemon_service, min_daemon_recovery_interval, unix, daemon_responsive,
  await_daemon, ensure_daemon_responsive, ensure_protocol, connected, active_location, vpn_ip,
  status, poll_connect, or_status, start_connect, connect_to, with_vars, connect, quiet, username,
  password, on_login_output, run_login, login,
}

-- A machine that keeps the last reading of its clock, and the readings, in seconds, at which
-- `systemctl` was run, the latest first.
abbrev pub Log : Type 0
Log = ℕ × List ℕ

abbrev pub recorded : {W : Type 0} → Machine W → Machine (W × Log)
recorded m = record {
  run = λ name args x.
      (let (r, w) = m.run name args x.0 in
        (r, (w, (x.1.0, if text_eq name (codes "systemctl") then unix x.1.0 ∷ x.1.1 else x.1.1))));
  getenv = m.getenv;
  clock = λ x. (let (now, w) = m.clock x.0 in (now, (w, (now, x.1.1))));
  sleep = λ d x. (m.sleep d x.0, x.1);
  wait = λ d x. (let (r, w) = m.wait d x.0 in (r, (w, x.1)));
  read_file = λ p x. (let (r, w) = m.read_file p x.0 in (r, (w, x.1)));
  mkdir_all = λ p x. (let (r, w) = m.mkdir_all p x.0 in (r, (w, x.1)));
  write_file = λ p t x. (let (r, w) = m.write_file p t x.0 in (r, (w, x.1)));
  remove = λ p x. (m.remove p x.0, x.1);
  pick = λ n x. (let (r, w) = m.pick n x.0 in (r, (w, x.1)));
}

-- The goroutines beside it do not run `systemctl`.
abbrev pub beside : {W : Type 0} → Feed W → Feed (W × Log)
beside f = record {
  state = λ x. f.state x.0;
  ip = λ x. f.ip x.0;
  in_fallback = λ x. f.in_fallback x.0;
  start = λ x. (f.start x.0, x.1);
}

-- Each restart comes two minutes at least after the one before.
abbrev pub AreApart : List ℕ → Type 0
AreApart [] = Unit
AreApart (t ∷ []) = min_daemon_recovery_interval ≤ t
AreApart (t ∷ t' ∷ ts) = (t' + min_daemon_recovery_interval ≤ t) × AreApart (t' ∷ ts)

abbrev latest : List ℕ → ℕ
latest [] = 0
latest (t ∷ ts) = t

next-AreApart :
    (now : ℕ) (ts : List ℕ)
    → latest ts + min_daemon_recovery_interval ≤ now
    → AreApart ts
    → AreApart (now ∷ ts)
next-AreApart now [] h a = omega arith
next-AreApart now (t ∷ ts) h a = (h, a)

-- The restarts so far.
abbrev pub restarts : {W : Type 0} → W × Log → List ℕ
restarts w = w.1.1

module _ {W : Type 0} (m : Machine W) where
  daemon_responsive-log : (w : W × Log) → restarts (daemon_responsive (recorded m) w).1 ≡ restarts w
  unfolding daemon_responsive run_cmd
  daemon_responsive-log w = refl

  await_daemon-log :
      (rounds : ℕ) (w : W × Log) → restarts (await_daemon (recorded m) rounds w) ≡ restarts w
  unfolding await_daemon daemon_responsive run_cmd
  await_daemon-log zero w = refl
  await_daemon-log (suc rounds) w =
      let w' : W × Log = ((m.wait 2000000000 w.0).1, w.1) in
      let w'' = (daemon_responsive (recorded m) w').1 in ground (arith, await_daemon-log rounds w'')

  ensure_protocol-log : (w : W × Log) → restarts (ensure_protocol (recorded m) w) ≡ restarts w
  unfolding ensure_protocol run_cmd
  ensure_protocol-log w = ground arith

  -- The variable holds the time of the last restart, and the restarts are apart.
  abbrev pub IsThrottled : Pia × (W × Log) → Type 0
  IsThrottled (s, w) = AreApart (restarts w) × (s.last_daemon_recovery ≡ latest (restarts w))

  ensure_daemon_responsive-IsThrottled :
      (s : Pia) (w : W × Log)
      → IsThrottled (s, w)
      → IsThrottled (ensure_daemon_responsive (recorded m) (s, w))
  unfolding ensure_daemon_responsive daemon_responsive run_cmd
  ensure_daemon_responsive-IsThrottled s w t =
      let (up, w₁) = daemon_responsive (recorded m) w in
      let (now, w₂) = (recorded m).clock w₁ in
      let ((out, err), w₃) =
        command (recorded m) (codes "systemctl") (codes "restart" ∷ daemon_service ∷ []) w₂ in
      elim (Bool-cases up) [
        | inl e ↦ rw e t
        | inr e ↦
            elim (Bool-cases
              (ltb (unix now - s.last_daemon_recovery) min_daemon_recovery_interval)) [
                | inl f ↦ rw (e, f) t
                | inr f ↦
                    let apart =
                      next-AreApart (unix now) (restarts w) (ground (arith, f, t.1)) t.0 in
                    elim (Bool-cases (is_none err)) [
                      | inl g ↦ rw (e, f, g, await_daemon-log 15 w₃) (apart, refl)
                      | inr g ↦ rw (e, f, g) (apart, refl)
                    ]
              ]
      ]

module _ {W : Type 0} (m : Machine W) (feed : Feed W) where
  status-log : (w : W × Log) → restarts (status (recorded m) (beside feed) w).1 ≡ restarts w
  unfolding status connected active_location vpn_ip run_cmd
  status-log w = ground arith

  -- What a loop that ended has left as it was.
  Kept : {A : Type 0} → W × Log → Option (A × (W × Log)) → Type 0
  Kept w none = Unit
  Kept w (some r) = restarts r.1 ≡ restarts w

  Kept-trans :
      {A : Type 0} (w w' : W × Log) (o : Option (A × (W × Log)))
      → restarts w' ≡ restarts w
      → Kept w' o
      → Kept w o
  unfolding Kept
  Kept-trans w w' none e k = tt
  Kept-trans w w' (some r) e k = k ∙ e

  if-Kept :
      {A : Type 0} (w : W × Log) (b : Bool) (o o' : Option (A × (W × Log)))
      → Kept w o
      → Kept w o'
      → Kept w (if b then o else o')
  if-Kept w true o o' k k' = k
  if-Kept w false o o' k k' = k'

  poll_connect-Kept :
      (fuel deadline : ℕ) (w : W × Log)
      → Kept w (poll_connect (recorded m) (beside feed) fuel deadline w)
  unfolding poll_connect Kept
  poll_connect-Kept zero deadline w = tt
  poll_connect-Kept (suc fuel) deadline w =
      let (now, w₁) = (recorded m).clock w in
      let (st, w₂) = status (recorded m) (beside feed) w₁ in
      let pause = if feed.in_fallback w₂.0 then 1000000000 else 250000000 in
      let w₃ : W × Log = (recorded m).sleep pause w₂ in
      let later : Option (Option Status × (W × Log)) =
        poll_connect (recorded m) (beside feed) fuel deadline w₃ in
      if-Kept w (not (ltb now deadline)) (some (none, w₁)) _ refl (
        if-Kept w (st.connected && not (text_eq st.ip [])) (some (some st, w₂)) later
          (status-log w₁)
          (Kept-trans w w₃ later (status-log w₁) (poll_connect-Kept fuel deadline w₃)))

  run_login-log :
      (s : Pia) (w : W × Log)
      → restarts (run_login (recorded m) (beside feed) (s, w)).1.1 ≡ restarts w
  unfolding run_login on_login_output run_cmd
  run_login-log s w = ground arith

  or_status-Kept :
      (w : W × Log) (o : Option (Option Status × (W × Log)))
      → Kept w o
      → Kept w (or_status (recorded m) (beside feed) o)
  unfolding or_status Kept
  or_status-Kept w none k = tt
  or_status-Kept w (some (some st, w')) k = k
  or_status-Kept w (some (none, w')) k = status-log w' ∙ k

  start_connect-log :
      (location : Text) (w : W × Log)
      → restarts (start_connect (recorded m) (beside feed) location w) ≡ restarts w
  unfolding start_connect run_cmd
  start_connect-log location w = ground arith

  connect_to-Kept :
      (fuel : ℕ) (location : Text) (w : W × Log)
      → Kept w (connect_to (recorded m) (beside feed) fuel location w)
  unfolding connect_to
  connect_to-Kept fuel location w =
      let w' = start_connect (recorded m) (beside feed) location w in
      let (now, w'') = (recorded m).clock w' in
      let o = poll_connect (recorded m) (beside feed) fuel (now + seconds 60) w'' in
      or_status-Kept w o (
        Kept-trans w w'' o (start_connect-log location w)
          (poll_connect-Kept fuel (now + seconds 60) w''))

  abbrev EndsThrottled : {A : Type 0} → Option (A × (Pia × (W × Log))) → Type 0
  EndsThrottled none = Unit
  EndsThrottled (some r) = IsThrottled m r.1

  with_vars-EndsThrottled :
      {A : Type 0} (s : Pia) (w : W × Log) (o : Option (A × (W × Log)))
      → IsThrottled m (s, w)
      → Kept w o
      → EndsThrottled (with_vars (recorded m) (beside feed) s o)
  unfolding Kept
  with_vars-EndsThrottled s w none t k = tt
  with_vars-EndsThrottled s w (some (a, w')) t k = rw k t

  connect-EndsThrottled :
      (fuel : ℕ) (location : Text) (s : Pia) (w : W × Log)
      → IsThrottled m (s, w)
      → EndsThrottled (connect (recorded m) (beside feed) fuel location (s, w))
  unfolding connect
  connect-EndsThrottled fuel location s w t =
      let (s', w') = ensure_daemon_responsive (recorded m) (s, w) in
      with_vars-EndsThrottled s' w' (connect_to (recorded m) (beside feed) fuel location w')
        (ensure_daemon_responsive-IsThrottled m s w t) (connect_to-Kept fuel location w')

  run_login-vars :
      (s : Pia) (w : W × Log)
      → (run_login (recorded m) (beside feed) (s, w)).1.0.last_daemon_recovery
        ≡ s.last_daemon_recovery
  unfolding run_login on_login_output
  run_login-vars s w = ground arith

  run_login-IsThrottled :
      (s : Pia) (w : W × Log)
      → IsThrottled m (s, w)
      → IsThrottled m (run_login (recorded m) (beside feed) (s, w)).1
  run_login-IsThrottled s w t = rw (run_login-log s w, run_login-vars s w) t

  login-IsThrottled :
      (s : Pia) (w : W × Log)
      → IsThrottled m (s, w)
      → IsThrottled m (login (recorded m) (beside feed) (s, w)).1
  unfolding login run_cmd
  login-IsThrottled s w t =
      let (now, w₁) = (recorded m).clock w in
      let (s', w₂) =
        ensure_daemon_responsive (recorded m)
          (s, quiet (recorded m) (codes "background" ∷ codes "enable" ∷ []) w₁) in
      let w₃ = ensure_protocol (recorded m) w₂ in
      let t₂ : IsThrottled m (s', w₂) =
        ensure_daemon_responsive-IsThrottled m s
          (quiet (recorded m) (codes "background" ∷ codes "enable" ∷ []) w₁) t in
      let t₃ : IsThrottled m (s', w₃) = rw (ensure_protocol-log m w₂) t₂ in
      elim (Bool-cases (text_eq (username (recorded m)) [] || text_eq (password (recorded m)) [])) [
        | inl e ↦ rw (login, e) t
        | inr e ↦ elim (Bool-cases (ltb now s.rate_limited_until)) [
          | inl f ↦ rw (login, e, f) t
          | inr f ↦ elim (Bool-cases s'.logged_in) [
            | inl g ↦ rw (login, e, f, g) t₃
            | inr g ↦ rw (login, e, f, g) (run_login-IsThrottled s' w₃ t₃)
          ]
        ]
      ]

-- The operations of the plugin that may restart the daemon.
pub data Op : Type 0 where
  connects : Text → Op
  logs_in : Op

-- A sequence of them, where each loop of Connect has the fuel to end.
pub run_ops : {W : Type 0} → Machine W → Feed W → ℕ → List Op → Pia × W → Option (Pia × W)
run_ops m feed fuel [] sw = some sw
run_ops m feed fuel (logs_in ∷ ops) sw = run_ops m feed fuel ops (login m feed sw).1
run_ops m feed fuel (connects location ∷ ops) sw = elim (connect m feed fuel location sw) [
  | none ↦ none
  | some r ↦ run_ops m feed fuel ops r.1
]

module _ {W : Type 0} (m : Machine W) (feed : Feed W) (fuel : ℕ) where
  abbrev pub AllApart : Option (Pia × (W × Log)) → Type 0
  AllApart none = Unit
  AllApart (some sw) = AreApart (restarts sw.1)

  run_ops-AllApart :
      (ops : List Op) (sw : Pia × (W × Log))
      → IsThrottled m sw
      → AllApart (run_ops (recorded m) (beside feed) fuel ops sw)
  unfolding run_ops
  run_ops-AllApart [] sw t = t.0
  run_ops-AllApart (logs_in ∷ ops) sw t =
      run_ops-AllApart ops (login (recorded m) (beside feed) sw).1
        (login-IsThrottled m feed sw.0 sw.1 t)
  run_ops-AllApart (connects location ∷ ops) sw t =
      let k = connect-EndsThrottled m feed fuel location sw.0 sw.1 t in
      elim (Option-cases (connect (recorded m) (beside feed) fuel location sw)) [
        | inl e ↦ rw (run_ops, e) tt
        | inr (r, e) ↦
            rw (run_ops, e) (run_ops-AllApart ops r.1 (subst (λ o. EndsThrottled m feed o) e k))
      ]

  -- After any sequence of calls of Connect and Login since the process started, whatever `piactl`,
  -- the monitor, the clock and the machine do: the times, in seconds, at which `systemctl` was run
  -- to restart the daemon are two minutes apart at least, and the clock has not gone back between
  -- two of them.
  pub run_ops-AreApart :
      (ops : List Op) (w : W)
      → AllApart (run_ops (recorded m) (beside feed) fuel ops (boot, (w, (0, []))))
  run_ops-AreApart ops w = run_ops-AllApart ops (boot, (w, (0, []))) (tt, refl)
