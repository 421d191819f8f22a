-- ===== src/Provider/FastVpn/Warp/Stuck.antt =====
-- The rule that makes the main table come before WARP's, and the transport while it is there.
use tundler.Base.{
  ℕ, zero, suc, ◌≡◌, refl, ◌∙◌, inl, inr, List, Text, Bool, true, false, ◌&&◌, ◌||◌, none, some, [],
  ◌∷◌, codes, text_eq, contains, Bool-cases, arith, if◌then◌else◌, trim_space, trim_left, split,
  ◌*◌,
}
use tundler.Exec.{run_cmd, write, writes}
use tundler.Provider.Machine.{same_args, Machine, is_none, milliseconds, command}
use tundler.Provider.OpenVpn.{lower}
use tundler.Provider.FastVpn.Warp.{
  trace_args, shows_warp, del_rule, main_beat_warp_pref, add_main_rule, remote_via_warp_pref,
  warp_run, warp_on, await_warp, warp_connect, warp_up, flush_remote_via_warp_rules,
  teardown_nested_routing,
}

at_true : true ≡ true
at_true = refl

off_hidden :
    shows_warp (split 10 (trim_space (writes (64 * 1024) (codes "warp=off" ∷ []) []))) ≡ false
unfolding shows_warp writes write trim_space trim_left split
off_hidden = refl

-- A machine that keeps whether the rule is there: `ip rule add` puts it there where it succeeds, and
-- `ip rule del` succeeds where it is there, and fails where it is not. While it is there, the request
-- for the trace of WARP goes by the main table, so that its answer says that WARP is not used; else
-- the answer is the machine's.
abbrev pub kernel : {W : Type 0} → Machine W → Machine (W × Bool)
kernel m = record {
  run = λ cmd args x.
      (let ((out, err), w) = m.run cmd args x.0 in
        if text_eq cmd (codes "ip") && same_args args add_main_rule
        then ((out, err), (w, is_none err || x.1))
        else if text_eq cmd (codes "ip") && same_args args (del_rule main_beat_warp_pref)
        then ((out, if x.1 then none else some (codes "exit status 2")), (w, false))
        else (
          (
            if text_eq cmd (codes "curl") && same_args args trace_args && x.1
                then codes "warp=off" ∷ []
                else out,
            err,
          ),
          (w, x.1),
        ));
  getenv = m.getenv;
  clock = λ x. (let (now, w) = m.clock x.0 in (now, (w, x.1)));
  sleep = λ d x. (m.sleep d x.0, x.1);
  wait = λ d x. (let (r, w) = m.wait d x.0 in (r, (w, x.1)));
  read_file = λ p x. (let (r, w) = m.read_file p x.0 in (r, (w, x.1)));
  mkdir_all = λ p x. (let (r, w) = m.mkdir_all p x.0 in (r, (w, x.1)));
  write_file = λ p t x. (let (r, w) = m.write_file p t x.0 in (r, (w, x.1)));
  remove = λ p x. (m.remove p x.0, x.1);
  pick = λ n x. (let (r, w) = m.pick n x.0 in (r, (w, x.1)));
}

module _ {W : Type 0} (m : Machine W) where
  flush-rule :
      (rounds : ℕ) (x : W × Bool) → (flush_remote_via_warp_rules (kernel m) rounds x).1 ≡ x.1
  unfolding flush_remote_via_warp_rules run_cmd
  flush-rule zero x = refl
  flush-rule (suc rounds) x =
      let (r, w) = m.run (codes "ip") (del_rule remote_via_warp_pref) x.0 in
      ground (arith, flush-rule rounds (w, x.1))

  -- The rule is gone after the routing was torn down.
  pub teardown-rule : (x : W × Bool) → (teardown_nested_routing (kernel m) x).1 ≡ false
  unfolding teardown_nested_routing run_cmd
  teardown-rule x = flush-rule 64 _

  -- Without the rule, the probe of WARP sees what it sees on the machine.
  pub warp_on-clear : (x : W × Bool) → x.1 ≡ false → (warp_on (kernel m) x).0 ≡ (warp_on m x.0).0
  unfolding warp_on run_cmd
  warp_on-clear (w, b) e = rw e refl

  -- While the rule is there, the probe does not see WARP.
  shadowed : (w : W) → (warp_on (kernel m) (w, true)).0 ≡ false
  unfolding warp_on run_cmd
  shadowed w =
      let (r, w') = m.run (codes "curl") trace_args w in
      elim (Bool-cases (is_none r.1)) [ inl e ↦ rw e off_hidden | inr e ↦ rw e refl ]

  warp_on-there :
      (w : W) → (warp_on (kernel m) (w, true)).1 ≡ ((m.run (codes "curl") trace_args w).1, true)
  unfolding warp_on run_cmd
  warp_on-there w = refl

-- A number that a machine keeps, and that neither a sleep nor a process changes, but for `openvpn`.
pub record IsStill {W : Type 0} (m : Machine W) (f : W → ℕ) : Type 0 where
  pub run :
      (cmd : Text) (args : List Text) (w : W)
      → text_eq cmd (codes "openvpn") ≡ false
      → f (m.run cmd args w).1 ≡ f w
  pub sleep : (d : ℕ) (w : W) → f (m.sleep d w) ≡ f w

module _ {W : Type 0} (m : Machine W) (f : W → ℕ) (still : IsStill m f) where
  -- A failure that leaves the rule there and the number as it was.
  abbrev pub Stuck : W → Bool × (W × Bool) → Type 0
  Stuck w (failed, x) = (failed ≡ true) × (x.1 ≡ true) × (f x.0 ≡ f w)

  Stuck-from : (w w' : W) (r : Bool × (W × Bool)) → f w' ≡ f w → Stuck w' r → Stuck w r
  Stuck-from w w' r e (failed, there, n) = (failed, there, n ∙ e)

  -- The machine after the probe.
  probed : W → W
  probed w = (m.run (codes "curl") trace_args w).1

  probe : (w : W) → warp_on (kernel m) (w, true) ≡ (false, (probed w, true))
  unfolding probed
  probe w = ground (arith, shadowed m w, warp_on-there m w)

  probed-still : (w : W) → f (probed w) ≡ f w
  unfolding probed
  probed-still w = still.run (codes "curl") trace_args w refl

  await_warp-Stuck : (rounds : ℕ) (w : W) → Stuck w (await_warp (kernel m) rounds (w, true))
  unfolding await_warp
  await_warp-Stuck zero w = (refl, refl, refl)
  await_warp-Stuck (suc rounds) w =
      let w' = m.sleep (milliseconds 500) (probed w) in
      rw (probe w) (
        Stuck-from w w' _ (still.sleep (milliseconds 500) (probed w) ∙ probed-still w)
          (await_warp-Stuck rounds w'))

  warp_connect-Stuck : (w : W) → Stuck w (warp_connect (kernel m) (w, true))
  unfolding warp_connect warp_run run_cmd
  warp_connect-Stuck w =
      let mode = codes "--accept-tos" ∷ codes "mode" ∷ codes "warp" ∷ [] in
      let start = codes "--accept-tos" ∷ codes "connect" ∷ [] in
      let (r, w₁) = m.run (codes "warp-cli") mode w in
      let ((out, err), w₂) = m.run (codes "warp-cli") start w₁ in
      let same : f w₂ ≡ f w =
        still.run (codes "warp-cli") start w₁ refl ∙ still.run (codes "warp-cli") mode w refl in
      elim (Bool-cases (is_none err)) [
        | inl e ↦ rw e (Stuck-from w w₂ _ same (await_warp-Stuck 60 w₂))
        | inr e ↦ rw e (refl, refl, same)
      ]

  -- The transport does not come up while the rule is there, and the rule stays.
  pub warp_up-Stuck : (w : W) → Stuck w (warp_up (kernel m) (w, true))
  unfolding warp_up warp_run run_cmd
  warp_up-Stuck w =
      let show = codes "--accept-tos" ∷ codes "registration" ∷ codes "show" ∷ [] in
      let new = codes "--accept-tos" ∷ codes "registration" ∷ codes "new" ∷ [] in
      let ((reg, err), w₂) = command m (codes "warp-cli") show (probed w) in
      let ((out, err'), w₃) = command m (codes "warp-cli") new w₂ in
      let same : f w₂ ≡ f w = still.run (codes "warp-cli") show (probed w) refl ∙ probed-still w in
      let same' : f w₃ ≡ f w = still.run (codes "warp-cli") new w₂ refl ∙ same in
      let low = lower reg in
      rw (probe w)
        (elim (Bool-cases (contains low (codes "device id") || contains low (codes "account"))) [
          | inl e ↦ rw e (Stuck-from w w₂ _ same (warp_connect-Stuck w₂))
          | inr e ↦ elim (Bool-cases (is_none err')) [
            | inl g ↦ rw (e, g) (Stuck-from w w₃ _ same' (warp_connect-Stuck w₃))
            | inr g ↦ rw (e, g) (at_true, at_true, same')
          ]
        ])
