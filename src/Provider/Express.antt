-- ===== src/Provider/Express.antt =====
-- internal/provider/expressvpn/expressvpn.go: the plugin for ExpressVPN, over a machine and the
-- variable `lastDaemonRecovery`. An operation is one that no other overlaps, so the lock of the
-- command line is free and the compare-and-swap of the restart succeeds. Debug lines are left out.
pub mod Window
pub mod Regions
use tundler.Base.{
  ℕ, zero, suc, ◌+◌, ◌-◌, ◌/◌, Text, Bool, true, false, not, ◌&&◌, ◌||◌, Option, none, some, List,
  [], ◌∷◌, ◌++◌, codes, text_eq, trim_space, fields, contains, ltb, ◌==◌, if◌then◌else◌,
}
use tundler.Exec.{first_ipv4}
use tundler.Exec.Version.{extract_version}
use tundler.Provider.{Status, VpnProvider}
use tundler.Provider.Machine.{Machine, is_none, seconds, command}

-- The errors of Login.
data LoginError : Type 0 where
  missing_activation_code : LoginError
  cannot_write login_failed : Text → LoginError

abbrev bin : Text
bin = codes "expressvpnctl"

abbrev name : Text
name = codes "expressvpn"

abbrev daemon_service : Text
daemon_service = codes "expressvpn-service.service"

abbrev min_daemon_recovery_interval : ℕ
min_daemon_recovery_interval = 60

abbrev unix : ℕ → ℕ
unix now = now / 1000000000

-- `isColdStartPlaceholder`
pub is_cold_start_placeholder : List Text → Bool
is_cold_start_placeholder [] = true
is_cold_start_placeholder (f ∷ []) = text_eq f (codes "smart")
is_cold_start_placeholder (f ∷ g ∷ fs) = false

-- A status of a tunnel that is up, with its address.
abbrev pub is_whole : Status → Bool
is_whole st = st.connected && not (text_eq st.ip [])

-- The status that Connect makes of an earlier sight of the tunnel.
abbrev pub told : Text → Text → Status
told location ip = record {
  connected = true;
  ip = ip;
  location = location;
  region = location;
  provider = name;
}

module _ {W : Type 0} (m : Machine W) where
  abbrev run : List Text → W → (Text × Option Text) × W
  run args w = command m bin args w

  abbrev quiet : List Text → W → W
  quiet args w = (run args w).1

  unfoldable pub get : Text → W → Text × W
  get key w =
      let ((out, err), w') = run (codes "get" ∷ key ∷ []) w in
      (if is_none err then trim_space out else [], w')

  unfoldable pub active_location : W → Text × W
  unfolding get
  active_location w = let (region, w') = get (codes "region") w in (trim_space region, w')

  unfoldable pub daemon_responsive : W → Bool × W
  daemon_responsive w =
      let ((out, err), w') = run (codes "status" ∷ []) w in
      (is_none err && not (contains out (codes "Timed out")), w')

  -- The wait for the daemon after a restart: 15 rounds of two seconds.
  await_daemon : ℕ → W → W
  unfolding daemon_responsive
  await_daemon zero w = w
  await_daemon (suc rounds) w =
      let (done, w') = m.wait (seconds 2) w in
      let (up, w'') = daemon_responsive w' in
      let later = await_daemon rounds w'' in if done then w' else if up then w'' else later

  recover_daemon : ℕ × W → ℕ × W
  unfolding await_daemon
  recover_daemon (last, w) =
      let (now, w₁) = m.clock w in
      let ((out, err), w₂) =
        command m (codes "systemctl") (codes "restart" ∷ daemon_service ∷ []) w₁ in
      if ltb (unix now - last) min_daemon_recovery_interval
      then (last, w₁)
      else if is_none err
      then (unix now, await_daemon 15 w₂)
      else (unix now, w₂)

  unfoldable pub ensure_daemon_responsive : ℕ × W → ℕ × W
  unfolding daemon_responsive recover_daemon
  ensure_daemon_responsive (last, w) =
      let (up, w') = daemon_responsive w in if up then (last, w') else recover_daemon (last, w')

  unfoldable pub connected : W → Bool × W
  unfolding get
  connected w =
      let (state, w') = get (codes "connectionstate") w in (text_eq state (codes "Connected"), w')

  unfoldable pub status : W → Status × W
  unfolding connected active_location get
  status w =
      let (up, w₁) = connected w in
      let (ip, w₂) = get (codes "vpnip") w₁ in
      let (location, w₃) = active_location w₂ in
      let (region, w₄) = active_location w₃ in
      if up
      then (
        record {
          connected = true;
          ip = first_ipv4 ip;
          location = location;
          region = region;
          provider = name;
        },
        w₄,
      )
      else (record { connected = false; ip = []; location = []; region = []; provider = [] }, w₁)

  disconnect : W → Option Text × W
  disconnect w = let ((out, err), w') = run (codes "disconnect" ∷ []) w in (err, w')

  -- The attempts of Locations that are left, five seconds apart.
  pub regions : ℕ → W → List Text × W
  unfolding is_cold_start_placeholder
  regions zero w = ([], w)
  regions (suc attempts) w =
      let ((out, err), w₁) = run (codes "get" ∷ codes "regions" ∷ []) w in
      let (done, w₂) = m.wait (seconds 5) w₁ in
      let later = regions attempts w₂ in
      if is_none err && not (is_cold_start_placeholder (fields out))
      then (fields out, w₁)
      else if attempts == 0
      then ([], w₁)
      else if done
      then ([], w₂)
      else later

  pub locations : ℕ × W → List Text × (ℕ × W)
  unfolding ensure_daemon_responsive regions
  locations lw =
      let (last, w) = ensure_daemon_responsive lw in let (rs, w') = regions 12 w in (rs, (last, w'))

  logged_in : W → Bool × W
  logged_in w =
      let ((out, err), w') = run (codes "status" ∷ []) w in
      (not (contains out (codes "Not logged in.")), w')

  abbrev token : Text
  token = m.getenv (codes "EXPRESSVPN_ACTIVATION_CODE")

  abbrev tmp_file : Text
  tmp_file = codes "/tmp/expressvpn-activation-code"

  -- The login command, and what Login does when it fails.
  run_login : ℕ × W → Option LoginError × (ℕ × W)
  unfolding recover_daemon
  run_login (last, w) =
      let ((out, err), w') = run (codes "login" ∷ codes "-t" ∷ codes "20" ∷ tmp_file ∷ []) w in
      let recovered =
        if contains out (codes "Timed out") then recover_daemon (last, w') else (last, w') in
      elim err [
        | none ↦ (none, (last, quiet (codes "background" ∷ codes "enable" ∷ []) w'))
        | some e ↦ (some (login_failed e), recovered)
      ]

  login : ℕ × W → Option LoginError × (ℕ × W)
  unfolding ensure_daemon_responsive logged_in run_login
  login (last, w) =
      let (last', w₁) = ensure_daemon_responsive (last, w) in
      let w₂ = quiet (codes "set" ∷ codes "networklock" ∷ codes "false" ∷ []) w₁ in
      let (inside, w₃) = logged_in w₂ in
      let (err, w₄) = m.write_file tmp_file (token ++ (10 ∷ [])) w₃ in
      let end = run_login (last', w₄) in
      if text_eq token []
      then (some missing_activation_code, (last, w))
      else if inside
      then (none, (last', w₃))
      else elim err [ some e ↦ (some (cannot_write e), (last', w₄)) | none ↦ end ]

  logout : W → Option Text × W
  logout w = let ((out, err), w') = run (codes "logout" ∷ []) w in (err, w')

  -- `Version`, whose error is none of the version's text.
  version : W → Option Text × W
  version w =
      let ((out, err), w') = run (codes "-v" ∷ []) w in
      let v = extract_version out in
      if is_none err then (some (if text_eq v [] then trim_space out else v), w') else (none, w')

-- `next` is the `select` of Connect: it waits for the context of the window, which ends at a time, or
-- for the ticker of two seconds, and tells whether it was the context.
module _ {W : Type 0} (m : Machine W) (next : ℕ → W → Bool × W) where
  -- The loop of Connect, with fuel.
  pub poll : ℕ → ℕ → Text → Bool → Text → W → Option (Status × W)
  unfolding status
  poll zero until location saw best w = none
  poll (suc fuel) until location saw best w =
      let (st, w₁) = status m w in
      let saw' = st.connected || saw in
      let best' = if is_whole st then st.ip else best in
      let (done, w₂) = next until w₁ in
      let later = poll fuel until location saw' best' w₂ in
      if is_whole st
      then some (st, w₁)
      else if done
      then some (if saw' then told location best' else st, w₂)
      else later

  -- The command that starts a connection.
  unfoldable pub start_connect : Text → W → W
  start_connect location w =
      if text_eq location []
      then quiet m (codes "connect" ∷ []) w
      else quiet m (codes "connect" ∷ location ∷ []) w

  abbrev with_last : {A : Type 0} → ℕ → Option (A × W) → Option (A × (ℕ × W))
  with_last last none = none
  with_last last (some (a, w)) = some (a, (last, w))

  pub connect : ℕ → Text → ℕ × W → Option (Status × (ℕ × W))
  unfolding ensure_daemon_responsive start_connect poll
  connect fuel location lw =
      let (last, w) = ensure_daemon_responsive m lw in
      let (now, w') = m.clock (start_connect location w) in
      with_last last (poll fuel (now + seconds 30) location false [] w')

  abbrev lift : {A : Type 0} → (W → A × W) → ℕ × W → A × (ℕ × W)
  lift f (last, w) = let (a, w') = f w in (a, (last, w'))

  abbrev text_of : (LoginError → Text) → Option LoginError → Option Text
  text_of message none = none
  text_of message (some e) = some (message e)

  abbrev or_stuck : ℕ × W → Option (Status × (ℕ × W)) → Status × (ℕ × W)
  or_stuck lw none =
      (record { connected = false; ip = []; location = []; region = []; provider = name }, lw)
  or_stuck lw (some r) = r

  -- The plugin as a provider, over the machine and `lastDaemonRecovery`; `message` is the text of an
  -- error. The fuel is for the loop of Connect.
  provider : ℕ → (LoginError → Text) → VpnProvider (ℕ × W)
  unfolding active_location connected disconnect locations logged_in login logout status version
      connect
  provider fuel message = record {
    active_location = lift (active_location m);
    connect = λ location lw. or_stuck lw (connect fuel location lw);
    connected = lift (connected m);
    disconnect = lift (disconnect m);
    locations = locations m;
    logged_in = lift (logged_in m);
    login = λ lw. (let (e, lw') = login m lw in (text_of message e, lw'));
    logout = lift (logout m);
    status = lift (status m);
    version = lift (version m);
  }
