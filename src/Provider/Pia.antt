-- ===== src/Provider/Pia.antt =====
-- internal/provider/pia/pia.go: the plugin for Private Internet Access, as a provider over a machine
-- and the plugin's variables. The goroutines of monitor.go run beside it, so what they publish is
-- read from the world (`Feed`); Pia/Monitor.antt models them. An operation is one that no other
-- overlaps, so the compare-and-swap of the restart succeeds. Debug lines are left out, with the
-- readings of the clock that only they need.
pub mod Monitor
pub mod Restarts
pub mod Cooldown
pub mod Lists
pub mod Returns
use tundler.Base.{
  ℕ, zero, suc, ◌+◌, ◌-◌, ◌/◌, Text, Bool, true, false, not, ◌&&◌, ◌||◌, Option, none, some, List,
  [], ◌∷◌, ◌++◌, codes, text_eq, trim_space, split, contains, has_prefix, ltb, if◌then◌else◌,
}
use tundler.Exec.{first_ipv4}
use tundler.Exec.Version.{extract_version}
use tundler.Provider.{Status, VpnProvider}
use tundler.Provider.Machine.{Machine, is_none, milliseconds, seconds, command}

-- What the monitor's goroutines publish, and their start.
pub record Feed (W : Type 0) : Type 0 where
  pub state : W → Text
  pub ip : W → Text
  pub in_fallback : W → Bool
  pub start : W → W

-- The variables of the package. `rate_limited_until` is 0 for the zero Time.
pub record Pia : Type 0 where
  pub logged_in : Bool
  pub rate_limited_until : ℕ
  pub last_daemon_recovery : ℕ

-- The variables when the process starts.
abbrev pub boot : Pia
boot = record { logged_in = false; rate_limited_until = 0; last_daemon_recovery = 0 }

-- The errors of Login; the text of the cooldown's error tells what is left of it.
pub data LoginError : Type 0 where
  missing_credentials api_rate_limited : LoginError
  in_cooldown : ℕ → LoginError
  write_failed command_failed : Text → LoginError

abbrev pub name : Text
name = codes "pia"

abbrev bin : Text
bin = codes "piactl"

abbrev pub daemon_service : Text
daemon_service = codes "piavpn.service"

abbrev pub state_connected : Text
state_connected = codes "Connected"

abbrev pub state_disconnected : Text
state_disconnected = codes "Disconnected"

abbrev pub min_daemon_recovery_interval : ℕ
min_daemon_recovery_interval = 120

abbrev pub rate_limit_cooldown : ℕ
rate_limit_cooldown = seconds 900

abbrev pub unix : ℕ → ℕ
unix now = now / 1000000000

-- The lines of a list that are not empty and not comments.
pub listed : List Text → List Text
listed [] = []
listed (line ∷ lines) =
    let rest = listed lines in
    let l = trim_space line in
    if not (text_eq l []) && not (has_prefix l (codes "#")) then l ∷ rest else rest

module _ {W : Type 0} (m : Machine W) where
  abbrev piactl : List Text → W → (Text × Option Text) × W
  piactl args w = command m bin args w

  -- `quiet`
  abbrev quiet : List Text → W → W
  quiet args w = (piactl args w).1

  pub daemon_responsive : W → Bool × W
  daemon_responsive w =
      let ((out, err), w') = piactl (codes "get" ∷ codes "connectionstate" ∷ []) w in
      (is_none err && not (contains out (codes "Timed out")), w')

  -- The wait for the daemon after a restart: 15 rounds of two seconds.
  pub await_daemon : ℕ → W → W
  unfolding daemon_responsive
  await_daemon zero w = w
  await_daemon (suc rounds) w =
      let (done, w') = m.wait (seconds 2) w in
      let (up, w'') = daemon_responsive w' in
      let later = await_daemon rounds w'' in if done then w' else if up then w'' else later

  pub ensure_daemon_responsive : Pia × W → Pia × W
  unfolding await_daemon
  ensure_daemon_responsive (s, w) =
      let (up, w₁) = daemon_responsive w in
      let (now, w₂) = m.clock w₁ in
      let s' = record s { last_daemon_recovery = unix now } in
      let ((out, err), w₃) =
        command m (codes "systemctl") (codes "restart" ∷ daemon_service ∷ []) w₂ in
      if up
      then (s, w₁)
      else if ltb (unix now - s.last_daemon_recovery) min_daemon_recovery_interval
      then (s, w₂)
      else if is_none err
      then (s', await_daemon 15 w₃)
      else (s', w₃)

  pub desired_protocol : Text
  desired_protocol =
      let p = trim_space (m.getenv (codes "PRIVATEINTERNETACCESS_PROTOCOL")) in
      if text_eq p [] then codes "wireguard" else p

  pub ensure_protocol : W → W
  unfolding desired_protocol
  ensure_protocol w =
      let ((cur, err), w₁) = piactl (codes "get" ∷ codes "protocol" ∷ []) w in
      let ((state, err'), w₂) = piactl (codes "get" ∷ codes "connectionstate" ∷ []) w₁ in
      if text_eq (trim_space cur) desired_protocol
      then w₁
      else if not (text_eq (trim_space state) state_disconnected)
      then w₂
      else quiet (codes "set" ∷ codes "protocol" ∷ desired_protocol ∷ []) w₂

  pub active_location : W → Text × W
  active_location w =
      let ((out, err), w') = piactl (codes "get" ∷ codes "region" ∷ []) w in (trim_space out, w')

  abbrev username : Text
  username = m.getenv (codes "PRIVATEINTERNETACCESS_USERNAME")

  abbrev password : Text
  password = m.getenv (codes "PRIVATEINTERNETACCESS_PASSWORD")

module _ {W : Type 0} (m : Machine W) (feed : Feed W) where
  pub connected : W → Bool × W
  connected w =
      let ((out, err), w') = piactl m (codes "get" ∷ codes "connectionstate" ∷ []) w in
      if feed.in_fallback w
      then (text_eq (trim_space out) state_connected, w')
      else (text_eq (feed.state w) state_connected, w)

  -- The IP that `Status` reports when the tunnel is up.
  vpn_ip : W → Text × W
  vpn_ip w =
      let ((out, err), w') = piactl m (codes "get" ∷ codes "vpnip" ∷ []) w in
      if feed.in_fallback w
      then (if is_none err then first_ipv4 out else [], w')
      else (first_ipv4 (feed.ip w), w)

  pub status : W → Status × W
  unfolding active_location connected vpn_ip
  status w =
      let (up, w₁) = connected w in
      let (location, w₂) = active_location m w₁ in
      let (ip, w₃) = vpn_ip w₂ in
      if up
      then (
        record {
          connected = true;
          ip = ip;
          location = location;
          region = location;
          provider = name;
        },
        w₃,
      )
      else (record { connected = false; ip = []; location = []; region = []; provider = name }, w₁)

  -- The loop of Connect, with fuel: the status that has an address, or none at the deadline.
  pub poll_connect : ℕ → ℕ → W → Option (Option Status × W)
  unfolding status
  poll_connect zero deadline w = none
  poll_connect (suc fuel) deadline w =
      let (now, w₁) = m.clock w in
      let (st, w₂) = status w₁ in
      let pause = if feed.in_fallback w₂ then seconds 1 else milliseconds 250 in
      let later = poll_connect fuel deadline (m.sleep pause w₂) in
      if not (ltb now deadline)
      then some (none, w₁)
      else if st.connected && not (text_eq st.ip [])
      then some (some st, w₂)
      else later

  -- The status at the end of the loop.
  pub or_status : Option (Option Status × W) → Option (Status × W)
  or_status none = none
  or_status (some (some st, w)) = some (st, w)
  or_status (some (none, w)) = some (status w)

  -- The commands that start a connection.
  pub start_connect : Text → W → W
  start_connect location w =
      if text_eq location []
      then quiet m (codes "connect" ∷ []) w
      else quiet m (codes "connect" ∷ []) (quiet m (codes "set" ∷ codes "region" ∷ location ∷ []) w)

  -- Connect, after the check of the daemon.
  pub connect_to : ℕ → Text → W → Option (Status × W)
  unfolding poll_connect or_status start_connect
  connect_to fuel location w =
      let (now, w') = m.clock (start_connect location w) in
      or_status (poll_connect fuel (now + seconds 60) w')

  abbrev with_vars : {A : Type 0} → Pia → Option (A × W) → Option (A × (Pia × W))
  with_vars s none = none
  with_vars s (some (a, w)) = some (a, (s, w))

  -- `Connect`
  pub connect : ℕ → Text → Pia × W → Option (Status × (Pia × W))
  unfolding ensure_daemon_responsive connect_to
  connect fuel location sw =
      let (s, w) = ensure_daemon_responsive m sw in with_vars s (connect_to fuel location w)

  -- The loop of Disconnect: up to 30 rounds of one second.
  pub await_removal : ℕ → W → W
  unfolding status
  await_removal zero w = w
  await_removal (suc rounds) w =
      let (st, w') = status w in
      let (done, w'') = m.wait (seconds 1) w' in
      let later = await_removal rounds w'' in
      if not st.connected && text_eq st.ip [] then w' else if done then w'' else later

  pub disconnect : W → Option Text × W
  unfolding await_removal
  disconnect w =
      let ((out, err), w') = piactl m (codes "disconnect" ∷ []) w in
      elim err [ some e ↦ (some e, w') | none ↦ (none, await_removal 30 w') ]

  pub locations : W → List Text × W
  unfolding listed
  locations w =
      let ((out, err), w') = piactl m (codes "get" ∷ codes "regions" ∷ []) w in
      (listed (split 10 out), w')

  abbrev credentials_file : Text
  credentials_file = codes "/tmp/pia_credentials"

  -- What Login makes of the answer of the login command.
  pub on_login_output : Text → Option Text → Pia × W → Option LoginError × (Pia × W)
  on_login_output out err (s, w) =
      let (now, w') = m.clock w in
      if is_none err || contains out (codes "Already logged into account")
      then (none, (record s { logged_in = true }, feed.start w))
      else if contains out (codes "ApiRateLimitedError")
      then (
        some api_rate_limited,
        (record s { rate_limited_until = now + rate_limit_cooldown }, w'),
      )
      else (some (command_failed (elim err [ none ↦ [] | some e ↦ e ])), (s, w))

  -- The login command, with the credentials in a file that is removed afterwards.
  pub run_login : Pia × W → Option LoginError × (Pia × W)
  unfolding on_login_output
  run_login (s, w) =
      let (err, w₁) = m.write_file credentials_file ((username m) ++ (10 ∷ []) ++ (password m)) w in
      let ((out, err'), w₂) =
        piactl m (codes "--timeout" ∷ codes "90" ∷ codes "login" ∷ credentials_file ∷ []) w₁ in
      let (e, (s', w₃)) = on_login_output out err' (s, w₂) in
      elim err [
        | some x ↦ (some (write_failed x), (s, w₁))
        | none ↦ (e, (s', m.remove credentials_file w₃))
      ]

  -- `Login`
  pub login : Pia × W → Option LoginError × (Pia × W)
  unfolding ensure_daemon_responsive ensure_protocol run_login
  login (s, w) =
      let (now, w₁) = m.clock w in
      let (s', w₂) =
        ensure_daemon_responsive m (s, quiet m (codes "background" ∷ codes "enable" ∷ []) w₁) in
      let w₃ = ensure_protocol m w₂ in
      if text_eq (username m) [] || text_eq (password m) []
      then (some missing_credentials, (s, w))
      else if ltb now s.rate_limited_until
      then (some (in_cooldown (s.rate_limited_until - now)), (s, w₁))
      else if s'.logged_in
      then (none, (s', w₃))
      else run_login (s', w₃)

  pub logout : Pia × W → Option Text × (Pia × W)
  logout (s, w) =
      let ((out, err), w') = piactl m (codes "logout" ∷ []) w in
      (err, (record s { logged_in = false }, w'))

  -- `Version`, whose error is none of the version's text.
  pub version : W → Option Text × W
  version w =
      let ((out, err), w') = piactl m (codes "--version" ∷ []) w in
      let v = extract_version out in
      if is_none err then (some (if text_eq v [] then trim_space out else v), w') else (none, w')

  abbrev lift : {A : Type 0} → (W → A × W) → Pia × W → A × (Pia × W)
  lift f (s, w) = let (a, w') = f w in (a, (s, w'))

  abbrev text_of : (LoginError → Text) → Option LoginError → Option Text
  text_of message none = none
  text_of message (some e) = some (message e)

  abbrev or_stuck : Pia × W → Option (Status × (Pia × W)) → Status × (Pia × W)
  or_stuck sw none =
      (record { connected = false; ip = []; location = []; region = []; provider = name }, sw)
  or_stuck sw (some r) = r

  -- The plugin as a provider, over the machine and the package's variables; `message` is the text of
  -- an error. The fuel is for the loop of Connect.
  pub provider : ℕ → (LoginError → Text) → VpnProvider (Pia × W)
  unfolding status connected active_location locations disconnect logout version connect login
  provider fuel message = record {
    active_location = lift (active_location m);
    connect = λ location sw. or_stuck sw (connect fuel location sw);
    connected = lift connected;
    disconnect = lift disconnect;
    locations = lift locations;
    logged_in = λ sw. (sw.0.logged_in, sw);
    login = λ sw. (let (e, sw') = login sw in (text_of message e, sw'));
    logout = logout;
    status = lift status;
    version = lift version;
  }
