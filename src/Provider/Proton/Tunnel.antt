-- ===== src/Provider/Proton/Tunnel.antt =====
-- internal/provider/protonvpn/protonvpn.go: the tunnel of the plugin for ProtonVPN. `filepath.Join`
-- and whether `strconv.Atoi` reads a text are parameters, as are the certificate and the key.
pub mod Recorded
use tundler.Base.{
  Text, Bool, true, false, not, ◌||◌, Option, none, some, List, [], ◌∷◌, ◌++◌, codes, text_eq,
  trim_space, split, if◌then◌else◌,
}
use tundler.Exec.{first_ipv4}
use tundler.Exec.Version.{extract_version}
use tundler.Provider.{Status}
use tundler.Provider.Machine.{Machine, is_none, command}
use tundler.Provider.OpenVpn.{is_open_vpn_connected, await_up, await_down, pick_random_server}
use tundler.Provider.Proton.{Catalog, get_protocol, fetch_servers, find_servers}
use tundler.Provider.Proton.Config.{get_port, build_open_vpn_config}
use tundler.Updater.{OutputServer}

-- The variables of the package.
pub record Proton : Type 0 where
  pub catalog : Catalog
  pub active_server : Option OutputServer
  pub active_location : Text
  pub logged_in : Bool

abbrev pub down : Text → Status
down location = record {
  connected = false;
  ip = [];
  location = location;
  region = [];
  provider = codes "protonvpn";
}

-- `ActiveLocation` and `activeRegion`
unfoldable pub active_location : Proton → Text
active_location s = elim s.active_server [ none ↦ [] | some server ↦ s.active_location ]

active_region : Proton → Text
active_region s = elim s.active_server [
  | none ↦ []
  | some server ↦
      if not (text_eq server.city [])
      then server.country ++ codes " - " ++ server.city
      else if not (text_eq server.region [])
      then server.region
      else server.country
]

abbrev first_of : List Text → Text
first_of [] = []
first_of (l ∷ ls) = l

module _ {W : Type 0} (m : Machine W) (parse : Text → Option (List OutputServer))
    (join : Text → Text → Text) (is_number : Text → Bool) (proton_ca proton_tls_crypt : Text) where
  pub get_credentials : Option (Text × Text)
  get_credentials =
      let user = m.getenv (codes "PROTON_OPENVPN_USERNAME") in
      let pass = m.getenv (codes "PROTON_OPENVPN_PASSWORD") in
      if text_eq user [] || text_eq pass [] then none else some (user, pass)

  config_dir : Text
  config_dir =
      let dir = m.getenv (codes "PROTON_OPENVPN_CONFIG_DIR") in
      if text_eq dir [] then codes "/etc/protonvpn/openvpn" else dir

  abbrev config_of : OutputServer → Text → Text
  config_of server file =
      let proto = get_protocol (m.getenv (codes "PROTON_OPENVPN_PROTOCOL")) in
      build_open_vpn_config proton_ca proton_tls_crypt proto
        (get_port is_number (m.getenv (codes "PROTON_OPENVPN_PORT")) proto) server file

  -- `connectOpenVPN`: whether there was an error, and the variables.
  pub connect_open_vpn : OutputServer → Proton × W → Bool × (Proton × W)
  unfolding get_credentials config_dir
  connect_open_vpn server (s, w) =
      let credentials_file = join config_dir (codes "auth.txt") in
      let config_file = join config_dir (codes "client.ovpn") in
      let (err, w₁) = m.mkdir_all config_dir w in
      let config = config_of server credentials_file in
      elim get_credentials [
        | none ↦ (true, (s, w))
        | some c ↦
            let (err', w₂) =
              m.write_file credentials_file (c.0 ++ (10 ∷ []) ++ c.1 ++ (10 ∷ [])) w₁ in
            let (err'', w₃) = m.write_file config_file config w₂ in
            let ((out, failed), w₄) =
              command m (codes "openvpn") (codes "--config" ∷ config_file ∷ codes "--daemon" ∷ [])
                w₃ in
            let (up, w₅) = await_up m 60 w₄ in
            if not (is_none err)
            then (true, (s, w₁))
            else if not (is_none err')
            then (true, (s, w₂))
            else if not (is_none err'')
            then (true, (s, w₃))
            else if not (is_none failed)
            then (true, (s, w₄))
            else if up
            then (false, (record s { active_server = some server }, w₅))
            else (true, (s, w₅))
      ]

  -- The arguments of `curl`, with the address that `getent` found.
  curl_args : Text → List Text
  curl_args resolve_ip =
      if text_eq resolve_ip []
      then codes "-s" ∷ codes "--max-time" ∷ codes "5" ∷ codes "https://icanhazip.com" ∷ []
      else codes "-s"
        ∷ codes "--max-time"
        ∷ codes "5"
        ∷ codes "--resolve"
        ∷ (codes "icanhazip.com:443:" ++ resolve_ip)
        ∷ codes "https://icanhazip.com"
        ∷ []

  public_ip : W → Text × W
  unfolding curl_args
  public_ip w =
      let ((out, err), w₁) =
        command m (codes "getent") (codes "ahostsv4" ∷ codes "icanhazip.com" ∷ []) w in
      let ((out', err'), w₂) =
        command m (codes "curl") (curl_args (if is_none err then first_ipv4 out else [])) w₁ in
      (if is_none err' then trim_space out' else [], w₂)

  pub status : Proton × W → Status × (Proton × W)
  unfolding active_location active_region public_ip
  status (s, w) =
      let (up, w₁) = is_open_vpn_connected m w in
      let (ip, w₂) = public_ip w₁ in
      if up
      then (
        record {
          connected = true;
          ip = ip;
          location = active_location s;
          region = active_region s;
          provider = codes "protonvpn";
        },
        (s, w₂),
      )
      else (down [], (s, w₁))

  -- `Connect`, with the servers.
  pub connect_among : List OutputServer → Text → Proton × W → Status × (Proton × W)
  unfolding find_servers connect_open_vpn status
  connect_among servers location (s, w) =
      let (picked, w₁) = pick_random_server m (find_servers servers location) w in
      elim picked [
        | none ↦ (down location, (s, w₁))
        | some server ↦
            let (failed, (s', w₂)) = connect_open_vpn server (s, w₁) in
            if failed
            then (down location, (s', w₂))
            else status (record s' { active_location = location }, w₂)
      ]

  -- `fetchServers` on the variables.
  pub fetched : Proton × W → (List OutputServer × Bool) × (Proton × W)
  unfolding fetch_servers
  fetched (s, w) =
      let (r, (c, w')) = fetch_servers m parse (s.catalog, w) in (r, (record s { catalog = c }, w'))

  -- `Connect`
  pub connect : Text → Proton × W → Status × (Proton × W)
  unfolding fetched connect_among
  connect location sw =
      let ((servers, failed), sw') = fetched sw in
      if failed then (down [], sw') else connect_among servers location sw'

  -- `Disconnect`, which never fails.
  disconnect : Proton × W → Proton × W
  disconnect (s, w) =
      let (r, w') = command m (codes "pkill") (codes "-SIGTERM" ∷ codes "openvpn" ∷ []) w in
      (record s { active_server = none; active_location = [] }, await_down m 20 w')

  -- `Login`, whose result is whether there was an error.
  login : Proton × W → Bool × (Proton × W)
  unfolding get_credentials fetched
  login sw =
      let ((servers, failed), (s, w)) = fetched sw in
      elim get_credentials [
        | none ↦ (true, sw)
        | some c ↦ if failed then (true, (s, w)) else (false, (record s { logged_in = true }, w))
      ]

  logout : Proton × W → Proton × W
  logout (s, w) = (record s { logged_in = false }, w)

  -- `Version`, whose error is none of the version's text.
  version : W → Option Text × W
  version w =
      let ((out, err), w') = command m (codes "openvpn") (codes "--version" ∷ []) w in
      let v = extract_version out in
      let first = first_of (split 10 out) in
      if is_none err then (some (if text_eq v [] then trim_space first else v), w') else (none, w')
