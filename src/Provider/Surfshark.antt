-- ===== src/Provider/Surfshark.antt =====
-- internal/provider/surfshark/surfshark.go: the plugin for Surfshark, with a tunnel of `openvpn` or of
-- WireGuard. The request of the list of servers with its decoding is a parameter.
pub mod Files
use tundler.Base.{
  ℕ, ◌-◌, Text, Bool, true, false, not, ◌||◌, Option, none, some, List, [], ◌∷◌, ◌++◌, codes,
  text_eq, elem, trim_space, split, join_lines, length, get_elem?, ltb, if◌then◌else◌,
}
use tundler.Base.Decimal.{decimal}
use tundler.Provider.{Status}
use tundler.Provider.Machine.{Machine, is_none, seconds, command}
use tundler.Provider.OpenVpn.{
  lower, is_open_vpn_connected, await_up, await_down, pick_random_server,
}
use tundler.Provider.Direct.{down, find_with}
use tundler.Provider.Surfshark.Files.{
  Server, matches, keys_of, countries, open_vpn_config, wire_guard_config,
}
use tundler.Provider.WireGuard.{start, take_down, is_wire_guard_connected, exit_ip}

abbrev name : Text
name = codes "surfshark"

abbrev cache_expiry : ℕ
cache_expiry = seconds 3600

abbrev wg_config_file : Text
wg_config_file = codes "/etc/surfshark/wireguard/wg0.conf"

-- The variables of the package; the time of the cache counts from the start of the year 1.
pub record Surfshark : Type 0 where
  pub server_cache : List Server
  pub server_cache_time : ℕ
  pub active_server : Option Server
  pub active_protocol : Text
  pub active_location : Text
  pub logged_in : Bool

-- `activeRegion`
active_region : Surfshark → Text
active_region s = elim s.active_server [
  | none ↦ []
  | some server ↦
      if not (text_eq server.location [])
      then server.country ++ codes " - " ++ server.location
      else if not (text_eq server.region [])
      then server.region
      else server.country
]

-- The status of a Connect that failed, which names no provider.
abbrev off : Status
off = record { connected = false; ip = []; location = []; region = []; provider = [] }

module _ {W : Type 0} (m : Machine W) where
  get_protocol : Text
  get_protocol =
      let proto = m.getenv (codes "SURFSHARK_PROTOCOL") in
      lower (if text_eq proto [] then codes "openvpn" else proto)

  is_wireguard : Text → Bool
  is_wireguard proto = text_eq proto (codes "wireguard")

  get_open_vpn_credentials : Option (Text × Text)
  get_open_vpn_credentials =
      let user = m.getenv (codes "SURFSHARK_OPENVPN_USERNAME") in
      let pass = m.getenv (codes "SURFSHARK_OPENVPN_PASSWORD") in
      if text_eq user [] || text_eq pass [] then none else some (user, pass)

  abbrev some_keys : List Text → Option (List Text)
  some_keys [] = none
  some_keys (k ∷ ks) = some (k ∷ ks)

  get_wire_guard_keys : Option (List Text)
  get_wire_guard_keys =
      let keys = m.getenv (codes "SURFSHARK_WIREGUARD_PRIVATE_KEYS") in
      if text_eq keys [] then none else some_keys (keys_of (split b',' keys))

  abbrev or_empty : Option Text → Text
  or_empty none = []
  or_empty (some key) = key

  -- `pickRandomKey`, of a list that is not empty.
  pick_random_key : List Text → W → Text × W
  pick_random_key keys w = let (i, w') = m.pick (length keys) w in (or_empty (get_elem? keys i), w')

  -- The rest of `connectOpenVPN`, with the credentials: whether it failed.
  open_vpn : Server → Text × Text → W → Bool × W
  open_vpn server (user, pass) w =
      let cred_file = codes "/etc/surfshark/openvpn/auth.txt" in
      let config_file = codes "/etc/surfshark/openvpn/client.ovpn" in
      let (err, w₁) = m.write_file cred_file (user ++ (10 ∷ []) ++ pass ++ (10 ∷ [])) w in
      let (err', w₂) = m.write_file config_file (open_vpn_config server cred_file) w₁ in
      let ((out, err''), w₃) =
        command m (codes "openvpn") (codes "--config" ∷ config_file ∷ codes "--daemon" ∷ []) w₂ in
      let (up, w₄) = await_up m 30 w₃ in
      if not (is_none err)
      then (true, w₁)
      else if not (is_none err')
      then (true, w₂)
      else if not (is_none err'')
      then (true, w₃)
      else (not up, w₄)

  -- The variables after a tunnel has come up.
  abbrev came_up : Server → Text → Bool × W → Surfshark → Bool × (Surfshark × W)
  came_up server proto (failed, w) s = (
    failed,
    (if failed then s else record s { active_server = some server; active_protocol = proto }, w),
  )

  connect_open_vpn : Server → Surfshark × W → Bool × (Surfshark × W)
  unfolding get_open_vpn_credentials open_vpn
  connect_open_vpn server (s, w) = elim get_open_vpn_credentials [
    | none ↦ (true, (s, w))
    | some creds ↦ came_up server (codes "openvpn") (open_vpn server creds w) s
  ]

  connect_wire_guard : Server → Surfshark × W → Bool × (Surfshark × W)
  unfolding get_wire_guard_keys pick_random_key
  connect_wire_guard server (s, w) = elim get_wire_guard_keys [
    | none ↦ (true, (s, w))
    | some keys ↦
        let (key, w') = pick_random_key keys w in
        came_up server (codes "wireguard")
          (start m wg_config_file (wire_guard_config key server) w') s
  ]

  active_location : Surfshark → Text
  active_location s = elim s.active_server [ none ↦ [] | some server ↦ s.active_location ]

  connected : W → Bool × W
  unfolding get_protocol is_wireguard
  connected w =
      if is_wireguard get_protocol then is_wire_guard_connected m w else is_open_vpn_connected m w

  status : Surfshark × W → Status × (Surfshark × W)
  unfolding active_location active_region connected
  status (s, w) =
      let (up, w₁) = connected w in
      let (ip, w₂) = exit_ip m (codes "2") w₁ in
      if up
      then (
        record {
          connected = true;
          ip = ip;
          location = active_location s;
          region = active_region s;
          provider = name;
        },
        (s, w₂),
      )
      else (down name [], (s, w₁))

  -- The rest of Connect, with a server.
  connect_to : Server → Text → Surfshark × W → Status × (Surfshark × W)
  unfolding get_protocol is_wireguard connect_open_vpn connect_wire_guard status
  connect_to server location (s, w) =
      let (failed, (s', w')) =
        if is_wireguard get_protocol
        then connect_wire_guard server (s, w)
        else connect_open_vpn server (s, w) in
      if failed then (off, (s', w')) else status (record s' { active_location = location }, w')

  -- `Disconnect`, whose error is none.
  disconnect : Surfshark × W → Surfshark × W
  unfolding get_protocol is_wireguard
  disconnect (s, w) =
      let proto = if text_eq s.active_protocol [] then get_protocol else s.active_protocol in
      let (r, w₁) = command m (codes "pkill") (codes "-SIGTERM" ∷ codes "openvpn" ∷ []) w in
      let w₂ = await_down m 10 w₁ in
      (
        record s { active_server = none; active_protocol = []; active_location = [] },
        if is_wireguard proto then take_down m wg_config_file w else w₂,
      )

  -- `Login`, whose result is whether there was an error.
  login : Surfshark × W → Bool × (Surfshark × W)
  unfolding get_protocol is_wireguard get_wire_guard_keys get_open_vpn_credentials
  login (s, w) =
      let missing =
        if is_wireguard get_protocol
        then is_none get_wire_guard_keys
        else is_none get_open_vpn_credentials in
      if missing then (true, (s, w)) else (false, (record s { logged_in = true }, w))

  logout : Surfshark × W → Surfshark × W
  logout (s, w) = (record s { logged_in = false }, w)

module _ {W : Type 0} (m : Machine W) (fetch : W → Option (List Server) × W) where
  -- Whether the cache is not empty and not too old.
  is_cached : Surfshark × W → Bool × W
  is_cached (s, w) = elim s.server_cache [
    | [] ↦ (false, w)
    | ◌∷◌ x xs ↦ let (now, w') = m.clock w in (ltb (now - s.server_cache_time) cache_expiry, w')
  ]

  -- `fetchServers`, with the test before and under the lock.
  fetch_servers : Surfshark × W → Option (List Server) × (Surfshark × W)
  unfolding is_cached
  fetch_servers (s, w) =
      let (before, w₁) = is_cached (s, w) in
      let (under, w₂) = is_cached (s, w₁) in
      let (r, w₃) = fetch w₂ in
      let (now, w₄) = m.clock w₃ in
      if before
      then (some s.server_cache, (s, w₁))
      else if under
      then (some s.server_cache, (s, w₂))
      else elim r [
        | none ↦ (none, (s, w₃))
        | some servers ↦
            (some servers, (record s { server_cache = servers; server_cache_time = now }, w₄))
      ]

  connect : Text → Surfshark × W → Status × (Surfshark × W)
  unfolding fetch_servers connect_to
  connect location sw =
      let (r, (s, w)) = fetch_servers sw in
      elim r [
        | none ↦ (off, (s, w))
        | some servers ↦
            let (picked, w') = pick_random_server m (find_with matches servers location) w in
            elim picked [
              | none ↦ (off, (s, w'))
              | some server ↦ connect_to m server location (s, w')
            ]
      ]

  abbrev names_of : Option (List Server) → List Text
  names_of none = []
  names_of (some servers) = countries [] servers

  locations : Surfshark × W → List Text × (Surfshark × W)
  unfolding fetch_servers
  locations sw = let (r, sw') = fetch_servers sw in (names_of r, sw')

  abbrev count_of : Option (List Server) → Option Text
  count_of none = none
  count_of (some servers) = some (codes "API (" ++ decimal (length servers) ++ codes " servers)")

  version : Surfshark × W → Option Text × (Surfshark × W)
  unfolding fetch_servers
  version sw = let (r, sw') = fetch_servers sw in (count_of r, sw')
