-- ===== src/Provider/Ovpn.antt =====
-- internal/provider/ovpn/ovpn.go: the plugin for OVPN. The parse of the list of datacenters is a
-- parameter, which gives the entries of the JSON object in the order of the iteration over the map;
-- so are the embedded certificate and key. Debug lines are left out, and the locks, since an
-- operation is one that no other overlaps.
pub mod Offers
use tundler.Base.{
  length, ℕ, ◌≡◌, refl, Text, Bool, true, false, not, ◌&&◌, ◌||◌, ◌⊎◌, inl, inr, Option, none, some,
  List, [], ◌∷◌, ◌++◌, codes, text_eq, trim_space, if◌then◌else◌,
}
use tundler.Base.Decimal.{decimal}
use tundler.Base.Sorting.{text_leb, sort, sort_strings}
use tundler.Provider.{Status}
use tundler.Provider.Machine.{Machine, is_none, command}
use tundler.Provider.OpenVpn.{
  lower, distinct, matching, is_open_vpn_connected, await_up, await_down, pick_random_server,
}

pub record Server : Type 0 where
  pub slug : Text
  pub city : Text
  pub country : Text
  pub ip : Text

-- The variables of the package.
pub record Ovpn : Type 0 where
  pub server_cache : List Server
  pub active_server : Option Server
  pub active_location : Text
  pub logged_in : Bool

abbrev pub name : Text
name = codes "ovpn"

abbrev servers_file : Text
servers_file = codes "/etc/ovpn/servers.json"

abbrev config_dir : Text
config_dir = codes "/etc/ovpn/openvpn"

abbrev credentials_path : Text
credentials_path = codes "/etc/ovpn/openvpn/auth.txt"

abbrev config_path : Text
config_path = codes "/etc/ovpn/openvpn/active.ovpn"

abbrev pub openvpn_args : List Text
openvpn_args =
    codes "--cd"
    ∷ config_dir
    ∷ codes "--config"
    ∷ codes "active.ovpn"
    ∷ codes "--tun-mtu"
    ∷ codes "1320"
    ∷ codes "--mssfix"
    ∷ codes "1280"
    ∷ codes "--daemon"
    ∷ []

pub hostname : Server → Text
hostname s = codes "pool-1.prd." ++ lower s.country ++ codes "." ++ s.slug ++ codes ".ovpn.com"

-- The entries that name a place and a country, in the order of their slugs.
abbrev has_names : Server → Bool
has_names s = not (text_eq s.slug []) && not (text_eq s.country [])

abbrev by_slug : Server → Server → Bool
by_slug s t = text_leb s.slug t.slug

unfoldable pub usable : List Server → List Server
usable raw = sort by_slug (matching has_names raw)

abbrev pub matches : Text → Server → Bool
matches location s =
    text_eq (lower s.country) (lower location) || text_eq (lower s.city) (lower location)

pub find_servers : List Server → Text → List Server
find_servers servers location =
    if text_eq location [] then servers else matching (matches location) servers

-- The lines of the configuration of `openvpn`.
pub config_text : Text → Text → Text → Server → Text → Text
unfolding hostname
config_text ca_cert tls_auth nl server cred_file =
    codes "client"
    ++ nl
    ++ codes "dev tun"
    ++ nl
    ++ codes "tls-version-min 1.0"
    ++ nl
    ++ codes "cipher CHACHA20-POLY1305"
    ++ nl
    ++ codes "data-ciphers CHACHA20-POLY1305:AES-256-GCM:AES-256-CBC:AES-128-GCM"
    ++ nl
    ++ codes "pull"
    ++ nl
    ++ codes "nobind"
    ++ nl
    ++ codes "reneg-sec 0"
    ++ nl
    ++ codes "resolv-retry infinite"
    ++ nl
    ++ codes "verb 3"
    ++ nl
    ++ codes "persist-key"
    ++ nl
    ++ codes "persist-tun"
    ++ nl
    ++ codes "remote-random"
    ++ nl
    ++ codes "remote "
    ++ hostname server
    ++ codes " 1194"
    ++ nl
    ++ codes "remote "
    ++ hostname server
    ++ codes " 1195"
    ++ nl
    ++ codes "proto udp"
    ++ nl
    ++ codes "mute-replay-warnings"
    ++ nl
    ++ codes "replay-window 256"
    ++ nl
    ++ codes "allow-compression asym"
    ++ nl
    ++ codes "auth-user-pass "
    ++ cred_file
    ++ nl
    ++ codes "key-direction 1"
    ++ nl
    ++ codes "<ca>"
    ++ nl
    ++ ca_cert
    ++ codes "</ca>"
    ++ nl
    ++ codes "<tls-auth>"
    ++ nl
    ++ tls_auth
    ++ codes "</tls-auth>"
    ++ nl

-- What a list that was read leaves in the cache.
abbrev pub cache_list : List Server → Ovpn → Option (List Server) × Ovpn
cache_list [] s = (none, s)
cache_list (x ∷ xs) s = (some (x ∷ xs), record s { server_cache = x ∷ xs })

unfoldable pub cache_parsed : Option (List Server) → Ovpn → Option (List Server) × Ovpn
unfolding usable
cache_parsed none s = (none, s)
cache_parsed (some raw) s = cache_list (usable raw) s

abbrev pub down : Text → Status
down location = record {
  connected = false;
  ip = [];
  location = location;
  region = [];
  provider = name;
}

pub active_region : Ovpn → Text
active_region s = elim s.active_server [
  | none ↦ []
  | some server ↦
      if text_eq server.city []
      then server.country
      else server.country ++ codes " - " ++ server.city
]

pub active_location : Ovpn → Text
active_location s = elim s.active_server [ none ↦ [] | some server ↦ s.active_location ]

abbrev pub names_of : Option (List Server) → List Text
names_of none = []
names_of (some ss) = sort_strings (distinct (λ s. s.country) [] ss)

module _ {W : Type 0} (m : Machine W) where
  abbrev pub get_credentials : Option (Text × Text)
  get_credentials =
      let user = m.getenv (codes "OVPN_USERNAME") in
      let pass = m.getenv (codes "OVPN_PASSWORD") in
      if text_eq user [] || text_eq pass [] then none else some (user, pass)

  -- A file in the directory of the configuration.
  write_in_dir : Text → Text → W → Option Text × W
  write_in_dir path text w =
      let (err, w₁) = m.mkdir_all config_dir w in
      let (err', w₂) = m.write_file path text w₁ in
      elim err [ some e ↦ (some e, w₁) | none ↦ (err', w₂) ]

  pub write_credentials : Text → Text → W → Option Text × W
  unfolding write_in_dir
  write_credentials user pass w =
      write_in_dir credentials_path (user ++ (10 ∷ []) ++ pass ++ (10 ∷ [])) w

  pub status : Ovpn × W → Status × (Ovpn × W)
  unfolding active_region active_location
  status (s, w) =
      let (up, w₁) = is_open_vpn_connected m w in
      let ((out, err), w₂) =
        command m (codes "curl")
          (codes "-s" ∷ codes "--max-time" ∷ codes "5" ∷ codes "https://icanhazip.com" ∷ []) w₁ in
      if up
      then (
        record {
          connected = true;
          ip = if is_none err then trim_space out else [];
          location = active_location s;
          region = active_region s;
          provider = name;
        },
        (s, w₂),
      )
      else (down [], (s, w₁))

  -- `Disconnect`
  pub disconnect : Ovpn × W → Option Text × (Ovpn × W)
  disconnect (s, w) =
      let ((out, err), w') =
        command m (codes "pkill") (codes "-SIGTERM" ∷ codes "openvpn" ∷ []) w in
      (none, (record s { active_server = none; active_location = [] }, await_down m 20 w'))

module _ {W : Type 0} (m : Machine W) (parse : Text → Option (List Server))
    (ca_cert tls_auth : Text) where
  -- `loadServers`, none on an error.
  unfoldable pub load_servers : Ovpn × W → Option (List Server) × (Ovpn × W)
  unfolding cache_parsed
  load_servers (s, w) =
      let (file, w') = m.read_file servers_file w in
      elim s.server_cache [
        | ◌∷◌ x xs ↦ (some (x ∷ xs), (s, w))
        | [] ↦ elim file [
          | inl e ↦ (none, (s, w'))
          | inr data_ ↦ let (r, s') = cache_parsed (parse data_) s in (r, (s', w'))
        ]
      ]

  pub write_config : Server → W → Option Text × W
  unfolding write_in_dir config_text
  write_config server w =
      write_in_dir m config_path (config_text ca_cert tls_auth (10 ∷ []) server credentials_path) w

  -- The start of `openvpn`, and the wait for its tunnel.
  pub dial : Server → Text → Ovpn × W → Status × (Ovpn × W)
  unfolding status
  dial server location (s, w) =
      let ((out, err), w₁) = command m (codes "openvpn") openvpn_args w in
      let (up, w₂) = await_up m 60 w₁ in
      if not (is_none err)
      then (down location, (s, w₁))
      else if up
      then status m (record s { active_server = some server; active_location = location }, w₂)
      else (down location, (s, w₂))

  -- Connect to a server, with its files in place.
  pub connect_to : Server → Text → Text → Text → Ovpn × W → Status × (Ovpn × W)
  unfolding write_credentials write_config dial
  connect_to server user pass location (s, w) =
      let (err, w₁) = write_credentials m user pass w in
      let (err', w₂) = write_config server w₁ in
      if not (is_none err)
      then (down location, (s, w₁))
      else if not (is_none err')
      then (down location, (s, w₂))
      else dial server location (s, w₂)

  -- Connect, with the credentials and the servers that match.
  pub choose : List Server → Text → Text → Text → Ovpn × W → Status × (Ovpn × W)
  unfolding connect_to
  choose found user pass location (s, w) =
      let (server, w') = pick_random_server m found w in
      elim server [
        | none ↦ (down location, (s, w'))
        | some x ↦ connect_to x user pass location (s, w')
      ]

  -- `Connect`
  pub connect : Text → Ovpn × W → Status × (Ovpn × W)
  unfolding load_servers find_servers choose
  connect location sw = elim (get_credentials m) [
    | none ↦ (down [], sw)
    | some c ↦
        let (servers, sw') = load_servers sw in
        elim servers [
          | none ↦ (down [], sw')
          | some ss ↦ choose (find_servers ss location) c.0 c.1 location sw'
        ]
  ]

  -- `Locations`
  unfoldable pub locations : Ovpn × W → List Text × (Ovpn × W)
  unfolding load_servers
  locations sw = let (servers, sw') = load_servers sw in (names_of servers, sw')

  -- `Login`, whose result is whether there was an error.
  pub login : Ovpn × W → Bool × (Ovpn × W)
  unfolding load_servers
  login sw =
      let (servers, (s, w)) = load_servers sw in
      elim (get_credentials m) [
        | none ↦ (true, sw)
        | some c ↦ elim servers [
          | none ↦ (true, (s, w))
          | some ss ↦ (false, (record s { logged_in = true }, w))
        ]
      ]

  pub logout : Ovpn × W → Option Text × (Ovpn × W)
  logout (s, w) = (none, (record s { logged_in = false }, w))

  abbrev count_of : Option (List Server) → Option Text
  count_of none = none
  count_of (some ss) = some (codes "openvpn (" ++ decimal (length ss) ++ codes " datacenters)")

  -- `Version`, whose error is none of the version's text.
  version : Ovpn × W → Option Text × (Ovpn × W)
  unfolding load_servers
  version sw = let (servers, sw') = load_servers sw in (count_of servers, sw')
