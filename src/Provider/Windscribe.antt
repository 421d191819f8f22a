-- ===== src/Provider/Windscribe.antt =====
-- internal/provider/windscribe/windscribe.go: the plugin for Windscribe. The request of the list of
-- servers with its decoding, the embedded list, certificate and key, and `filepath.Join` are
-- parameters.
use tundler.Base.{
  ℕ, Text, Bool, true, false, not, ◌&&◌, ◌||◌, Option, none, some, List, [], ◌∷◌, ◌++◌, codes,
  text_eq, trim_space, split, map, join_lines, length, get_elem?, if◌then◌else◌,
}
use tundler.Base.Sorting.{sort_strings}
use tundler.Provider.{Status}
use tundler.Provider.Machine.{Machine, is_none, command}
use tundler.Provider.OpenVpn.{lower, is_open_vpn_connected, await_up, await_down}
use tundler.Provider.Direct.{down}

abbrev name : Text
name = codes "windscribe"

pub record Node : Type 0 where
  pub hostname : Text

pub record Location : Type 0 where
  pub name : Text
  pub short_name : Text
  pub country_code : Text
  pub premium_only : ℕ
  pub nodes : List Node

-- The variables of the package.
pub record Windscribe : Type 0 where
  pub server_cache : List Location
  pub active_location : Text
  pub logged_in : Bool

-- The locations that have a node.
with_nodes : List Location → List Location
with_nodes [] = []
with_nodes (l ∷ ls) = let rest = with_nodes ls in elim l.nodes [ [] ↦ rest | ◌∷◌ n ns ↦ l ∷ rest ]

first_named : Text → List Location → Option Location
first_named w [] = none
first_named w (l ∷ ls) =
    let rest = first_named w ls in
    if text_eq (lower l.name) w || text_eq (lower l.short_name) w then some l else rest

-- `findLocation`
find_location : List Location → Text → Option Location
unfolding first_named
find_location locs want = first_named (lower (trim_space want)) locs

-- `buildOpenVPNConfig`
build_open_vpn_config : Text → Text → Node → Text → Text
build_open_vpn_config embedded_ca embedded_tls_auth n auth_path = join_lines (
    codes "client"
    ∷ codes "dev tun"
    ∷ codes "proto udp"
    ∷ (codes "remote " ++ n.hostname ++ codes " 443")
    ∷ codes "nobind"
    ∷ (codes "auth-user-pass " ++ auth_path)
    ∷ codes "resolv-retry infinite"
    ∷ codes "cipher AES-256-GCM"
    ∷ codes "data-ciphers AES-256-GCM:AES-256-CBC:AES-128-GCM"
    ∷ codes "auth SHA512"
    ∷ codes "verb 2"
    ∷ codes "mute-replay-warnings"
    ∷ codes "remote-cert-tls server"
    ∷ codes "persist-key"
    ∷ codes "persist-tun"
    ∷ codes "key-direction 1"
    ∷ codes "<ca>"
    ∷ trim_space embedded_ca
    ∷ codes "</ca>"
    ∷ codes "<tls-auth>"
    ∷ trim_space embedded_tls_auth
    ∷ codes "</tls-auth>"
    ∷ []
    ∷ [])

-- What a list leaves in the cache: one with no node in it is an error.
abbrev keep : List Location → Windscribe → Option (List Location) × Windscribe
keep [] s = (none, s)
keep (l ∷ ls) s = (some (l ∷ ls), record s { server_cache = l ∷ ls })

active_location : Windscribe → Text
active_location s = s.active_location

-- `Status`, which asks nothing of the machine.
status : Windscribe → Status
status s = if text_eq s.active_location [] then down name [] else record {
  connected = true;
  ip = [];
  location = s.active_location;
  region = s.active_location;
  provider = name;
}

module _ {W : Type 0} (m : Machine W) where
  config_dir : Text
  config_dir =
      let dir = m.getenv (codes "WINDSCRIBE_CONFIG_DIR") in
      if text_eq dir [] then codes "/etc/windscribe/openvpn" else dir

  get_credentials : Option (Text × Text)
  get_credentials =
      let user = trim_space (m.getenv (codes "WINDSCRIBE_USERNAME")) in
      let pass = trim_space (m.getenv (codes "WINDSCRIBE_PASSWORD")) in
      if text_eq user [] || text_eq pass [] then none else some (user, pass)

  connected : W → Bool × W
  connected = is_open_vpn_connected m

  kill : W → W
  kill w = (command m (codes "pkill") (codes "-SIGTERM" ∷ codes "openvpn" ∷ []) w).1

  -- The start of `openvpn` and the wait for its tunnel, of which one that does not come is killed:
  -- whether it is up.
  dial : W → Bool × W
  unfolding config_dir kill
  dial w =
      let ((out, err), w₁) =
        command m (codes "openvpn")
          (codes "--cd"
            ∷ config_dir
            ∷ codes "--config"
            ∷ codes "active.ovpn"
            ∷ codes "--daemon"
            ∷ [])
          w in
      let (up, w₂) = await_up m 60 w₁ in
      if not (is_none err) then (false, w₁) else if up then (true, w₂) else (false, kill w₂)

  -- `Disconnect`, whose error is none.
  disconnect : Windscribe × W → Windscribe × W
  unfolding kill
  disconnect (s, w) = (record s { active_location = [] }, await_down m 20 (kill w))

  logout : Windscribe × W → Windscribe × W
  logout (s, w) = (record s { logged_in = false }, w)

  abbrev first_line : List Text → Text
  first_line [] = []
  first_line (l ∷ ls) = l

  -- `Version`, whose error is none of the version's text.
  version : W → Option Text × W
  version w =
      let ((out, err), w') = command m (codes "openvpn") (codes "--version" ∷ []) w in
      if not (is_none err) && text_eq out []
      then (none, w')
      else (some (trim_space (first_line (split 10 out))), w')

module _ {W : Type 0} (m : Machine W) (join : Text → Text → Text)
    (fetch_live_servers : W → Option (List Location) × W)
    (embedded_servers : Option (List Location)) (embedded_ca embedded_tls_auth : Text) where
  -- The list that was fetched, or the embedded one.
  abbrev fetched : Option (List Location) → Option (List Location)
  fetched none = embedded_servers
  fetched (some locs) = some locs

  abbrev kept : Option (List Location) → Windscribe → Option (List Location) × Windscribe
  kept none s = (none, s)
  kept (some locs) s = keep (with_nodes locs) s

  -- `loadServers`
  load_servers : Windscribe × W → Option (List Location) × (Windscribe × W)
  load_servers (s, w) =
      let (live, w') = fetch_live_servers w in
      elim s.server_cache [
        | ◌∷◌ x xs ↦ (some (x ∷ xs), (s, w))
        | [] ↦ let (r, s') = kept (fetched live) s in (r, (s', w'))
      ]

  -- `writeCredentials`
  write_credentials : Text → Text → W → Bool × W
  unfolding config_dir
  write_credentials user pass w =
      let (err, w₁) = m.mkdir_all (config_dir m) w in
      let (err', w₂) =
        m.write_file (join (config_dir m) (codes "auth.txt"))
          (user ++ (10 ∷ []) ++ pass ++ (10 ∷ [])) w₁ in
      if is_none err then (not (is_none err'), w₂) else (true, w₁)

  -- `writeActiveConfig`
  write_active_config : Node → W → Bool × W
  unfolding config_dir build_open_vpn_config
  write_active_config n w =
      let config =
        build_open_vpn_config embedded_ca embedded_tls_auth n
          (join (config_dir m) (codes "auth.txt")) in
      let (err, w') = m.write_file (join (config_dir m) (codes "active.ovpn")) config w in
      (not (is_none err), w')

  -- Connect, with a node: whether the tunnel is up.
  attempt : Text × Text → Node → W → Bool × W
  unfolding write_credentials write_active_config dial
  attempt (user, pass) n w =
      let (failed, w₁) = write_credentials user pass w in
      let (failed', w₂) = write_active_config n w₁ in
      let end = dial m w₂ in if failed then (false, w₁) else if failed' then (false, w₂) else end

  -- A node of a location.
  pick_node : Location → W → Option Node × W
  pick_node loc w = elim loc.nodes [
    | [] ↦ (none, w)
    | ◌∷◌ n ns ↦ let (i, w') = m.pick (length (n ∷ ns)) w in (get_elem? (n ∷ ns) i, w')
  ]

  connect_to : Text × Text → Location → Text → Windscribe × W → Status × (Windscribe × W)
  unfolding pick_node attempt status
  connect_to creds loc location_name (s, w) =
      let (picked, w₁) = pick_node loc w in
      elim picked [
        | none ↦ (down name location_name, (s, w₁))
        | some n ↦
            let (up, w₂) = attempt creds n w₁ in
            let s' = record s { active_location = loc.name } in
            if up then (status s', (s', w₂)) else (down name location_name, (s, w₂))
      ]

  connect : Text → Windscribe × W → Status × (Windscribe × W)
  unfolding get_credentials load_servers find_location connect_to
  connect location_name (s, w) = elim (get_credentials m) [
    | none ↦ (down name [], (s, w))
    | some creds ↦
        let (locs, sw) = load_servers (s, w) in
        elim locs [
          | none ↦ (down name [], sw)
          | some ls ↦ elim (find_location ls location_name) [
            | none ↦ (down name location_name, sw)
            | some loc ↦ connect_to creds loc location_name sw
          ]
        ]
  ]

  abbrev names_of : Option (List Location) → List Text
  names_of none = []
  names_of (some ls) = sort_strings (map (λ l. l.name) ls)

  locations : Windscribe × W → List Text × (Windscribe × W)
  unfolding load_servers
  locations sw = let (locs, sw') = load_servers sw in (names_of locs, sw')

  -- `Login`, whose result is whether there was an error.
  login : Windscribe × W → Bool × (Windscribe × W)
  unfolding get_credentials load_servers
  login sw =
      let (locs, (s, w)) = load_servers sw in
      elim (get_credentials m) [
        | none ↦ (true, sw)
        | some creds ↦ elim locs [
          | none ↦ (true, (s, w))
          | some ls ↦ (false, (record s { logged_in = true }, w))
        ]
      ]
