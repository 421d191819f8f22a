-- ===== src/Provider/VeePn.antt =====
-- internal/provider/veepn/veepn.go: the plugin for VeePN, whose servers are the files of a directory,
-- with credentials of its own for each pod. The reading of a directory and `filepath.Join` are
-- parameters.
pub mod Told
use tundler.Base.{
  ℕ, ◌⊎◌, inl, inr, Text, Bool, true, false, not, ◌&&◌, ◌||◌, Option, none, some, List, [], ◌∷◌,
  ◌++◌, codes, text_eq, elem, trim_space, split, leb, ◌-◌, map, if◌then◌else◌,
}
use tundler.Base.Decimal.{decimal}
use tundler.Base.Sorting.{sort_strings}
use tundler.Provider.{Status}
use tundler.Provider.Machine.{Machine, is_none, command}
use tundler.Provider.OpenVpn.{lower, is_open_vpn_connected, await_up, await_down}
use tundler.Provider.OvpnFiles.{greedy, with_credentials}
use tundler.Provider.Pods.{pod_ordinal_or_zero}
use tundler.Provider.Direct.{Direct, cache_list, down}

abbrev name : Text
name = codes "veepn"

pub record VeepnServer : Type 0 where
  pub location : Text
  pub proto : Text
  pub filename : Text

-- `\.(udp|tcp)\.veepn\.com\.ovpn$`
proto_tail : Text → Option Text
proto_tail s =
    if text_eq s (codes ".udp.veepn.com.ovpn")
    then some (codes "udp")
    else if text_eq s (codes ".tcp.veepn.com.ovpn")
    then some (codes "tcp")
    else none

-- The servers of the entries of a directory: the name of each, and whether it is a directory.
servers_of : List (Text × Bool) → List VeepnServer
unfolding proto_tail
servers_of [] = []
servers_of ((filename, is_dir) ∷ entries) =
    let rest = servers_of entries in
    if is_dir then rest else elim (greedy proto_tail filename) [
      | none ↦ rest
      | some (location, proto) ↦
          record { location = location; proto = proto; filename = filename } ∷ rest
    ]

-- The last server of a location with a protocol that a test picks, after what was found before.
last_with : (Text → Bool) → Text → List VeepnServer → Option VeepnServer → Option VeepnServer
last_with test want [] found = found
last_with test want (s ∷ ss) found =
    last_with test want ss
      (if text_eq (lower s.location) want && test s.proto then some s else found)

abbrev or_else : Option VeepnServer → Option VeepnServer → Option VeepnServer
or_else none b = b
or_else (some s) b = some s

-- `pickServer`
pick_server : List VeepnServer → Text → Option VeepnServer
unfolding last_with
pick_server servers location =
    let want = lower (trim_space location) in
    or_else (last_with (λ p. text_eq p (codes "udp")) want servers none)
      (last_with (λ p. not (text_eq p (codes "udp"))) want servers none)

-- The locations, each once.
each_location : List Text → List VeepnServer → List Text
each_location seen [] = []
each_location seen (s ∷ ss) =
    let rest = each_location seen ss in
    let more = each_location (s.location ∷ seen) ss in
    if elem s.location seen then rest else s.location ∷ more

-- `strings.ToUpper`
upper : Text → Text
upper s = map (λ c. if leb 97 c && leb c 122 then c - 32 else c) s

abbrev parsed : Option (List (Text × Bool)) → Option (List VeepnServer)
parsed none = none
parsed (some entries) = some (servers_of entries)

active_location : Direct VeepnServer → Text
active_location s = s.active_location

-- `Status`, which asks nothing of the machine.
pub status : Direct VeepnServer → Status
unfolding upper
status s = elim s.active_server [
  | none ↦ down name []
  | some server ↦ record {
    connected = true;
    ip = [];
    location = s.active_location;
    region = upper s.active_location;
    provider = name;
  }
]

module _ {W : Type 0} (m : Machine W) where
  config_dir : Text
  config_dir =
      let dir = m.getenv (codes "VEEPN_CONFIG_DIR") in
      if text_eq dir [] then codes "/etc/veepn/configs" else dir

  get_credentials : Option (Text × Text)
  get_credentials =
      let ord = decimal (pod_ordinal_or_zero (m.getenv (codes "POD_NAME"))) in
      let prefix = codes "POD_" ++ ord ++ codes "_VEEPN_" in
      let user = trim_space (m.getenv (prefix ++ codes "USERNAME")) in
      let pass = trim_space (m.getenv (prefix ++ codes "PASSWORD")) in
      if text_eq user [] || text_eq pass [] then none else some (user, pass)

  connected : W → Bool × W
  connected = is_open_vpn_connected m

  -- `pkill -SIGTERM openvpn`
  kill : W → W
  kill w = (command m (codes "pkill") (codes "-SIGTERM" ∷ codes "openvpn" ∷ []) w).1

  -- The start of `openvpn` and the wait for its tunnel, of which one that does not come is killed:
  -- whether it is up.
  dial : W → Bool × W
  unfolding config_dir kill
  dial w =
      let ((out, err), w₁) =
        command m (codes "openvpn")
          (codes "--cd"
            ∷ config_dir
            ∷ codes "--config"
            ∷ codes "active.ovpn"
            ∷ codes "--daemon"
            ∷ [])
          w in
      let (up, w₂) = await_up m 60 w₁ in
      if not (is_none err) then (false, w₁) else if up then (true, w₂) else (false, kill w₂)

  -- `Disconnect`, whose error is none.
  disconnect : Direct VeepnServer × W → Direct VeepnServer × W
  unfolding kill
  disconnect (s, w) =
      (record s { active_server = none; active_location = [] }, await_down m 20 (kill w))

  logout : Direct VeepnServer × W → Direct VeepnServer × W
  logout (s, w) = (record s { logged_in = false }, w)

  abbrev first_line : List Text → Text
  first_line [] = []
  first_line (l ∷ ls) = l

  -- `Version`, whose error is none of the version's text.
  version : W → Option Text × W
  version w =
      let ((out, err), w') = command m (codes "openvpn") (codes "--version" ∷ []) w in
      if not (is_none err) && text_eq out []
      then (none, w')
      else (some (trim_space (first_line (split 10 out))), w')

module _ {W : Type 0} (m : Machine W) (join : Text → Text → Text)
    (read_dir : Text → W → Option (List (Text × Bool)) × W) where
  -- `loadServers`
  load_servers : Direct VeepnServer × W → Option (List VeepnServer) × (Direct VeepnServer × W)
  unfolding servers_of config_dir
  load_servers (s, w) =
      let (entries, w') = read_dir (config_dir m) w in
      elim s.server_cache [
        | ◌∷◌ x xs ↦ (some (x ∷ xs), (s, w))
        | [] ↦ let (r, s') = cache_list (parsed entries) s in (r, (s', w'))
      ]

  -- `writeCredentials`
  write_credentials : Text → Text → W → Bool × W
  unfolding config_dir
  write_credentials user pass w =
      let (err, w₁) = m.mkdir_all (config_dir m) w in
      let (err', w₂) =
        m.write_file (join (config_dir m) (codes "auth.txt"))
          (user ++ (10 ∷ []) ++ pass ++ (10 ∷ [])) w₁ in
      if is_none err then (not (is_none err'), w₂) else (true, w₁)

  -- `writeActiveConfig`
  write_active_config : VeepnServer → W → Bool × W
  unfolding config_dir
  write_active_config server w =
      let (file, w₁) = m.read_file (join (config_dir m) server.filename) w in
      elim file [
        | inl err ↦ (true, w₁)
        | inr raw ↦
            let rewritten = with_credentials (join (config_dir m) (codes "auth.txt")) raw in
            let (err, w₂) = m.write_file (join (config_dir m) (codes "active.ovpn")) rewritten w₁ in
            (not (is_none err), w₂)
      ]

  -- Connect, with a server: whether the tunnel is up.
  attempt : Text × Text → VeepnServer → W → Bool × W
  unfolding write_credentials write_active_config dial
  attempt (user, pass) server w =
      let (failed, w₁) = write_credentials user pass w in
      let (failed', w₂) = write_active_config server w₁ in
      let end = dial m w₂ in if failed then (false, w₁) else if failed' then (false, w₂) else end

  connect_to :
      Text × Text → VeepnServer → Text → Direct VeepnServer × W → Status × (Direct VeepnServer × W)
  unfolding attempt
  connect_to creds server location (s, w) =
      let (up, w') = attempt creds server w in
      let s' = record s { active_server = some server; active_location = location } in
      if up then (status s', (s', w')) else (down name location, (s, w'))

  pub connect : Text → Direct VeepnServer × W → Status × (Direct VeepnServer × W)
  unfolding get_credentials load_servers pick_server connect_to
  connect location (s, w) = elim (get_credentials m) [
    | none ↦ (down name [], (s, w))
    | some creds ↦
        let (servers, sw) = load_servers (s, w) in
        elim servers [
          | none ↦ (down name [], sw)
          | some ss ↦ elim (pick_server ss location) [
            | none ↦ (down name location, sw)
            | some server ↦ connect_to creds server location sw
          ]
        ]
  ]

  abbrev names_of : Option (List VeepnServer) → List Text
  names_of none = []
  names_of (some ss) = sort_strings (each_location [] ss)

  locations : Direct VeepnServer × W → List Text × (Direct VeepnServer × W)
  unfolding load_servers each_location
  locations sw = let (servers, sw') = load_servers sw in (names_of servers, sw')

  -- `Login`, whose result is whether there was an error.
  login : Direct VeepnServer × W → Bool × (Direct VeepnServer × W)
  unfolding get_credentials load_servers
  login sw =
      let (servers, (s, w)) = load_servers sw in
      elim (get_credentials m) [
        | none ↦ (true, sw)
        | some creds ↦ elim servers [
          | none ↦ (true, (s, w))
          | some ss ↦ (false, (record s { logged_in = true }, w))
        ]
      ]
