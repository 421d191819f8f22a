-- ===== src/Provider/FastVpn.antt =====
-- internal/provider/fastvpn/fastvpn.go: the plugin for FastVPN, a tunnel of `openvpn` inside one of
-- Cloudflare WARP. The reading of a directory and `filepath.Join` are parameters. Warp.antt is the
-- transport and the routing.
mod Countries
pub mod Warp
pub mod Names
pub mod Diverted
use tundler.Base.{
  ℕ, ◌⊎◌, inl, inr, Text, Bool, true, false, not, ◌&&◌, ◌||◌, Option, none, some, List, [], ◌∷◌,
  ◌++◌, codes, text_eq, has_prefix, has_suffix, trim_suffix, if◌then◌else◌,
}
use tundler.Provider.{Status}
use tundler.Provider.Machine.{Machine, is_none}
use tundler.Provider.OpenVpn.{lower, is_open_vpn_connected}
use tundler.Provider.OvpnFiles.{after_prefix, country_code, greedy, with_credentials}
use tundler.Provider.Direct.{Direct, Plugin, region}
use tundler.Provider.Direct as Shape
use tundler.Provider.FastVpn.Countries.{country_name}
use tundler.Provider.FastVpn.Warp.{
  warp_up, resolve_remotes, setup_nested_routing, teardown_nested_routing,
}

pub record FastvpnServer : Type 0 where
  pub country : Text
  pub cc : Text
  pub city : Text
  pub virtual : Bool
  pub filename : Text

-- `-UDP\.ovpn$`
udp_tail : Text → Option (Unit {0})
udp_tail s = if text_eq s (codes "-UDP.ovpn") then some tt else none

-- `parseFilename`: the country's code, the city, and whether it is virtual.
pub parse_filename : Text → Option (Text × Text × Bool)
unfolding udp_tail
parse_filename fname = elim (after_prefix (codes "NCVPN-") fname) [
  | none ↦ none
  | some s ↦ elim (country_code s) [
    | none ↦ none
    | some (cc, rest) ↦ elim (greedy udp_tail rest) [
      | none ↦ none
      | some (city, u) ↦
          if has_suffix city (codes " - Virtual")
          then some (cc, trim_suffix city (codes " - Virtual"), true)
          else some (cc, city, false)
    ]
  ]
]

abbrev or_code : Text → Option Text → Text
or_code cc none = cc
or_code cc (some country) = country

-- The servers of the entries of a directory: the name of each, and whether it is a directory.
servers_of : List (Text × Bool) → List FastvpnServer
unfolding parse_filename
servers_of [] = []
servers_of ((fname, is_dir) ∷ entries) =
    let rest = servers_of entries in
    if is_dir
      || not (has_prefix fname (codes "NCVPN-"))
      || not (has_suffix fname (codes "-UDP.ovpn"))
    then rest
    else elim (parse_filename fname) [
      | none ↦ rest
      | some (cc, city, virtual) ↦
          record {
            country = or_code cc (country_name cc);
            cc = cc;
            city = city;
            virtual = virtual;
            filename = fname;
          }
          ∷ rest
    ]

abbrev pub matches : Text → FastvpnServer → Bool
matches location s =
    text_eq (lower s.country) (lower location)
    || text_eq (lower s.cc) (lower location)
    || text_eq (lower s.city) (lower location)

abbrev parsed : Option (List (Text × Bool)) → Option (List FastvpnServer)
parsed none = none
parsed (some entries) = some (servers_of entries)

module _ {W : Type 0} (m : Machine W) where
  get_credentials : Option (Text × Text)
  get_credentials =
      let user = m.getenv (codes "FASTVPN_USERNAME") in
      let pass = m.getenv (codes "FASTVPN_PASSWORD") in
      if text_eq user [] || text_eq pass [] then none else some (user, pass)

  unfoldable pub config_dir : Text
  config_dir =
      let dir = m.getenv (codes "FASTVPN_CONFIG_DIR") in
      if text_eq dir [] then codes "/etc/fastvpn/configs" else dir

  -- The credentials, with the transport up.
  pub ready : W → Option (Text × Text) × W
  unfolding get_credentials
  ready w = elim get_credentials [
    | none ↦ (none, w)
    | some c ↦ let (failed, w') = warp_up m w in (if failed then none else some c, w')
  ]

module _ {W : Type 0} (m : Machine W) (join : Text → Text → Text)
    (read_dir : Text → W → Option (List (Text × Bool)) × W) where
  read_servers : W → Option (List FastvpnServer) × W
  unfolding servers_of config_dir
  read_servers w = let (entries, w') = read_dir (config_dir m) w in (parsed entries, w')

  -- `writeCredentials`
  unfoldable pub write_credentials : Text → Text → W → Bool × W
  unfolding config_dir
  write_credentials user pass w =
      let (err, w₁) = m.mkdir_all (config_dir m) w in
      let (err', w₂) =
        m.write_file (join (config_dir m) (codes "auth.txt"))
          (user ++ (10 ∷ []) ++ pass ++ (10 ∷ [])) w₁ in
      if is_none err then (not (is_none err'), w₂) else (true, w₁)

  -- `writeActiveConfig`
  unfoldable pub write_active_config : FastvpnServer → W → Bool × W
  unfolding config_dir
  write_active_config server w =
      let (file, w₁) = m.read_file (join (config_dir m) server.filename) w in
      elim file [
        | inl err ↦ (true, w₁)
        | inr raw ↦
            let rewritten = with_credentials (join (config_dir m) (codes "auth.txt")) raw in
            let (err, w₂) = m.write_file (join (config_dir m) (codes "active.ovpn")) rewritten w₁ in
            (not (is_none err), w₂)
      ]

  -- The routes to the remotes of the file.
  unfoldable pub route : W → Bool × W
  unfolding config_dir
  route w =
      let (remotes, w') = resolve_remotes m (join (config_dir m) (codes "active.ovpn")) w in
      elim remotes [ none ↦ (true, w') | some ips ↦ setup_nested_routing m ips w' ]

  unfoldable pub prepare : Text × Text → FastvpnServer → W → Bool × W
  unfolding write_credentials write_active_config route
  prepare (user, pass) server w =
      let (failed, w₁) = write_credentials user pass w in
      let (failed', w₂) = write_active_config server w₁ in
      let end = route w₂ in if failed then (true, w₁) else if failed' then (true, w₂) else end

  -- What Connect and the other operations do of themselves.
  pub plugin : Plugin FastvpnServer (Text × Text) W
  unfolding ready read_servers prepare config_dir
  plugin = record {
    name = codes "fastvpn";
    country = λ s. s.country;
    region_of = λ s. region s.country s.city;
    matches = matches;
    read_servers = read_servers;
    ready = ready m;
    prepare = prepare;
    openvpn_args =
        codes "--cd"
        ∷ config_dir m
        ∷ codes "--config"
        ∷ codes "active.ovpn"
        ∷ codes "--tun-mtu"
        ∷ codes "1200"
        ∷ codes "--mssfix"
        ∷ codes "1160"
        ∷ codes "--daemon"
        ∷ [];
    on_up = λ w.
        (m.write_file (codes "/etc/resolv.conf")
          (codes "nameserver 198.18.0.1\nnameserver 198.18.0.2\n") w).1;
  }

  load_servers : Direct FastvpnServer × W → Option (List FastvpnServer) × (Direct FastvpnServer × W)
  unfolding plugin
  load_servers = Shape.load_servers m plugin

  active_location : Direct FastvpnServer → Text
  unfolding plugin
  active_location = Shape.active_location m plugin

  pub connect : Text → Direct FastvpnServer × W → Status × (Direct FastvpnServer × W)
  unfolding plugin
  connect = Shape.connect m plugin

  connected : W → Bool × W
  connected = is_open_vpn_connected m

  -- `Disconnect`, which drops the rules of the routing.
  pub disconnect : Direct FastvpnServer × W → Direct FastvpnServer × W
  unfolding plugin
  disconnect sw = let (s, w) = Shape.disconnect m plugin sw in (s, teardown_nested_routing m w)

  locations : Direct FastvpnServer × W → List Text × (Direct FastvpnServer × W)
  unfolding plugin
  locations = Shape.locations m plugin

  status : Direct FastvpnServer × W → Status × (Direct FastvpnServer × W)
  unfolding plugin
  status = Shape.status m plugin

  -- `Login`, whose result is whether there was an error. The transport is brought up, and no more is
  -- made of it.
  login : Direct FastvpnServer × W → Bool × (Direct FastvpnServer × W)
  unfolding plugin get_credentials load_servers
  login sw =
      let (servers, (s, w)) = load_servers sw in
      elim (get_credentials m) [
        | none ↦ (true, sw)
        | some c ↦ elim servers [
          | none ↦ (true, (s, w))
          | some ss ↦ let (failed, w') = warp_up m w in (false, (record s { logged_in = true }, w'))
        ]
      ]

  public_ip : W → Text × W
  public_ip = Shape.public_ip m

  logout : Direct FastvpnServer × W → Direct FastvpnServer × W
  logout = Shape.logout m

  version : W → Option Text × W
  version = Shape.version m
