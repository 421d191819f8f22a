-- ===== src/Provider/IpVanish.antt =====
-- internal/provider/ipvanish/ipvanish.go: the plugin for IPVanish, whose servers are the files of a
-- directory. The reading of a directory and `filepath.Join` are parameters.
mod Countries
use tundler.Base.{
  ℕ, ◌⊎◌, inl, inr, Text, Bool, true, false, not, ◌&&◌, ◌||◌, Option, none, some, List, [], ◌∷◌,
  ◌++◌, codes, text_eq, map, split, join_lines, has_prefix, has_suffix, trim_suffix, leb, ◌==◌,
  if◌then◌else◌,
}
use tundler.Base.Decimal.{is_digit, all_digits}
use tundler.Provider.{Status}
use tundler.Provider.Machine.{Machine, is_none}
use tundler.Provider.OpenVpn.{lower, is_open_vpn_connected}
use tundler.Provider.OvpnFiles.{after_prefix, country_code, greedy, with_credentials}
use tundler.Provider.Direct.{Direct, Plugin, region}
use tundler.Provider.Direct as Shape
use tundler.Provider.IpVanish.Countries.{country_name}

pub record IpvanishServer : Type 0 where
  pub country : Text
  pub cc : Text
  pub city : Text
  pub hostname : Text
  pub virtual : Bool
  pub filename : Text

abbrev is_lower : ℕ → Bool
is_lower c = leb b'a' c && leb c b'z'

-- `([abc]\d+)\.ovpn$`, without the end that is fixed.
host_suffix : Text → Option Text
host_suffix [] = none
host_suffix (c ∷ s) =
    let digits = trim_suffix s (codes ".ovpn") in
    if leb b'a' c
      && leb c b'c'
      && has_suffix s (codes ".ovpn")
      && not (text_eq digits [])
      && all_digits digits
    then some (c ∷ digits)
    else none

-- `-([a-z]{3})-([abc]\d+)\.ovpn$`
host_tail : Text → Option (Text × Text)
unfolding host_suffix
host_tail (d ∷ a ∷ b ∷ c ∷ e ∷ s) =
    if d == b'-' && is_lower a && is_lower b && is_lower c && e == b'-'
    then elim (host_suffix s) [ none ↦ none | some x ↦ some (a ∷ b ∷ c ∷ [], x) ]
    else none
host_tail s = none

abbrev or_code : Text → Option Text → Text
or_code cc none = cc
or_code cc (some country) = country

-- `strings.ReplaceAll(city, "-", " ")`
spaced : Text → Text
spaced city = map (λ c. if c == b'-' then 32 else c) city

-- The server of the groups that the regular expression matched.
server_of : Text → Text → Text → Text → Text → IpvanishServer
unfolding spaced
server_of filename cc city host_prefix host_suffix =
    let virtual = has_suffix city (codes "---Virtual") in
    record {
      country = or_code cc (country_name cc);
      cc = cc;
      city = spaced (if virtual then trim_suffix city (codes "---Virtual") else city);
      hostname = host_prefix ++ codes "-" ++ host_suffix ++ codes ".ipvanish.com";
      virtual = virtual;
      filename = filename;
    }

-- `parseFilename`
pub parse_filename : Text → Option IpvanishServer
unfolding host_tail server_of
parse_filename filename = elim (after_prefix (codes "ipvanish-") filename) [
  | none ↦ none
  | some s ↦ elim (country_code s) [
    | none ↦ none
    | some (cc, rest) ↦ elim (greedy host_tail rest) [
      | none ↦ none
      | some (city, (p, x)) ↦ some (server_of filename cc city p x)
    ]
  ]
]

-- The servers of the entries of a directory: the name of each, and whether it is a directory.
servers_of : List (Text × Bool) → List IpvanishServer
unfolding parse_filename
servers_of [] = []
servers_of ((filename, is_dir) ∷ entries) =
    let rest = servers_of entries in
    if is_dir
      || not (has_prefix filename (codes "ipvanish-"))
      || not (has_suffix filename (codes ".ovpn"))
    then rest
    else elim (parse_filename filename) [ none ↦ rest | some server ↦ server ∷ rest ]

abbrev pub matches : Text → IpvanishServer → Bool
matches location s =
    text_eq (lower s.country) (lower location)
    || text_eq (lower s.cc) (lower location)
    || text_eq (lower s.city) (lower location)

abbrev is_word : ℕ → Bool
is_word c = is_digit c || leb 65 c && leb c 90 || is_lower c || c == b'_'

abbrev starts_word : Text → Bool
starts_word [] = false
starts_word (c ∷ s) = is_word c

-- `^(keysize|comp-lzo|cipher|tls-cipher)\b`
directive : Text → Text → Bool
directive word line = elim (after_prefix word line) [
  | none ↦ false
  | some rest ↦ not (starts_word rest)
]

is_deprecated : Text → Bool
unfolding directive
is_deprecated line =
    directive (codes "keysize") line
    || directive (codes "comp-lzo") line
    || directive (codes "cipher") line
    || directive (codes "tls-cipher") line

-- `deprecatedDirectivesRe.ReplaceAllString` with the empty text: each match is a line.
without_deprecated : Text → Text
unfolding is_deprecated
without_deprecated raw =
    join_lines (map (λ line. if is_deprecated line then [] else line) (split 10 raw))

abbrev parsed : Option (List (Text × Bool)) → Option (List IpvanishServer)
parsed none = none
parsed (some entries) = some (servers_of entries)

module _ {W : Type 0} (m : Machine W) where
  get_credentials : Option (Text × Text)
  get_credentials =
      let user = m.getenv (codes "IPVANISH_USERNAME") in
      let pass = m.getenv (codes "IPVANISH_PASSWORD") in
      if text_eq user [] || text_eq pass [] then none else some (user, pass)

  config_dir : Text
  config_dir =
      let dir = m.getenv (codes "IPVANISH_CONFIG_DIR") in
      if text_eq dir [] then codes "/etc/ipvanish/openvpn" else dir

module _ {W : Type 0} (m : Machine W) (join : Text → Text → Text)
    (read_dir : Text → W → Option (List (Text × Bool)) × W) where
  read_servers : W → Option (List IpvanishServer) × W
  unfolding servers_of config_dir
  read_servers w = let (entries, w') = read_dir (config_dir m) w in (parsed entries, w')

  -- `writeCredentials`
  write_credentials : Text → Text → W → Bool × W
  unfolding config_dir
  write_credentials user pass w =
      let (err, w₁) = m.mkdir_all (config_dir m) w in
      let (err', w₂) =
        m.write_file (join (config_dir m) (codes "auth.txt"))
          (user ++ (10 ∷ []) ++ pass ++ (10 ∷ [])) w₁ in
      if is_none err then (not (is_none err'), w₂) else (true, w₁)

  -- `writeActiveConfig`
  write_active_config : IpvanishServer → W → Bool × W
  unfolding config_dir without_deprecated
  write_active_config server w =
      let (file, w₁) = m.read_file (join (config_dir m) server.filename) w in
      elim file [
        | inl err ↦ (true, w₁)
        | inr raw ↦
            let rewritten =
              without_deprecated (with_credentials (join (config_dir m) (codes "auth.txt")) raw) in
            let (err, w₂) = m.write_file (join (config_dir m) (codes "active.ovpn")) rewritten w₁ in
            (not (is_none err), w₂)
      ]

  prepare : Text × Text → IpvanishServer → W → Bool × W
  unfolding write_credentials write_active_config
  prepare (user, pass) server w =
      let (failed, w') = write_credentials user pass w in
      let end = write_active_config server w' in if failed then (true, w') else end

  -- What Connect and the other operations do of themselves.
  pub plugin : Plugin IpvanishServer (Text × Text) W
  unfolding get_credentials read_servers prepare config_dir
  plugin = record {
    name = codes "ipvanish";
    country = λ s. s.country;
    region_of = λ s. region s.country s.city;
    matches = matches;
    read_servers = read_servers;
    ready = λ w. (get_credentials m, w);
    prepare = prepare;
    openvpn_args =
        codes "--cd"
        ∷ config_dir m
        ∷ codes "--config"
        ∷ codes "active.ovpn"
        ∷ codes "--tun-mtu"
        ∷ codes "1320"
        ∷ codes "--mssfix"
        ∷ codes "1280"
        ∷ codes "--daemon"
        ∷ [];
    on_up = λ w. w;
  }

  load_servers :
      Direct IpvanishServer × W → Option (List IpvanishServer) × (Direct IpvanishServer × W)
  unfolding plugin
  load_servers = Shape.load_servers m plugin

  active_location : Direct IpvanishServer → Text
  unfolding plugin
  active_location = Shape.active_location m plugin

  connect : Text → Direct IpvanishServer × W → Status × (Direct IpvanishServer × W)
  unfolding plugin
  connect = Shape.connect m plugin

  connected : W → Bool × W
  connected = is_open_vpn_connected m

  disconnect : Direct IpvanishServer × W → Direct IpvanishServer × W
  unfolding plugin
  disconnect = Shape.disconnect m plugin

  locations : Direct IpvanishServer × W → List Text × (Direct IpvanishServer × W)
  unfolding plugin
  locations = Shape.locations m plugin

  status : Direct IpvanishServer × W → Status × (Direct IpvanishServer × W)
  unfolding plugin
  status = Shape.status m plugin

  -- `Login`, whose result is whether there was an error.
  login : Direct IpvanishServer × W → Bool × (Direct IpvanishServer × W)
  unfolding plugin get_credentials
  login sw = elim (get_credentials m) [ none ↦ (true, sw) | some c ↦ Shape.login m plugin sw ]

  public_ip : W → Text × W
  public_ip = Shape.public_ip m

  logout : Direct IpvanishServer × W → Direct IpvanishServer × W
  logout = Shape.logout m

  version : W → Option Text × W
  version = Shape.version m
