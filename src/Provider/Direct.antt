-- ===== src/Provider/Direct.antt =====
-- The shape that the plugins for CyberGhost, IPVanish and FastVPN share: variables with a list of
-- servers that is loaded once, a tunnel of `openvpn`, and the names of countries. Each plugin has a
-- copy of this code of its own, and is an instance of it here. The lines that the definitions of
-- this file name are those of internal/provider/ipvanish/ipvanish.go.
pub mod Outcome
pub mod Offers
use tundler.Base.{
  Text, Bool, true, false, not, ◌||◌, Option, none, some, List, [], ◌∷◌, ◌++◌, codes, text_eq,
  trim_space, split, if◌then◌else◌,
}
use tundler.Base.Sorting.{sort_strings}
use tundler.Exec.{first_ipv4}
use tundler.Exec.Version.{extract_version}
use tundler.Provider.{Status}
use tundler.Provider.Machine.{Machine, is_none, command}
use tundler.Provider.OpenVpn.{
  distinct, matching, is_open_vpn_connected, await_up, await_down, pick_random_server,
}

-- The variables of such a package.
pub record Direct (A : Type 0) : Type 0 where
  pub server_cache : List A
  pub active_server : Option A
  pub active_location : Text
  pub logged_in : Bool

-- The variables when the process starts.
abbrev pub fresh : {A : Type 0} → Direct A
fresh = record { server_cache = []; active_server = none; active_location = []; logged_in = false }

abbrev pub down : Text → Text → Status
down name location = record {
  connected = false;
  ip = [];
  location = location;
  region = [];
  provider = name;
}

-- `activeRegion`, of a country and a city.
abbrev pub region : Text → Text → Text
region country city = if text_eq city [] then country else country ++ codes " - " ++ city

-- `findServers`: the servers that a test picks, or all where the location is empty.
unfoldable pub find_with : {A : Type 0} → (Text → A → Bool) → List A → Text → List A
find_with matches servers location =
    if text_eq location [] then servers else matching (matches location) servers

-- The part of a plugin that is its own: its name, the country and the region of a server, the test
-- of `findServers`, and what it does of itself in `loadServers`, and in Connect before `openvpn` is
-- started (the credentials first, the files then) and after its tunnel has come up.
pub record Plugin (A C W : Type 0) : Type 0 where
  pub name : Text
  pub country : A → Text
  pub region_of : A → Text
  pub matches : Text → A → Bool
  pub read_servers : W → Option (List A) × W
  pub ready : W → Option C × W
  pub prepare : C → A → W → Bool × W
  pub openvpn_args : List Text
  pub on_up : W → W

-- What a list that was read leaves in the cache: an empty one is an error.
abbrev pub cache_list : {A : Type 0} → Option (List A) → Direct A → Option (List A) × Direct A
cache_list none s = (none, s)
cache_list (some []) s = (none, s)
cache_list (some (x ∷ xs)) s = (some (x ∷ xs), record s { server_cache = x ∷ xs })

abbrev first_line : List Text → Text
first_line [] = []
first_line (l ∷ ls) = l

module _ {W : Type 0} (m : Machine W) where
  -- Files that are written in order, up to the first error, and whether there was one.
  pub write_files : List (Text × Text) → W → Bool × W
  write_files [] w = (false, w)
  write_files ((path, text) ∷ files) w =
      let (err, w') = m.write_file path text w in
      let rest = write_files files w' in if is_none err then rest else (true, w')

  -- The arguments of `curl`, with the address that `getent` found.
  curl_args : Text → List Text
  curl_args resolve_ip =
      if text_eq resolve_ip []
      then codes "-s" ∷ codes "--max-time" ∷ codes "5" ∷ codes "https://icanhazip.com" ∷ []
      else codes "-s"
        ∷ codes "--max-time"
        ∷ codes "5"
        ∷ codes "--resolve"
        ∷ (codes "icanhazip.com:443:" ++ resolve_ip)
        ∷ codes "https://icanhazip.com"
        ∷ []

  -- `publicIP`
  unfoldable pub public_ip : W → Text × W
  unfolding curl_args
  public_ip w =
      let ((out, err), w₁) =
        command m (codes "getent") (codes "ahostsv4" ∷ codes "icanhazip.com" ∷ []) w in
      let ((out', err'), w₂) =
        command m (codes "curl") (curl_args (if is_none err then first_ipv4 out else [])) w₁ in
      (if is_none err' then trim_space out' else [], w₂)

  -- `Version`, whose error is none of the version's text.
  pub version : W → Option Text × W
  version w =
      let ((out, err), w') = command m (codes "openvpn") (codes "--version" ∷ []) w in
      let v = extract_version out in
      if is_none err
      then (some (if text_eq v [] then trim_space (first_line (split 10 out)) else v), w')
      else (none, w')

  module _ {A C : Type 0} (p : Plugin A C W) where
    unfoldable pub active_location : Direct A → Text
    active_location s = elim s.active_server [ none ↦ [] | some server ↦ s.active_location ]

    active_region : Direct A → Text
    active_region s = elim s.active_server [ none ↦ [] | some server ↦ p.region_of server ]

    -- `Status`
    unfoldable pub status : Direct A × W → Status × (Direct A × W)
    unfolding active_location active_region public_ip
    status (s, w) =
        let (up, w₁) = is_open_vpn_connected m w in
        let (ip, w₂) = public_ip w₁ in
        if up
        then (
          record {
            connected = true;
            ip = ip;
            location = active_location s;
            region = active_region s;
            provider = p.name;
          },
          (s, w₂),
        )
        else (down p.name [], (s, w₁))

    -- `loadServers`
    unfoldable pub load_servers : Direct A × W → Option (List A) × (Direct A × W)
    load_servers (s, w) =
        let (read, w') = p.read_servers w in
        elim s.server_cache [
          | ◌∷◌ x xs ↦ (some (x ∷ xs), (s, w))
          | [] ↦ let (r, s') = cache_list read s in (r, (s', w'))
        ]

    -- The start of `openvpn` and the wait for its tunnel.
    unfoldable pub dial : A → Text → Direct A × W → Status × (Direct A × W)
    unfolding status
    dial server location (s, w) =
        let ((out, err), w₁) = command m (codes "openvpn") p.openvpn_args w in
        let (up, w₂) = await_up m 60 w₁ in
        if not (is_none err)
        then (down p.name location, (s, w₁))
        else if up
        then status
            (record s { active_server = some server; active_location = location }, p.on_up w₂)
        else (down p.name location, (s, w₂))

    -- Connect, with the credentials and the servers that match.
    pub choose : C → List A → Text → Direct A × W → Status × (Direct A × W)
    unfolding dial
    choose creds found location (s, w) =
        let (picked, w₁) = pick_random_server m found w in
        elim picked [
          | none ↦ (down p.name location, (s, w₁))
          | some server ↦
              let (failed, w₂) = p.prepare creds server w₁ in
              if failed then (down p.name location, (s, w₂)) else dial server location (s, w₂)
        ]

    -- `Connect`
    pub connect : Text → Direct A × W → Status × (Direct A × W)
    unfolding load_servers choose
    connect location (s, w) =
        let (ready, w₁) = p.ready w in
        elim ready [
          | none ↦ (down p.name [], (s, w₁))
          | some creds ↦
              let (servers, sw) = load_servers (s, w₁) in
              elim servers [
                | none ↦ (down p.name [], sw)
                | some ss ↦ choose creds (find_with p.matches ss location) location sw
              ]
        ]

    -- `Disconnect`, whose error is none.
    pub disconnect : Direct A × W → Direct A × W
    disconnect (s, w) =
        let (r, w') = command m (codes "pkill") (codes "-SIGTERM" ∷ codes "openvpn" ∷ []) w in
        (record s { active_server = none; active_location = [] }, await_down m 20 w')

    abbrev pub names_of : Option (List A) → List Text
    names_of none = []
    names_of (some ss) = sort_strings (distinct p.country [] ss)

    -- `Locations`
    pub locations : Direct A × W → List Text × (Direct A × W)
    unfolding load_servers
    locations sw = let (servers, sw') = load_servers sw in (names_of servers, sw')

    -- `Login` after the credentials were found, whose result is whether there was an error.
    pub login : Direct A × W → Bool × (Direct A × W)
    unfolding load_servers
    login sw =
        let (servers, (s, w)) = load_servers sw in
        elim servers [
          | none ↦ (true, (s, w))
          | some ss ↦ (false, (record s { logged_in = true }, w))
        ]

  pub logout : {A : Type 0} → Direct A × W → Direct A × W
  logout (s, w) = (record s { logged_in = false }, w)
