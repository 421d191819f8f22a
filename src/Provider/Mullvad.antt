-- ===== src/Provider/Mullvad.antt =====
-- internal/provider/mullvad/mullvad.go: the plugin for Mullvad. The parse of the list of relays is a
-- parameter.
pub mod Restarts
use tundler.Base.{
  ◌⊎◌, inl, inr, Text, Bool, true, false, not, ◌||◌, Option, none, some, List, [], ◌∷◌, ◌++◌, codes,
  text_eq, trim_space, join_lines, length, if◌then◌else◌,
}
use tundler.Base.Decimal.{decimal}
use tundler.Provider.{Status}
use tundler.Provider.Machine.{Machine}
use tundler.Provider.OpenVpn.{lower, distinct, pick_random_server}
use tundler.Provider.Pods.{pod_ordinal_or_zero}
use tundler.Provider.Direct.{Direct, cache_list, down, find_with, region}
use tundler.Provider.WireGuard.{start, take_down, is_wire_guard_connected, exit_ip}

abbrev name : Text
name = codes "mullvad"

abbrev relays_file : Text
relays_file = codes "/etc/mullvad/relays.json"

abbrev wg_config_path : Text
wg_config_path = codes "/etc/mullvad/wireguard/wg0.conf"

pub record Relay : Type 0 where
  pub hostname : Text
  pub location : Text
  pub country : Text
  pub city : Text
  pub ipv4_addr_in : Text
  pub public_key : Text

-- A relay of the file.
pub record ListedRelay : Type 0 where
  pub hostname : Text
  pub active : Bool
  pub location : Text
  pub ipv4_addr_in : Text
  pub public_key : Text

-- The file: the country and the city of each location, and the relays.
pub record RelaysResponse : Type 0 where
  pub places : List (Text × (Text × Text))
  pub relays : List ListedRelay

-- The value of a key of a map, or the empty one.
place_of : Text → List (Text × (Text × Text)) → Text × Text
place_of key [] = ([], [])
place_of key ((k, v) ∷ kvs) = if text_eq key k then v else place_of key kvs

-- The relays that are active and have an address and a key.
unfoldable pub usable : List (Text × (Text × Text)) → List ListedRelay → List Relay
unfolding place_of
usable places [] = []
usable places (r ∷ rs) =
    let rest = usable places rs in
    let (country, city) = place_of r.location places in
    if not r.active || text_eq r.ipv4_addr_in [] || text_eq r.public_key []
    then rest
    else record {
      hostname = r.hostname;
      location = r.location;
      country = country;
      city = city;
      ipv4_addr_in = r.ipv4_addr_in;
      public_key = r.public_key;
    }
      ∷ rest

-- The test of `findRelays`.
abbrev pub matches : Text → Relay → Bool
matches location r =
    text_eq (lower r.country) (lower location)
    || text_eq (lower r.location) (lower location)
    || text_eq (lower r.city) (lower location)

-- The file of the tunnel.
wire_guard_config : Text → Text → Relay → Text
wire_guard_config priv_key address server = join_lines (
    codes "[Interface]"
    ∷ (codes "PrivateKey = " ++ priv_key)
    ∷ (codes "Address = " ++ address)
    ∷ codes "DNS = 10.64.0.1"
    ∷ []
    ∷ codes "[Peer]"
    ∷ (codes "PublicKey = " ++ server.public_key)
    ∷ codes "AllowedIPs = 0.0.0.0/0"
    ∷ (codes "Endpoint = " ++ server.ipv4_addr_in ++ codes ":51820")
    ∷ codes "PersistentKeepalive = 25"
    ∷ []
    ∷ [])

module _ {W : Type 0} (m : Machine W) (parse : Text → Option RelaysResponse) where
  -- `wgIdentity`
  wg_identity : Option (Text × Text)
  wg_identity =
      let ord = decimal (pod_ordinal_or_zero (m.getenv (codes "POD_NAME"))) in
      let prefix = codes "POD_" ++ ord ++ codes "_MULLVAD_" in
      let priv_key = trim_space (m.getenv (prefix ++ codes "PRIVATE_KEY")) in
      let address = trim_space (m.getenv (prefix ++ codes "ADDRESS")) in
      if text_eq priv_key [] || text_eq address [] then none else some (priv_key, address)

  abbrev parsed : Text ⊎ Text → Option (List Relay)
  parsed (inl err) = none
  parsed (inr data_) = elim (parse data_) [ none ↦ none | some r ↦ some (usable r.places r.relays) ]

  -- `loadRelays`
  load_relays : Direct Relay × W → Option (List Relay) × (Direct Relay × W)
  load_relays (s, w) =
      let (file, w') = m.read_file relays_file w in
      elim s.server_cache [
        | ◌∷◌ x xs ↦ (some (x ∷ xs), (s, w))
        | [] ↦ let (r, s') = cache_list (parsed file) s in (r, (s', w'))
      ]

  active_location : Direct Relay → Text
  active_location s = elim s.active_server [ none ↦ [] | some relay ↦ s.active_location ]

  active_region : Direct Relay → Text
  active_region s = elim s.active_server [
    | none ↦ []
    | some relay ↦ region relay.country relay.city
  ]

  connected : W → Bool × W
  connected = is_wire_guard_connected m

  pub status : Direct Relay × W → Status × (Direct Relay × W)
  unfolding active_location active_region
  status (s, w) =
      let (up, w₁) = is_wire_guard_connected m w in
      let (ip, w₂) = exit_ip m (codes "5") w₁ in
      if up
      then (
        record {
          connected = true;
          ip = ip;
          location = active_location s;
          region = active_region s;
          provider = name;
        },
        (s, w₂),
      )
      else (down name [], (s, w₁))

  -- Connect, with a relay.
  dial : Text × Text → Relay → Text → Direct Relay × W → Status × (Direct Relay × W)
  unfolding status wire_guard_config
  dial (priv_key, address) server location (s, w) =
      let (failed, w') = start m wg_config_path (wire_guard_config priv_key address server) w in
      if failed
      then (down name location, (s, w'))
      else status (record s { active_server = some server; active_location = location }, w')

  choose : Text × Text → List Relay → Text → Direct Relay × W → Status × (Direct Relay × W)
  unfolding dial
  choose identity found location (s, w) =
      let (picked, w') = pick_random_server m found w in
      elim picked [
        | none ↦ (down name location, (s, w'))
        | some server ↦ dial identity server location (s, w')
      ]

  pub connect : Text → Direct Relay × W → Status × (Direct Relay × W)
  unfolding wg_identity load_relays choose
  connect location (s, w) = elim wg_identity [
    | none ↦ (down name [], (s, w))
    | some identity ↦
        let (relays, sw) = load_relays (s, w) in
        elim relays [
          | none ↦ (down name [], sw)
          | some rs ↦ choose identity (find_with matches rs location) location sw
        ]
  ]

  -- `Disconnect`, whose error is none.
  pub disconnect : Direct Relay × W → Direct Relay × W
  disconnect (s, w) =
      (record s { active_server = none; active_location = [] }, take_down m wg_config_path w)

  abbrev names_of : Option (List Relay) → List Text
  names_of none = []
  names_of (some rs) = distinct (λ r. r.country) [] rs

  locations : Direct Relay × W → List Text × (Direct Relay × W)
  unfolding load_relays
  locations sw = let (relays, sw') = load_relays sw in (names_of relays, sw')

  -- `Login`, whose result is whether there was an error.
  login : Direct Relay × W → Bool × (Direct Relay × W)
  unfolding wg_identity
  login (s, w) = elim wg_identity [
    | none ↦ (true, (s, w))
    | some identity ↦ (false, (record s { logged_in = true }, w))
  ]

  logout : Direct Relay × W → Direct Relay × W
  logout (s, w) = (record s { logged_in = false }, w)

  abbrev count_of : Option (List Relay) → Option Text
  count_of none = none
  count_of (some rs) = some (codes "wireguard (" ++ decimal (length rs) ++ codes " relays)")

  version : Direct Relay × W → Option Text × (Direct Relay × W)
  unfolding load_relays
  version sw = let (relays, sw') = load_relays sw in (count_of relays, sw')
