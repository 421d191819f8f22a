-- ===== src/Provider/Proton.antt =====
-- internal/provider/protonvpn/protonvpn.go: the plugin for ProtonVPN, its list of servers and the
-- names that it offers. The parse of the catalog, which has the entries that cmd/proton-updater
-- prints, is a parameter. A set of features is the sum of its bits.
pub mod Emitted
pub mod Config
pub mod Tunnel
use tundler.Base.{
  ℕ, ◌+◌, ◌/◌, ◌%◌, ◌≡◌, refl, Text, Bool, true, false, not, ◌&&◌, ◌||◌, ◌⊎◌, inl, inr, Option,
  none, some, List, [], ◌∷◌, ◌++◌, codes, text_eq, trim_space, split, ◌==◌, if◌then◌else◌,
}
use tundler.Base.Sorting.{sort_strings}
use tundler.Updater.{OutputServer}
use tundler.Provider.Machine.{Machine}
use tundler.Provider.OpenVpn.{lower, distinct, matching}

abbrev feature_secure_core : ℕ
feature_secure_core = 1

abbrev feature_tor : ℕ
feature_tor = 2

abbrev feature_p2p : ℕ
feature_p2p = 4

abbrev feature_stream : ℕ
feature_stream = 8

abbrev pub has_bit : ℕ → ℕ → Bool
has_bit b n = n / b % 2 == 1

-- `mask |= b`
abbrev set_bit : ℕ → ℕ → ℕ
set_bit b mask = if has_bit b mask then mask else mask + b

-- The mask with the features of a list of names.
pub add_features : ℕ → List Text → ℕ
add_features mask [] = mask
add_features mask (token ∷ tokens) =
    let t = trim_space token in
    let next =
      if text_eq t (codes "securecore")
        || text_eq t (codes "secure-core")
        || text_eq t (codes "secure_core")
      then set_bit feature_secure_core mask
      else if text_eq t (codes "tor")
      then set_bit feature_tor mask
      else if text_eq t (codes "p2p")
      then set_bit feature_p2p mask
      else if text_eq t (codes "stream")
      then set_bit feature_stream mask
      else mask in
    add_features next tokens

-- `requiredFeatureMask`; `raw` is the value of PROTON_FEATURE_FILTER.
unfoldable pub required_feature_mask : Text → ℕ
unfolding add_features
required_feature_mask raw =
    let names = lower (trim_space raw) in
    if text_eq names [] then 0 else add_features 0 (split 44 names)

-- `getProtocol`
unfoldable pub get_protocol : Text → Text
get_protocol value =
    let proto = lower value in
    if text_eq proto []
    then codes "udp"
    else if not (text_eq proto (codes "udp")) && not (text_eq proto (codes "tcp"))
    then codes "udp"
    else proto

-- `srv.Features&requiredMask == requiredMask`, for a mask of the four features.
abbrev pub has_features : ℕ → ℕ → Bool
has_features mask features =
    (not (has_bit 1 mask) || has_bit 1 features)
    && (not (has_bit 2 mask) || has_bit 2 features)
    && (not (has_bit 4 mask) || has_bit 4 features)
    && (not (has_bit 8 mask) || has_bit 8 features)

-- The guards of the loop of `fetchServers`.
abbrev pub keeps : ℕ → Text → OutputServer → Bool
keeps mask proto s =
    not (not (text_eq s.vpn (codes "openvpn")) || text_eq s.hostname [])
    && not (not (mask == 0) && not (has_features mask s.features))
    && not (text_eq proto (codes "udp") && not s.udp)
    && not (text_eq proto (codes "tcp") && not s.tcp)

-- The catalog's variables: whether it was fetched, and what was kept or the error.
pub record Catalog : Type 0 where
  pub ok : Bool
  pub servers : List OutputServer
  pub failed : Bool
  pub embedded : Option Text

abbrev pub kept : List OutputServer → Catalog → Catalog
kept [] c = record c { ok = true; failed = true }
kept (s ∷ ss) c = record c { ok = true; servers = s ∷ ss }

abbrev pub parsed : ℕ → Text → Option (List OutputServer) → Catalog → Catalog
parsed mask proto none c = record c { ok = true; failed = true }
parsed mask proto (some all) c = kept (matching (keeps mask proto) all) c

module _ {W : Type 0} (m : Machine W) (parse : Text → Option (List OutputServer)) where
  abbrev mask : ℕ
  mask = required_feature_mask (m.getenv (codes "PROTON_FEATURE_FILTER"))

  abbrev proto : Text
  proto = get_protocol (m.getenv (codes "PROTON_OPENVPN_PROTOCOL"))

  abbrev servers_file_path : Text
  servers_file_path =
      let p = m.getenv (codes "PROTON_SERVERS_FILE") in
      if text_eq p [] then codes "/etc/protonvpn/servers.json" else p

  -- `loadEmbeddedServersFromDisk`, whose result is the text that is then parsed.
  pub load_embedded_servers : Catalog × W → Option Text × (Catalog × W)
  load_embedded_servers (c, w) =
      let (file, w') = m.read_file servers_file_path w in
      elim c.embedded [
        | some text ↦ (some text, (c, w))
        | none ↦ elim file [
          | inl e ↦ (none, (c, w'))
          | inr text ↦ (some text, (record c { embedded = some text }, w'))
        ]
      ]

  -- The first fetch.
  pub fetch : Catalog × W → Catalog × W
  unfolding load_embedded_servers
  fetch cw =
      let (text, (c, w)) = load_embedded_servers cw in
      elim text [
        | none ↦ (record c { ok = true; failed = true }, w)
        | some t ↦ (parsed mask proto (parse t) c, w)
      ]

  -- `fetchServers`: the servers and whether there was an error, and the variables.
  pub fetch_servers : Catalog × W → (List OutputServer × Bool) × (Catalog × W)
  unfolding fetch
  fetch_servers (c, w) =
      let (c', w') = fetch (c, w) in
      if c.ok then ((c.servers, c.failed), (c, w)) else ((c'.servers, c'.failed), (c', w'))

  pub locations : Catalog × W → List Text × (Catalog × W)
  unfolding fetch_servers
  locations cw =
      let ((servers, failed), cw') = fetch_servers cw in
      if failed then ([], cw') else (sort_strings (distinct (λ s. s.country) [] servers), cw')

abbrev pub named : Text → OutputServer → Bool
named location s =
    let want = lower location in
    text_eq (lower s.country) want
    || text_eq (lower s.region) want
    || text_eq (lower s.city) want
    || text_eq (lower s.server_name) want
    || text_eq (lower s.hostname) want

pub find_servers : List OutputServer → Text → List OutputServer
find_servers servers location =
    if text_eq location [] then servers else matching (named location) servers
