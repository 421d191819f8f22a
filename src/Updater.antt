-- ===== src/Updater.antt =====
-- cmd/proton-updater/main.go and the catalog part of cmd/proton-updater/api.go: the job that turns
-- Proton's list of servers into the file that the plugin reads. Session.antt is the rest of both
-- files. A nil slice is an empty list.
pub mod Merge
pub mod Emit
pub mod Session
use tundler.Base.{
  ℕ, zero, suc, ◌+◌, ◌≡◌, refl, Text, Bool, true, false, not, ◌&&◌, ◌||◌, ◌⊎◌, inl, inr, Option,
  none, some, List, [], ◌∷◌, ◌++◌, codes, text_eq, trim_space, elem, length, ◌==◌, if◌then◌else◌,
}
use tundler.Base.Sorting.{text_leb, by_key, sort}

pub record PhysicalServer : Type 0 where
  pub id : Text
  pub domain : Text
  pub entry_ip : Text
  pub status : ℕ
  pub generation : ℕ

-- An absent tier is none; a feature set is its bits as a number.
pub record LogicalServer : Type 0 where
  pub name : Text
  pub entry_country : Text
  pub exit_country : Text
  pub country : Text
  pub region : Text
  pub city : Text
  pub tier : Option ℕ
  pub features : ℕ
  pub servers : List PhysicalServer
  pub status : ℕ

pub record OutputServer : Type 0 where
  pub vpn : Text
  pub country : Text
  pub region : Text
  pub city : Text
  pub server_name : Text
  pub hostname : Text
  pub tcp : Bool
  pub udp : Bool
  pub ips : List Text
  pub features : ℕ
  pub tier : ℕ

abbrev pub or_else : Text → Text → Text
or_else s t = if text_eq s [] then t else s

abbrev tier_of : Option ℕ → ℕ
tier_of none = 0
tier_of (some n) = n

-- The entry of one physical server of a logical one.
abbrev pub entry : LogicalServer → PhysicalServer → OutputServer
entry ls ps = record {
  vpn = codes "openvpn";
  country = or_else (trim_space ls.exit_country) (trim_space ls.country);
  region = trim_space ls.region;
  city = trim_space ls.city;
  server_name = trim_space ls.name;
  hostname = trim_space ps.domain;
  tcp = true;
  udp = true;
  ips = if text_eq (trim_space ps.entry_ip) [] then [] else trim_space ps.entry_ip ∷ [];
  features = ls.features;
  tier = tier_of ls.tier;
}

abbrev pub is_skipped : PhysicalServer → Bool
is_skipped ps =
    ps.status == 0 || (text_eq (trim_space ps.domain) [] && text_eq (trim_space ps.entry_ip) [])

-- The inner loop of `transform`.
unfoldable pub physical : LogicalServer → List PhysicalServer → List OutputServer
physical ls [] = []
physical ls (ps ∷ pss) =
    let rest = physical ls pss in if is_skipped ps then rest else entry ls ps ∷ rest

-- `transform`
unfoldable pub transform : List LogicalServer → List OutputServer
unfolding physical
transform [] = []
transform (ls ∷ lss) = physical ls ls.servers ++ transform lss

-- The order of the file: country, city, host name.
abbrev pub by_place : OutputServer → OutputServer → Bool
by_place = by_key (λ s. s.country) (by_key (λ s. s.city) (λ s t. text_leb s.hostname t.hostname))

-- `emitServers`: the list that is printed, or none where the job stops.
unfoldable pub emit_servers : List LogicalServer → Option (List OutputServer)
unfolding transform
emit_servers logicals = elim (transform logicals) [
  | [] ↦ none
  | ◌∷◌ s ss ↦ some (sort by_place (s ∷ ss))
]

-- `countCountries`
pub count_countries : List Text → List OutputServer → ℕ
count_countries seen [] = 0
count_countries seen (s ∷ ss) =
    let rest = count_countries (s.country ∷ seen) ss in
    let same = count_countries seen ss in if elem s.country seen then same else suc rest

-- The index that a name was given last, in the map of `mergeLogicals`.
pub index_of : Text → List (Text × ℕ) → Option ℕ
index_of name [] = none
index_of name ((n, i) ∷ seen) =
    let rest = index_of name seen in if text_eq name n then some i else rest

abbrev pub set_at : ℕ → LogicalServer → List LogicalServer → List LogicalServer
set_at i x [] = []
set_at zero x (y ∷ ys) = x ∷ ys
set_at (suc i) x (y ∷ ys) = y ∷ set_at i x ys

abbrev pub Merged : Type 0
Merged = List LogicalServer × List (Text × ℕ)

-- The two loops of `mergeLogicals`.
pub add_standard : List LogicalServer → Merged → Merged
add_standard [] o = o
add_standard (ls ∷ lss) (out, seen) =
    add_standard lss (out ++ (ls ∷ []), (ls.name, length out) ∷ seen)

pub place : LogicalServer → Merged → Merged
unfolding index_of
place ls (out, seen) = elim (index_of ls.name seen) [
  | none ↦ (out ++ (ls ∷ []), (ls.name, length out) ∷ seen)
  | some i ↦ (set_at i ls out, seen)
]

pub add_secure : List LogicalServer → Merged → Merged
unfolding place
add_secure [] o = o
add_secure (ls ∷ lss) o = add_secure lss (place ls o)

-- `mergeLogicals`
pub merge_logicals : List LogicalServer → List LogicalServer → List LogicalServer
unfolding add_standard add_secure
merge_logicals standard secure_core = (add_secure secure_core (add_standard standard ([], []))).0
