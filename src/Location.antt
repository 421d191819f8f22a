-- ===== src/Location.antt =====
-- cmd/tundler-tunnel/location.go: the choice of a location, and the exclusions of the environment.
-- The map of excluded names is the list of its keys; only membership is read from it.
pub mod Choice
use tundler.Base.{
  ℕ, ◌<◌, ◌≡◌, refl, Text, Bool, Option, none, some, List, [], ◌∷◌, codes, text_eq, elem,
  trim_space, split, length, get_elem?, if◌then◌else◌,
}

-- The keys of `excludeSet`: trimmed, and not empty.
unfoldable pub exclude_set : List Text → List Text
exclude_set [] = []
exclude_set (e ∷ es) =
    let e' = trim_space e in if text_eq e' [] then exclude_set es else e' ∷ exclude_set es

-- The locations that are not blocked, in order.
unfoldable pub allowed_locations : List Text → List Text → List Text
allowed_locations blocked [] = []
allowed_locations blocked (loc ∷ locs) =
    if elem loc blocked
    then allowed_locations blocked locs
    else loc ∷ allowed_locations blocked locs

-- `pickLocation`; `none` is `errNoAllowedLocations`. `rand n` is the value of `rand.IntN(n)`.
unfoldable pub pick_location : (ℕ → ℕ) → List Text → List Text → Option Text
unfolding exclude_set allowed_locations
pick_location rand locations excluded =
    let allowed = allowed_locations (exclude_set excluded) locations in
    get_elem? allowed (rand (length allowed))

-- The fields of a CSV that are kept: trimmed, and not empty.
kept_fields : List Text → List Text
kept_fields [] = []
kept_fields (p ∷ ps) =
    let p' = trim_space p in if text_eq p' [] then kept_fields ps else p' ∷ kept_fields ps

-- `parseExcludedLocations`
parse_excluded_locations : Text → List Text
unfolding kept_fields
parse_excluded_locations csv = if text_eq csv [] then [] else kept_fields (split b',' csv)

parse_test :
    parse_excluded_locations (codes "Bahrain,,Yemen, ") ≡ codes "Bahrain" ∷ codes "Yemen" ∷ []
unfolding parse_excluded_locations split trim_space
parse_test = refl
