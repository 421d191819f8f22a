-- ===== src/Exec/Version.antt =====
-- internal/shared/version.go: the version number in the output of a client. The two regular
-- expressions are read as matchers, which try each place of the text in turn.
use tundler.Base.{
  ℕ, ◌≡◌, refl, Text, Bool, ◌||◌, ◌&&◌, Option, none, some, [], ◌∷◌, ◌++◌, codes, leb, to_lower,
  text_eq, ◌==◌, if◌then◌else◌,
}

infixl 5 ◌>>=◌
abbrev ◌>>=◌ : {A B : Type 0} → Option A → (A → Option B) → Option B
none >>= f = none
some a >>= f = f a

abbrev is_digit : ℕ → Bool
is_digit c = leb 48 c && leb c 57

-- `[0-9A-Za-z.-]`
abbrev is_tag : ℕ → Bool
is_tag c = is_digit c || (leb 97 (to_lower c) && leb (to_lower c) 122) || c == 46 || c == 45

-- The longest run of characters of a class, and the rest.
span : (ℕ → Bool) → Text → Text × Text
span p [] = ([], [])
span p (c ∷ s) = let (run, rest) = span p s in if p c then (c ∷ run, rest) else ([], c ∷ s)

-- A run of one character at least.
non_empty : Text × Text → Option (Text × Text)
non_empty ([], rest) = none
non_empty (c ∷ run, rest) = some (c ∷ run, rest)

-- `\d+`, and a point before one.
number : Text → Option (Text × Text)
unfolding span non_empty
number s = non_empty (span is_digit s)

point_number : Text → Option (Text × Text)
unfolding number
point_number [] = none
point_number (c ∷ s) =
    if c == 46
    then elim (number s) [ none ↦ none | some (run, rest) ↦ some (c ∷ run, rest) ]
    else none

-- A sign and a run of the characters of a tag, or nothing.
tagged : ℕ → Text → Text × Text
unfolding span non_empty
tagged sign [] = ([], [])
tagged sign (c ∷ s) = elim (non_empty (span is_tag s)) [
  | none ↦ ([], c ∷ s)
  | some (run, rest) ↦ if c == sign then (c ∷ run, rest) else ([], c ∷ s)
]

-- What `semverRE` and `shortVerRE` match at the start of a text.
semver_at : Text → Option Text
unfolding number point_number tagged
semver_at s = do
  (major, s₁) ← number s
  (minor, s₂) ← point_number s₁
  (patch, s₃) ← point_number s₂
  let (pre, s₄) = tagged 45 s₃
  some (major ++ minor ++ patch ++ pre ++ (tagged 43 s₄).0)

short_at : Text → Option Text
unfolding number point_number
short_at s = do (major, s₁) ← number s; (minor, s₂) ← point_number s₁; some (major ++ minor)

-- `FindString`: the first place where there is a match, or the empty text.
find_string : (Text → Option Text) → Text → Text
find_string at [] = []
find_string at (c ∷ s) =
    let later = find_string at s in elim (at (c ∷ s)) [ none ↦ later | some v ↦ v ]

-- `ExtractVersion`
pub extract_version : Text → Text
unfolding find_string semver_at short_at
extract_version s =
    let v = find_string semver_at s in if text_eq v [] then find_string short_at s else v

extract_version_test :
    (extract_version (codes "piactl 3.7.2-beta.1+0d build") ≡ codes "3.7.2-beta.1+0d")
    × (extract_version (codes "warp-cli 2025.7") ≡ codes "2025.7")
    × (extract_version (codes "no 2. version") ≡ [])
unfolding extract_version
extract_version_test = (refl, refl, refl)
