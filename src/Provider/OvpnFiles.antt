-- ===== src/Provider/OvpnFiles.antt =====
-- The `.ovpn` files of the plugins for IPVanish and FastVPN: the regular expressions that read their
-- names and rewrite their text, as matchers. What Go's `\s` matches is white space but the vertical
-- tab.
pub mod Greedy
use tundler.Base.{
  ◌≡◌, refl, ℕ, zero, suc, ◌-◌, Text, Bool, true, false, not, ◌&&◌, ◌||◌, Option, none, some, List,
  [], ◌∷◌, ◌++◌, codes, text_eq, has_prefix, leb, length, ◌==◌, if◌then◌else◌,
}

-- What is left of a text after a prefix.
unfoldable pub after_prefix : Text → Text → Option Text
after_prefix [] s = some s
after_prefix (a ∷ pre) [] = none
after_prefix (a ∷ pre) (c ∷ s) = if a == c then after_prefix pre s else none

abbrev pub is_upper : ℕ → Bool
is_upper c = leb 65 c && leb c 90

-- `([A-Z]{2})-`, and the rest.
unfoldable pub country_code : Text → Option (Text × Text)
country_code (a ∷ b ∷ c ∷ s) =
    if is_upper a && is_upper b && c == b'-' then some (a ∷ b ∷ [], s) else none
country_code s = none

abbrev first_char : {B : Type 0} → ℕ → Option B → Option (Text × B)
first_char c none = none
first_char c (some b) = some (c ∷ [], b)

abbrev grown : {B : Type 0} → ℕ → Option (Text × B) → Option B → Option (Text × B)
grown c none here = first_char c here
grown c (some (t, b)) here = some (c ∷ t, b)

-- `(.+)` before what another matcher reads: as much as possible, and no line feed.
unfoldable pub greedy : {B : Type 0} → (Text → Option B) → Text → Option (Text × B)
greedy tail [] = none
greedy tail (c ∷ s) = if c == 10 then none else grown c (greedy tail s) (tail s)

-- `\s`
abbrev is_white : ℕ → Bool
is_white c = c == 9 || c == 10 || c == 12 || c == 13 || c == 32

-- `\s*$` with `(?m)`: what is left after the longest match.
blank_end : Text → Option Text
blank_end [] = some []
blank_end (c ∷ s) =
    let deeper = if is_white c then blank_end s else none in
    elim deeper [ some rest ↦ some rest | none ↦ if c == 10 then some (c ∷ s) else none ]

-- `(?m)^auth-user-pass\s*$` at a place: what is left after the match.
auth_user_pass_at : Bool → Text → Option Text
unfolding blank_end
auth_user_pass_at line_start s =
    if line_start
    then elim (after_prefix (codes "auth-user-pass") s) [ none ↦ none | some rest ↦ blank_end rest ]
    else none

-- The replacement in the rest of a text, of which so many characters are part of a match.
replace_from : Text → ℕ → Bool → Text → Text
unfolding auth_user_pass_at
replace_from new skip line_start [] = []
replace_from new (suc skip) line_start (c ∷ s) = replace_from new skip (c == 10) s
replace_from new zero line_start (c ∷ s) =
    let kept = replace_from new zero (c == 10) s in
    elim (auth_user_pass_at line_start (c ∷ s)) [
      | none ↦ c ∷ kept
      | some rest ↦ new ++ replace_from new (length s - length rest) (c == 10) s
    ]

-- `authUserPassRe.ReplaceAllString`, for a path with no `$`, which the template would read.
unfoldable pub with_credentials : Text → Text → Text
unfolding replace_from
with_credentials credentials_file raw =
    replace_from (codes "auth-user-pass " ++ credentials_file) zero true raw

-- A run of characters of a class, and the rest.
span : (ℕ → Bool) → Text → Text × Text
span p [] = ([], [])
span p (c ∷ s) = let (run, rest) = span p s in if p c then (c ∷ run, rest) else ([], c ∷ s)

abbrev host_of : Text × Text → Option (Text × Text)
host_of ([], rest) = none
host_of (c ∷ host, rest) = some (c ∷ host, rest)

-- `(?m)^remote\s+(\S+)` at a place: the host, and what is left.
remote_at : Bool → Text → Option (Text × Text)
unfolding span
remote_at line_start s =
    if line_start
    then elim (after_prefix (codes "remote") s) [
      | none ↦ none
      | some rest ↦
          let (white, rest') = span is_white rest in
          if text_eq white [] then none else host_of (span (λ c. not (is_white c)) rest')
    ]
    else none

-- The hosts of the matches in the rest of a text, of which so many characters are part of one.
hosts_from : ℕ → Bool → Text → List Text
unfolding remote_at
hosts_from skip line_start [] = []
hosts_from (suc skip) line_start (c ∷ s) = hosts_from skip (c == 10) s
hosts_from zero line_start (c ∷ s) =
    let others = hosts_from zero (c == 10) s in
    elim (remote_at line_start (c ∷ s)) [
      | none ↦ others
      | some (host, rest) ↦ host ∷ hosts_from (length s - length rest) (c == 10) s
    ]

-- `remoteRe.FindAllStringSubmatch`
unfoldable pub remote_hosts : Text → List Text
unfolding hosts_from
remote_hosts raw = hosts_from zero true raw

rewrite_test :
    with_credentials (codes "/c") (codes "a\nauth-user-pass \n\nauth-user-pass x\n")
    ≡ codes "a\nauth-user-pass /c\nauth-user-pass x\n"
unfolding with_credentials after_prefix
rewrite_test = refl

remote_test :
    remote_hosts (codes "dev tun\nremote a.b 1194\n remote c\nremote  d 1\n")
    ≡ codes "a.b" ∷ codes "d" ∷ []
unfolding remote_hosts after_prefix
remote_test = refl
