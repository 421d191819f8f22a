-- ===== src/Base/Strings.antt =====
-- Text as the list of its character codes, with what the program uses of Go's `strings` package.
-- A text is ASCII here, so that its characters are its bytes, and the white space of `TrimSpace`
-- and `Fields` is that of ASCII.
pub mod Trim
use Prim.Native.Char.{code}
use Prim.Native.Nat.{ℕ, ◌+◌}
use Prim.Native.String.{String}
use mathlib.Core.Path.{◌≡◌, refl}
use mathlib.Core.Bool.{Bool, true, false, ◌&&◌, ◌||◌}
use mathlib.Core.List.{List, [], ◌∷◌, ◌++◌, reverse}
use native.Mathlib.Omega.{arith}
use tundler.Base.Tests.{leb, ◌==◌, if◌then◌else◌}

abbrev pub Text : Type 0
Text = List ℕ

-- The codes of a literal.
abbrev pub codes : String → Text
codes String.[] = []
codes (String.◌∷◌ c s) = code c ∷ codes s

-- Equality of texts as a test.
abbrev pub text_eq : Text → Text → Bool
text_eq [] [] = true
text_eq [] (_ ∷ _) = false
text_eq (_ ∷ _) [] = false
text_eq (a ∷ s) (b ∷ t) = a == b && text_eq s t

pub text_eq_refl : (s : Text) → text_eq s s ≡ true
text_eq_refl [] = refl
text_eq_refl (a ∷ s) = ground (arith, text_eq_refl s)

pub text_eq→eq : (s t : Text) → text_eq s t ≡ true → s ≡ t
text_eq→eq [] [] h = refl
text_eq→eq [] (b ∷ t) h = cc
text_eq→eq (a ∷ s) [] h = cc
text_eq→eq (a ∷ s) (b ∷ t) h = ground (arith, text_eq→eq s t)

-- A set of texts as a list: `_, ok := set[x]`.
abbrev pub elem : Text → List Text → Bool
elem x [] = false
elem x (y ∷ ys) = text_eq x y || elem x ys

pub elem-append : (x : Text) (ys zs : List Text) → elem x (ys ++ zs) ≡ (elem x ys || elem x zs)
elem-append x [] zs = refl
elem-append x (y ∷ ys) zs = ground (arith, elem-append x ys zs)

-- No text occurs twice.
abbrev pub IsDistinct : List Text → Type 0
IsDistinct [] = Unit
IsDistinct (x ∷ xs) = (elem x xs ≡ false) × IsDistinct xs

abbrev pub is_space : ℕ → Bool
is_space c = c == 32 || (leb 9 c && leb c 13)

-- `strings.TrimSpace`
unfoldable pub trim_left : Text → Text
trim_left [] = []
trim_left (c ∷ s) = if is_space c then trim_left s else c ∷ s

unfoldable pub trim_space : Text → Text
unfolding trim_left
trim_space s = reverse (trim_left (reverse (trim_left s)))

-- `strings.Split` by a separator of one byte; the field that is being read comes first.
pub split_from : ℕ → Text → Text → List Text
split_from sep acc [] = reverse acc ∷ []
split_from sep acc (c ∷ s) =
    let cut = split_from sep [] s in
    let more = split_from sep (c ∷ acc) s in if c == sep then reverse acc ∷ cut else more

unfoldable pub split : ℕ → Text → List Text
unfolding split_from
split sep s = split_from sep [] s

-- `strings.Fields`
abbrev flush : Text → List Text → List Text
flush [] rest = rest
flush (c ∷ acc) rest = reverse (c ∷ acc) ∷ rest

unfoldable pub fields_from : Text → Text → List Text
fields_from acc [] = flush acc []
fields_from acc (c ∷ s) =
    let cut = fields_from [] s in
    let more = fields_from (c ∷ acc) s in if is_space c then flush acc cut else more

unfoldable pub fields : Text → List Text
unfolding fields_from
fields s = fields_from [] s

-- `strings.Join` with a line feed.
unfoldable pub join_lines : List Text → Text
join_lines [] = []
join_lines (l ∷ []) = l
join_lines (l ∷ l' ∷ ls) = l ++ (10 ∷ []) ++ join_lines (l' ∷ ls)

-- `strings.HasSuffix`
unfoldable pub has_suffix : Text → Text → Bool
has_suffix [] t = text_eq [] t
has_suffix (c ∷ s) t = text_eq (c ∷ s) t || has_suffix s t

-- `strings.TrimSuffix`
unfoldable pub trim_suffix : Text → Text → Text
trim_suffix [] t = []
trim_suffix (c ∷ s) t = if text_eq (c ∷ s) t then [] else c ∷ trim_suffix s t

-- `strings.HasPrefix` and `strings.Contains`
abbrev pub has_prefix : Text → Text → Bool
has_prefix s [] = true
has_prefix [] (_ ∷ _) = false
has_prefix (a ∷ s) (b ∷ t) = a == b && has_prefix s t

unfoldable pub contains : Text → Text → Bool
contains [] t = has_prefix [] t
contains (c ∷ s) t = has_prefix (c ∷ s) t || contains s t

-- `strings.EqualFold`
abbrev pub to_lower : ℕ → ℕ
to_lower c = if leb 65 c && leb c 90 then c + 32 else c

abbrev pub equal_fold : Text → Text → Bool
equal_fold [] [] = true
equal_fold [] (_ ∷ _) = false
equal_fold (_ ∷ _) [] = false
equal_fold (a ∷ s) (b ∷ t) = to_lower a == to_lower b && equal_fold s t

-- `strings.Contains` for one byte
abbrev pub contains_byte : ℕ → Text → Bool
contains_byte b [] = false
contains_byte b (c ∷ s) = c == b || contains_byte b s

fields_test : fields (codes " a  bc\r\n") ≡ codes "a" ∷ codes "bc" ∷ []
unfolding fields
fields_test = refl

split_test : split b',' (codes "a,,b ") ≡ codes "a" ∷ [] ∷ codes "b " ∷ []
unfolding split
split_test = refl

trim_test : trim_space (codes " \ta b\n ") ≡ codes "a b"
unfolding trim_space
trim_test = refl
