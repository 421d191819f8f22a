-- ===== src/Provider/FastVpn/Names.antt =====
-- The names of the files, and what is read from them.
use tundler.Base.{
  ◌≡◌, refl, Text, Bool, true, false, ◌||◌, ◌∙◌, none, some, [], ◌∷◌, ◌++◌, codes, text_eq,
  text_eq_refl, length, length-append, contains_byte, has_suffix, trim_suffix, ap, ◌<◌, ℕ, arith,
  if◌then◌else◌,
}
use mathlib.Core.List.{append-nil}
use tundler.Provider.OvpnFiles.{after_prefix, country_code, greedy, is_upper}
use tundler.Provider.OvpnFiles.Greedy.{greedy_lem}
use tundler.Provider.FastVpn.{udp_tail, parse_filename}

-- Base lemmas on suffixes.
text_eq_longer : (s t : Text) → length t < length s → text_eq s t ≡ false
text_eq_longer [] t h = absurd (omega arith)
text_eq_longer (a ∷ s) [] h = refl
text_eq_longer (a ∷ s) (b ∷ t) h = ground (arith, text_eq_longer s t (omega arith))

trim_suffix-append : (s t : Text) → text_eq t [] ≡ false → trim_suffix (s ++ t) t ≡ s
unfolding trim_suffix
trim_suffix-append [] [] h = absurd (cc)
trim_suffix-append [] (b ∷ t) h = rw (text_eq_refl (b ∷ t)) refl
trim_suffix-append (a ∷ s) t h =
    let l = text_eq_longer (a ∷ (s ++ t)) t (omega (arith, length-append s t)) in
    rw l (ap (λ r. a ∷ r) (trim_suffix-append s t h))

has_suffix-append : (s t : Text) → has_suffix (s ++ t) t ≡ true
unfolding has_suffix
has_suffix-append [] [] = refl
has_suffix-append [] (b ∷ t) = rw (text_eq_refl (b ∷ t)) refl
has_suffix-append (a ∷ s) t = ground (arith, has_suffix-append s t)

after_prefix-append : (p s : Text) → after_prefix p (p ++ s) ≡ some s
unfolding after_prefix
after_prefix-append [] s = refl
after_prefix-append (a ∷ p) s = ground (arith, after_prefix-append p s)

-- The name of the file of a city.
abbrev pub file_name : ℕ → ℕ → Text → Bool → Text
file_name a b city virtual =
    codes "NCVPN-"
    ++ (a
        ∷ b
        ∷ b'-'
        ∷ ((city ++ (if virtual then codes " - Virtual" else [])) ++ codes "-UDP.ovpn"))

udp_end : greedy udp_tail (codes "-UDP.ovpn") ≡ none
unfolding greedy udp_tail
udp_end = refl

udp_here : udp_tail (codes "-UDP.ovpn") ≡ some tt
unfolding udp_tail
udp_here = refl

country_code_lem :
    (a b : ℕ) (s : Text)
    → is_upper a ≡ true
    → is_upper b ≡ true
    → country_code (a ∷ b ∷ b'-' ∷ s) ≡ some (a ∷ b ∷ [], s)
unfolding country_code
country_code_lem a b s u v = ground (arith, u, v)

-- What is read of a name is a matter of what stands between the code and the end.
parse_filename-between :
    (a b : ℕ) (t : Text)
    → is_upper a ≡ true
    → is_upper b ≡ true
    → text_eq t [] ≡ false
    → contains_byte 10 t ≡ false
    → parse_filename (codes "NCVPN-" ++ (a ∷ b ∷ b'-' ∷ (t ++ codes "-UDP.ovpn"))) ≡ (
        if has_suffix t (codes " - Virtual")
        then some (a ∷ b ∷ [], trim_suffix t (codes " - Virtual"), true)
        else some (a ∷ b ∷ [], t, false))
unfolding parse_filename
parse_filename-between a b t u v h n =
    let s = a ∷ b ∷ b'-' ∷ (t ++ codes "-UDP.ovpn") in
    rw
      (
        parse_filename,
        after_prefix-append (codes "NCVPN-") s,
        country_code_lem a b (t ++ codes "-UDP.ovpn") u v,
        greedy_lem udp_tail (codes "-UDP.ovpn") tt t udp_end udp_here h n,
      )
      refl

contains_byte-append :
    (c : ℕ) (s t : Text) → contains_byte c (s ++ t) ≡ (contains_byte c s || contains_byte c t)
contains_byte-append c [] t = refl
contains_byte-append c (a ∷ s) t = ground (arith, contains_byte-append c s t)

append-ne_nil : (s t : Text) → text_eq s [] ≡ false → text_eq (s ++ t) [] ≡ false
append-ne_nil [] t h = absurd (cc)
append-ne_nil (c ∷ s) t h = refl

-- The country's code, the city and whether it is virtual are read back from the name of a file, where
-- the code is two capitals and the city is not empty, has no line feed, and does not itself end as
-- the name of a virtual one does.
pub parse_filename-file_name :
    (a b : ℕ) (city : Text) (virtual : Bool)
    → is_upper a ≡ true
    → is_upper b ≡ true
    → text_eq city [] ≡ false
    → contains_byte 10 city ≡ false
    → has_suffix city (codes " - Virtual") ≡ false
    → parse_filename (file_name a b city virtual) ≡ some (a ∷ b ∷ [], city, virtual)
parse_filename-file_name a b city false u v h n e =
    rw (append-nil city) (parse_filename-between a b city u v h n ∙ (rw e refl))
parse_filename-file_name a b city true u v h n e =
    let t = city ++ codes " - Virtual" in
    let n' : contains_byte 10 t ≡ false =
      contains_byte-append 10 city (codes " - Virtual") ∙ (rw n refl) in
    parse_filename-between a b t u v (append-ne_nil city (codes " - Virtual") h) n'
    ∙ (rw
        (
          has_suffix-append city (codes " - Virtual"),
          trim_suffix-append city (codes " - Virtual") refl,
        )
        refl)
