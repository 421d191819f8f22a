-- ===== src/Base/Strings/Trim.antt =====
-- `TrimSpace` leaves a text that has no white space around it as it is.
use mathlib.Core.Path.{◌≡◌, refl, sym, ap, ◌∙◌, subst}
use mathlib.Core.Bool.{false}
use mathlib.Core.Logic.{inl, inr}
use mathlib.Core.List.{[], ◌∷◌, ◌++◌, reverse, reverse-reverse, reverse-append}
use tundler.Base.Tests.{if◌then◌else◌, Bool-cases}
use tundler.Base.Strings.{Text, is_space, trim_left, trim_space}

-- A text with no white space at its start.
abbrev IsLeft : Text → Type 0
IsLeft [] = Unit
IsLeft (c ∷ s) = is_space c ≡ false

trim_left-IsLeft : (s : Text) → IsLeft (trim_left s)
unfolding trim_left
trim_left-IsLeft [] = tt
trim_left-IsLeft (c ∷ s) = elim (Bool-cases (is_space c)) [
  | inl e ↦ rw e (trim_left-IsLeft s)
  | inr e ↦ rw e e
]

IsLeft-trim_left : (s : Text) → IsLeft s → trim_left s ≡ s
unfolding trim_left
IsLeft-trim_left [] h = refl
IsLeft-trim_left (c ∷ s) h = rw h

IsLeft-append : (s t : Text) → IsLeft (s ++ t) → IsLeft s
IsLeft-append [] t h = tt
IsLeft-append (c ∷ s) t h = h

-- What is cut off at the start.
cut : Text → Text
cut [] = []
cut (c ∷ s) = if is_space c then c ∷ cut s else []

cut-append : (s : Text) → cut s ++ trim_left s ≡ s
unfolding cut trim_left
cut-append [] = refl
cut-append (c ∷ s) = elim (Bool-cases (is_space c)) [
  | inl e ↦ rw e (ap (λ t. c ∷ t) (cut-append s))
  | inr e ↦ rw e
]

-- What `TrimSpace` returns has no white space at its start.
trim_space-IsLeft : (s : Text) → IsLeft (trim_space s)
unfolding trim_space
trim_space-IsLeft s =
    let a = trim_left s in
    let e : a ≡ reverse (trim_left (reverse a)) ++ reverse (cut (reverse a)) =
      sym (ap reverse (cut-append (reverse a)) ∙ reverse-reverse a)
      ∙ reverse-append (cut (reverse a)) (trim_left (reverse a)) in
    IsLeft-append (reverse (trim_left (reverse a))) (reverse (cut (reverse a)))
      (subst IsLeft e (trim_left-IsLeft s))

pub trim_space-trim_space : (s : Text) → trim_space (trim_space s) ≡ trim_space s
unfolding trim_space
trim_space-trim_space s =
    let b = trim_left (reverse (trim_left s)) in
    rw (
      IsLeft-trim_left (reverse b) (trim_space-IsLeft s),
      reverse-reverse b,
      IsLeft-trim_left b (trim_left-IsLeft (reverse (trim_left s))),
    )
