-- ===== src/Provider/OpenVpn/Names.antt =====
-- The names that a plugin offers, and the servers that it finds for one.
use tundler.Base.{
  ◌≡◌, refl, sym, inl, inr, Text, Bool, true, false, not, ◌&&◌, ◌||◌, List, [], ◌∷◌, map, text_eq,
  text_eq→eq, text_eq_refl, elem, some, length, get_elem?-All, All, IsDistinct, Bool-cases, arith,
}
use tundler.Base.Sorting.{
  sort_strings, text_leb, IsSorted, elem-sort_strings, sort_strings-IsSorted,
  sort_strings-IsDistinct,
}
use tundler.Provider.Machine.{Machine}
use tundler.Provider.OpenVpn.{distinct, matching, pick_random_server}

module _ {A : Type 0} (f : A → Text) where
  pub elem-distinct :
      (x : Text) (seen : List Text) (ss : List A)
      → elem x (distinct f seen ss) ≡ (not (text_eq x []) && not (elem x seen) && elem x (map f ss))
  unfolding distinct
  elem-distinct x seen [] = ground arith
  elem-distinct x seen (s ∷ ss) = elim (Bool-cases (text_eq x (f s))) [
    | inl e ↦ rw (text_eq→eq x (f s) e) (
        ground (
          arith,
          text_eq_refl (f s),
          elem-distinct (f s) seen ss,
          elem-distinct (f s) (f s ∷ seen) ss,
        ))
    | inr e ↦ ground (arith, e, elem-distinct x seen ss, elem-distinct x (f s ∷ seen) ss)
  ]

  distinct-IsDistinct : (seen : List Text) (ss : List A) → IsDistinct (distinct f seen ss)
  unfolding distinct
  distinct-IsDistinct seen [] = tt
  distinct-IsDistinct seen (s ∷ ss) = elim (Bool-cases (text_eq (f s) [] || elem (f s) seen)) [
    | inl e ↦ rw e (distinct-IsDistinct seen ss)
    | inr e ↦ rw e (
      ground (arith, text_eq_refl (f s), elem-distinct (f s) (f s ∷ seen) ss),
      distinct-IsDistinct (f s ∷ seen) ss,
    )
  ]

  -- The sorted names of a field: each value of it once, none empty.
  abbrev pub IsNames : List A → List Text → Type 0
  IsNames ss names =
      IsSorted text_leb names
      × IsDistinct names
      × ((x : Text) → elem x names ≡ (not (text_eq x []) && elem x (map f ss)))

  pub sort_strings-IsNames : (ss : List A) → IsNames ss (sort_strings (distinct f [] ss))
  sort_strings-IsNames ss = (
    sort_strings-IsSorted (distinct f [] ss),
    sort_strings-IsDistinct (distinct f [] ss) (distinct-IsDistinct [] ss),
    λ x. ground (arith, elem-sort_strings x (distinct f [] ss), elem-distinct x [] ss),
  )

  missed :
      (p : A → Bool) (s : A) (x : Text)
      → p s ≡ false
      → (f s ≡ x → p s ≡ true)
      → text_eq x (f s) ≡ false
  missed p s x g h = elim (Bool-cases (text_eq x (f s))) [
    | inl e ↦ absurd (ground (arith, g, h (sym (text_eq→eq x (f s) e))))
    | inr e ↦ e
  ]

  -- A value of the field is found by any test that holds of the servers that have it.
  pub matching-elem :
      (p : A → Bool) (x : Text) (ss : List A)
      → ((s : A) → f s ≡ x → p s ≡ true)
      → elem x (map f ss) ≡ true
      → (s : A) × (rest : List A) × (matching p ss ≡ s ∷ rest)
  unfolding matching
  matching-elem p x [] h e = absurd (cc)
  matching-elem p x (s ∷ ss) h e = elim (Bool-cases (p s)) [
    | inl g ↦ (s, matching p ss, rw g)
    | inr g ↦ rw g (matching-elem p x ss h (ground (arith, e, missed p s x g (h s))))
  ]

pub matching_same :
    {A : Type 0} (p q : A → Bool) (ss : List A)
    → All (λ s. p s ≡ q s) ss
    → matching p ss ≡ matching q ss
unfolding matching
matching_same p q [] h = refl
matching_same p q (s ∷ ss) h = rw (h.0, matching_same p q ss h.1)

pub matching-All : {A : Type 0} (p : A → Bool) (ss : List A) → All (λ s. p s ≡ true) (matching p ss)
unfolding matching
matching-All p [] = tt
matching-All p (x ∷ ss) = elim (Bool-cases (p x)) [
  | inl g ↦ rw g (g, matching-All p ss)
  | inr g ↦ rw g (matching-All p ss)
]

pub pick_random_server-All :
    {W A : Type 0} (m : Machine W) (P : A → Type 0) (ss : List A) (x : A) (w : W)
    → All P ss
    → (pick_random_server m ss w).0 ≡ some x
    → P x
unfolding pick_random_server
pick_random_server-All m P [] x w h e = absurd (cc)
pick_random_server-All m P (s ∷ ss) x w h e =
    get_elem?-All P (s ∷ ss) (m.pick (length (s ∷ ss)) w).0 x h e
