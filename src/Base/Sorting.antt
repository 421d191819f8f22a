-- ===== src/Base/Sorting.antt =====
-- Go's `sort.Strings` and `sort.Slice`: a list in the order of a test. Where the test does not tell
-- two elements apart, they keep their order here.
use Prim.Native.Nat.{ℕ, ◌+◌}
use mathlib.Core.Path.{◌≡◌, refl, ◌∙◌}
use mathlib.Core.Logic.{inl, inr}
use mathlib.Core.Bool.{Bool, true, false, not, ◌&&◌, ◌||◌}
use mathlib.Core.List.{List, [], ◌∷◌}
use native.Mathlib.Omega.{arith}
use tundler.Base.Tests.{ltb, ◌==◌, if◌then◌else◌, Bool-cases}
use tundler.Base.Lists.{All}
use tundler.Base.Strings.{Text, text_eq, text_eq→eq, text_eq_refl, elem, IsDistinct}

pub text_eq_sym : (s t : Text) → text_eq s t ≡ text_eq t s
text_eq_sym [] [] = refl
text_eq_sym [] (b ∷ t) = refl
text_eq_sym (a ∷ s) [] = refl
text_eq_sym (a ∷ s) (b ∷ t) = ground (arith, text_eq_sym s t)

-- `s <= t` on strings
abbrev pub text_leb : Text → Text → Bool
text_leb [] t = true
text_leb (a ∷ s) [] = false
text_leb (a ∷ s) (b ∷ t) = ltb a b || (a == b && text_leb s t)

pub text_leb_total : (s t : Text) → text_leb s t ≡ false → text_leb t s ≡ true
text_leb_total [] t e = cc
text_leb_total (a ∷ s) [] e = refl
text_leb_total (a ∷ s) (b ∷ t) e = ground (arith, text_leb_total s t)

pub text_leb_trans :
    (s t u : Text) → text_leb s t ≡ true → text_leb t u ≡ true → text_leb s u ≡ true
text_leb_trans [] t u e f = refl
text_leb_trans (a ∷ s) [] u e f = cc
text_leb_trans (a ∷ s) (b ∷ t) [] e f = cc
text_leb_trans (a ∷ s) (b ∷ t) (c ∷ u) e f = ground (arith, text_leb_trans s t u)

pub text_leb_antisym : (s t : Text) → text_leb s t ≡ true → text_leb t s ≡ true → text_eq s t ≡ true
text_leb_antisym [] [] e f = refl
text_leb_antisym [] (b ∷ t) e f = cc
text_leb_antisym (a ∷ s) [] e f = cc
text_leb_antisym (a ∷ s) (b ∷ t) e f = ground (arith, text_leb_antisym s t)

-- The order by a key, and by another test where the keys are the same: the shape of
-- `if a.Key != b.Key { return a.Key < b.Key }`, which tells two elements apart as `<` does.
abbrev pub by_key {ℓ} : {A : Type ℓ} → (A → Text) → (A → A → Bool) → A → A → Bool
by_key key le x y = if not (text_eq (key x) (key y)) then text_leb (key x) (key y) else le x y

module _ {ℓ} {A : Type ℓ} (key : A → Text) (le : A → A → Bool) where
  pub by_key_total :
      ((x y : A) → le x y ≡ false → le y x ≡ true)
      → (x y : A) → by_key key le x y ≡ false
      → by_key key le y x ≡ true
  by_key_total total x y e =
      ground (arith, e, total x y, text_leb_total (key x) (key y), text_eq_sym (key x) (key y))

  pub by_key_trans :
      ((x y z : A) → le x y ≡ true → le y z ≡ true → le x z ≡ true)
      → (x y z : A) → by_key key le x y ≡ true
      → by_key key le y z ≡ true
      → by_key key le x z ≡ true
  by_key_trans trans x y z e f = ground (
    arith,
    e,
    f,
    trans x y z,
    text_eq→eq (key x) (key y),
    text_eq→eq (key y) (key z),
    text_eq→eq (key x) (key z),
    text_leb_trans (key x) (key y) (key z),
    text_leb_antisym (key x) (key y),
    text_eq_refl (key x),
    text_eq_refl (key y),
    text_eq_sym (key x) (key y),
  )

-- How many elements satisfy a test.
abbrev pub count {ℓ} : {A : Type ℓ} → (A → Bool) → List A → ℕ
count p [] = 0
count p (x ∷ xs) = count p xs + (if p x then 1 else 0)

module _ {ℓ} {A : Type ℓ} (le : A → A → Bool) where
  unfoldable pub insert : A → List A → List A
  insert x [] = x ∷ []
  insert x (y ∷ ys) = let rest = insert x ys in if le x y then x ∷ y ∷ ys else y ∷ rest

  unfoldable pub sort : List A → List A
  unfolding insert
  sort [] = []
  sort (x ∷ xs) = insert x (sort xs)

  -- Each element is at most those after it.
  abbrev pub IsSorted : List A → Type 0
  IsSorted [] = Unit
  IsSorted (x ∷ xs) = All (λ y. le x y ≡ true) xs × IsSorted xs

  insert-All {κ} : (P : A → Type κ) (x : A) (xs : List A) → P x → All P xs → All P (insert x xs)
  unfolding insert
  insert-All P x [] p q = (p, tt)
  insert-All P x (y ∷ ys) p q = elim (Bool-cases (le x y)) [
    | inl e ↦ rw e (p, q)
    | inr e ↦ rw e (q.0, insert-All P x ys p q.1)
  ]

  pub sort-All {κ} : (P : A → Type κ) (xs : List A) → All P xs → All P (sort xs)
  unfolding sort
  sort-All P [] q = tt
  sort-All P (x ∷ xs) q = insert-All P x (sort xs) q.0 (sort-All P xs q.1)

  insert-count :
      (p : A → Bool) (x : A) (xs : List A)
      → count p (insert x xs) ≡ count p xs + (if p x then 1 else 0)
  unfolding insert
  insert-count p x [] = ground arith
  insert-count p x (y ∷ ys) = ground (arith, insert-count p x ys)

  -- A sorted list has the same elements, each as often.
  pub sort-count : (p : A → Bool) (xs : List A) → count p (sort xs) ≡ count p xs
  unfolding sort
  sort-count p [] = refl
  sort-count p (x ∷ xs) = ground (arith, insert-count p x (sort xs), sort-count p xs)

  module _ (total : (x y : A) → le x y ≡ false → le y x ≡ true)
      (trans : (x y z : A) → le x y ≡ true → le y z ≡ true → le x z ≡ true) where
    above-All :
        (x y : A) (ys : List A)
        → le x y ≡ true
        → All (λ z. le y z ≡ true) ys
        → All (λ z. le x z ≡ true) ys
    above-All x y [] e q = tt
    above-All x y (z ∷ zs) e q = (trans x y z e q.0, above-All x y zs e q.1)

    insert-IsSorted : (x : A) (xs : List A) → IsSorted xs → IsSorted (insert x xs)
    unfolding insert
    insert-IsSorted x [] s = (tt, tt)
    insert-IsSorted x (y ∷ ys) s = elim (Bool-cases (le x y)) [
      | inl e ↦ rw e ((e, above-All x y ys e s.0), s)
      | inr e ↦
          rw e (insert-All (λ z. le y z ≡ true) x ys (total x y e) s.0, insert-IsSorted x ys s.1)
    ]

    pub sort-IsSorted : (xs : List A) → IsSorted (sort xs)
    unfolding sort
    sort-IsSorted [] = tt
    sort-IsSorted (x ∷ xs) = insert-IsSorted x (sort xs) (sort-IsSorted xs)

-- `sort.Strings`
unfoldable pub sort_strings : List Text → List Text
unfolding sort
sort_strings xs = sort text_leb xs

elem-insert :
    (x y : Text) (ys : List Text) → elem x (insert text_leb y ys) ≡ (text_eq x y || elem x ys)
unfolding insert
elem-insert x y [] = refl
elem-insert x y (z ∷ zs) = ground (arith, elem-insert x y zs)

pub elem-sort_strings : (x : Text) (ys : List Text) → elem x (sort_strings ys) ≡ elem x ys
unfolding sort_strings sort
elem-sort_strings x [] = refl
elem-sort_strings x (y ∷ ys) =
    ground (arith, elem-insert x y (sort text_leb ys), elem-sort_strings x ys)

pub sort_strings-IsSorted : (ys : List Text) → IsSorted text_leb (sort_strings ys)
unfolding sort_strings
sort_strings-IsSorted ys = sort-IsSorted text_leb text_leb_total text_leb_trans ys

insert-IsDistinct :
    (x : Text) (ys : List Text)
    → elem x ys ≡ false
    → IsDistinct ys
    → IsDistinct (insert text_leb x ys)
unfolding insert
insert-IsDistinct x [] e d = (refl, tt)
insert-IsDistinct x (y ∷ ys) e d = elim (Bool-cases (text_leb x y)) [
  | inl f ↦ rw f (e, d)
  | inr f ↦ rw f (
    ground (arith, elem-insert y x ys, text_eq_sym x y, e, d.0),
    insert-IsDistinct x ys (ground (arith, e)) d.1,
  )
]

pub sort_strings-IsDistinct : (ys : List Text) → IsDistinct ys → IsDistinct (sort_strings ys)
unfolding sort_strings sort
sort_strings-IsDistinct [] d = tt
sort_strings-IsDistinct (y ∷ ys) d =
    insert-IsDistinct y (sort text_leb ys) (elem-sort_strings y ys ∙ d.0)
      (sort_strings-IsDistinct ys d.1)
