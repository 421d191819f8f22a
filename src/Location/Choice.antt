-- ===== src/Location/Choice.antt =====
-- What `pickLocation` returns.
use tundler.Base.{
  ℕ, zero, suc, ◌<◌, ◌≡◌, ◌≢◌, ◌↔◌, refl, Text, true, false, none, some, List, [], ◌∷◌, ◌++◌, arith,
  text_eq_refl, text_eq→eq, elem, trim_space, length, get_elem?, Bool-cases, inl, inr,
}
use tundler.Timing.{IsRandom}
use tundler.Location.{exclude_set, allowed_locations, pick_location}

get_elem?-some {ℓ} :
    {A : Type ℓ} (xs : List A) (i : ℕ) → i < length xs → (x : A) × (get_elem? xs i ≡ some x)
get_elem?-some [] i h = absurd (omega arith)
get_elem?-some (x ∷ xs) zero h = (x, refl)
get_elem?-some (x ∷ xs) (suc i) h = get_elem?-some xs i (omega arith)

elem-get_elem? : (xs : List Text) (i : ℕ) (x : Text) → get_elem? xs i ≡ some x → elem x xs ≡ true
elem-get_elem? [] i x h = cc
elem-get_elem? (y ∷ xs) zero x h = ground (arith, text_eq_refl x)
elem-get_elem? (y ∷ xs) (suc i) x h = ground (arith, elem-get_elem? xs i x h)

length_pos : (xs : List Text) (x : Text) → elem x xs ≡ true → 0 < length xs
length_pos [] x h = cc
length_pos (y ∷ xs) x h = omega arith

-- A location is allowed when it is on offer and not blocked.
elem-allowed :
    (blocked locations : List Text) (x : Text)
    → (elem x (allowed_locations blocked locations) ≡ true)
      ↔ ((elem x locations ≡ true) × (elem x blocked ≡ false))
unfolding allowed_locations
elem-allowed blocked [] x = ground arith
elem-allowed blocked (y ∷ ys) x = ground (arith, elem-allowed blocked ys x, text_eq→eq x y)

-- The name of a location as the provider's own lists write it.
abbrev pub IsTrimmed : Text → Type 0
IsTrimmed s = (trim_space s ≡ s) × (s ≢ [])

exclude_set-append : (xs ys : List Text) → exclude_set (xs ++ ys) ≡ exclude_set xs ++ exclude_set ys
unfolding exclude_set
exclude_set-append [] ys = refl
exclude_set-append (x ∷ xs) ys = ground (arith, exclude_set-append xs ys)

-- A name without white space around it is in the set when it is in the list.
elem-exclude_set :
    (xs : List Text) (x : Text) → IsTrimmed x → elem x xs ≡ true → elem x (exclude_set xs) ≡ true
unfolding exclude_set
elem-exclude_set [] x t h = cc
elem-exclude_set (y ∷ ys) x t h =
    ground
      (arith, elem-exclude_set ys x t, text_eq→eq x y, text_eq→eq (trim_space y) [], text_eq_refl x)

pick_elem :
    (rand : ℕ → ℕ) (locations excluded : List Text) (x : Text)
    → pick_location rand locations excluded ≡ some x
    → elem x (allowed_locations (exclude_set excluded) locations) ≡ true
unfolding pick_location
pick_elem rand locations excluded x h = elem-get_elem? _ _ x h

-- The location that is picked is on offer, and no entry of the exclusions names it.
pub pick_location-some :
    (rand : ℕ → ℕ) (locations excluded : List Text) (x : Text)
    → pick_location rand locations excluded ≡ some x
    → (elem x locations ≡ true)
      × (elem x (exclude_set excluded) ≡ false)
      × (IsTrimmed x → elem x excluded ≡ false)
pick_location-some rand locations excluded x h =
    let (on_offer, free) = (elem-allowed _ _ x).0 (pick_elem rand locations excluded x h) in
    (on_offer, free, λ t. ground (arith, elem-exclude_set excluded x t))

elem_head : (x : Text) (xs : List Text) → elem x (x ∷ xs) ≡ true
elem_head x xs = ground (arith, text_eq_refl x)

-- With a random source in its range, a location is picked whenever one is on offer that is not in
-- the set of exclusions.
pick_location_total :
    (rand : ℕ → ℕ) (locations excluded : List Text) (x : Text)
    → IsRandom rand
    → elem x locations ≡ true
    → elem x (exclude_set excluded) ≡ false
    → (y : Text) × (pick_location rand locations excluded ≡ some y)
unfolding pick_location
pick_location_total rand locations excluded x r on_offer free =
    let allowed = allowed_locations (exclude_set excluded) locations in
    get_elem?-some allowed (rand (length allowed))
      (r (length allowed) (length_pos allowed x ((elem-allowed _ _ x).1 (on_offer, free))))

-- With a random source in its range, the error is returned only where every location on offer is
-- in the set of exclusions.
pick_location-none :
    (rand : ℕ → ℕ) (locations excluded : List Text)
    → IsRandom rand
    → pick_location rand locations excluded ≡ none
    → (x : Text) → elem x locations ≡ true
    → elem x (exclude_set excluded) ≡ true
pick_location-none rand locations excluded r h x on_offer =
    elim (Bool-cases (elem x (exclude_set excluded))) [
      | inl blocked ↦ blocked
      | inr free ↦ let (y, p) = pick_location_total rand locations excluded x r on_offer free in cc
    ]
