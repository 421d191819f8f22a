-- ===== src/Provider/Express/Regions.antt =====
-- What Locations returns of the answers of a daemon that is starting.
use tundler.Base.{
  ℕ, zero, suc, ◌≡◌, refl, inl, inr, ◌⊎◌, Text, false, List, [], ◌∷◌, codes, fields, Bool-cases,
  arith, if◌then◌else◌,
}
use tundler.Provider.Machine.{Machine, is_none, seconds}
use tundler.Provider.Express.{
  is_cold_start_placeholder, ensure_daemon_responsive, regions, locations, run,
}

-- The first answer that is a catalog.
abbrev first_catalog : List (List Text) → List Text
first_catalog [] = []
first_catalog (a ∷ later) = if is_cold_start_placeholder a then first_catalog later else a

first_catalog-catalog :
    (offers : List (List Text))
    → (first_catalog offers ≡ []) ⊎ (is_cold_start_placeholder (first_catalog offers) ≡ false)
first_catalog-catalog [] = inl refl
first_catalog-catalog (a ∷ later) = elim (Bool-cases (is_cold_start_placeholder a)) [
  | inl e ↦ rw e (first_catalog-catalog later)
  | inr e ↦ rw e (inr e)
]

module _ {W : Type 0} (m : Machine W) where
  -- The answers to so many attempts, to the one after which the context has ended; one that failed
  -- has no region.
  answers : ℕ → W → List (List Text)
  answers zero w = []
  answers (suc attempts) w =
      let ((out, err), w₁) = run m (codes "get" ∷ codes "regions" ∷ []) w in
      let (done, w₂) = m.wait (seconds 5) w₁ in
      let later = answers attempts w₂ in
      (if is_none err then fields out else []) ∷ (if done then [] else later)

  regions-answers :
      (attempts : ℕ) (w : W) → (regions m attempts w).0 ≡ first_catalog (answers attempts w)
  unfolding regions answers is_cold_start_placeholder
  regions-answers zero w = refl
  regions-answers (suc zero) w = ground arith
  regions-answers (suc (suc attempts)) w =
      let ((out, err), w₁) = run m (codes "get" ∷ codes "regions" ∷ []) w in
      let (done, w₂) = m.wait (seconds 5) w₁ in
      let ih = regions-answers (suc attempts) w₂ in ground (arith, ih)

  -- What Locations returns: the first of the answers to twelve attempts, or fewer where the context
  -- ends, that is a catalog, or nothing; never the placeholder of a daemon that is starting.
  locations-answers :
      (last : ℕ) (w : W)
      → let r = (locations m (last, w)).0 in
        (r ≡ first_catalog (answers 12 (ensure_daemon_responsive m (last, w)).1))
        × ((r ≡ []) ⊎ (is_cold_start_placeholder r ≡ false))
  unfolding locations
  locations-answers last w =
      let w' = (ensure_daemon_responsive m (last, w)).1 in
      let e = regions-answers 12 w' in (e, rw e (first_catalog-catalog (answers 12 w')))
