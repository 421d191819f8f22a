-- ===== src/Provider/Locations/Cached.antt =====
-- What callers of the cached list rely on.
use tundler.Base.{
  ℕ, ◌-◌, ◌<◌, ◌≡◌, refl, Text, Bool, true, false, not, ◌&&◌, some, List, [], ◌∷◌, arith,
  if◌then◌else◌, zero, suc,
}
use tundler.Provider.{VpnProvider}
use tundler.Provider.Locations.{Cache, is_empty, locations, empty_cache}

module _ {W : Type 0} (p : VpnProvider W) (clock : W → ℕ × W) (ttl : ℕ) where
  -- Calls one after another, with the list of each.
  pub calls : ℕ → W × Cache → List (List Text)
  calls zero x = []
  calls (suc n) x = let (got, x') = locations p clock ttl x in got ∷ calls n x'

  locations_keeps :
      (x : W × Cache)
      → let (got, x') = locations p clock ttl x in
        (got ≡ x'.1.cached) × ((not (is_empty x.1.cached) && is_empty got) ≡ false)
  unfolding locations
  locations_keeps (w, c) = ground arith

  -- Once a call has returned a list that is not empty, none returns an empty one.
  abbrev pub NeverEmptyAgain : Bool → List (List Text) → Type 0
  NeverEmptyAgain seen [] = Unit
  NeverEmptyAgain seen (l ∷ ls) =
      ((seen && is_empty l) ≡ false) × NeverEmptyAgain (if is_empty l then seen else true) ls

  calls_keep :
      (n : ℕ) (x : W × Cache) (seen : Bool)
      → (seen && is_empty x.1.cached) ≡ false
      → NeverEmptyAgain seen (calls n x)
  unfolding calls
  calls_keep zero x seen h = tt
  calls_keep (suc n) x seen h =
      let got = (locations p clock ttl x).0 in
      (
        ground (arith, locations_keeps x),
        calls_keep n (locations p clock ttl x).1 (if is_empty got then seen else true)
            (ground (arith, locations_keeps x)),
      )

  -- Once a call has returned locations, no later call returns none, whatever the provider answers:
  -- an empty answer is replaced by the last good list.
  pub calls_never_empty : (n : ℕ) (w : W) → NeverEmptyAgain false (calls n (w, empty_cache))
  calls_never_empty n w = calls_keep n (w, empty_cache) false refl

  -- The state after so many calls, and the world after so many readings of the clock.
  pub after : ℕ → W × Cache → W × Cache
  after zero x = x
  after (suc n) x = after n (locations p clock ttl x).1

  abbrev pub readings : ℕ → W → W
  readings zero w = w
  readings (suc n) w = readings n (clock w).1

  -- The next readings of the clock are all within the lifetime of a fetch at the time `t`.
  abbrev Within : ℕ → ℕ → W → Type 0
  Within t zero w = Unit
  Within t (suc n) w = ((clock w).0 - t < ttl) × Within t n (clock w).1

  fresh_call :
      (w : W) (c : Cache) (t : ℕ)
      → is_empty c.cached ≡ false
      → c.fetched_at ≡ some t
      → (clock w).0 - t < ttl
      → locations p clock ttl (w, c) ≡ (c.cached, ((clock w).1, c))
  unfolding locations
  fresh_call w c t e f h = ground arith

  -- While the cached list is not empty and its fetch is within its lifetime, calls ask the provider
  -- nothing: all that happens to the world is that the clock is read, and the cache stays.
  fresh_calls :
      (n : ℕ) (w : W) (c : Cache) (t : ℕ)
      → is_empty c.cached ≡ false
      → c.fetched_at ≡ some t
      → Within t n w
      → after n (w, c) ≡ (readings n w, c)
  unfolding after
  fresh_calls zero w c t e f h = refl
  fresh_calls (suc n) w c t e f h =
      rw (fresh_call w c t e f h.0) (fresh_calls n (clock w).1 c t e f h.1)
