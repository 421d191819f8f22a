-- ===== src/Provider/Locations.antt =====
-- cmd/tundler-tunnel/locations_cache.go: the decorator that keeps the last good list of locations.
-- Its state is added to the world; every other method is forwarded. The lock is held only around
-- the cache, so two callers can both fetch: a call here is one that no other overlaps.
pub mod Cached
use tundler.Base.{
  ℕ, ◌-◌, Text, Bool, true, false, ◌&&◌, Option, none, some, List, [], ◌∷◌, ltb, if◌then◌else◌,
}
use tundler.Provider.{VpnProvider}

pub record Cache : Type 0 where
  pub cached : List Text
  pub fetched_at : Option ℕ  -- the zero Time until the first fetch

abbrev pub is_empty : List Text → Bool
is_empty [] = true
is_empty (x ∷ xs) = false

-- `c.now().Sub(c.fetchedAt) < c.ttl`; the zero Time is longer ago than any `ttl`.
abbrev is_recent : ℕ → ℕ → Option ℕ → Bool
is_recent ttl now none = false
is_recent ttl now (some t) = ltb (now - t) ttl

module _ {W : Type 0} (p : VpnProvider W) (clock : W → ℕ × W) (ttl : ℕ) where
  -- What follows a fetch that returned `got`.
  keep_good : List Text → Cache → W → List Text × (W × Cache)
  keep_good [] c w = (c.cached, (w, c))
  keep_good (x ∷ xs) c w =
      let (now, w') = clock w in (x ∷ xs, (w', record { cached = x ∷ xs; fetched_at = some now }))

  -- `cachedLocationsProvider.Locations`. The clock is read only where there is a list.
  pub locations : W × Cache → List Text × (W × Cache)
  unfolding keep_good
  locations (w, c) = elim c.cached [
    | [] ↦ let (got, w') = p.locations w in keep_good got c w'
    | x ∷ xs ↦
        let (now, w') = clock w in
        if is_recent ttl now c.fetched_at
        then (x ∷ xs, (w', c))
        else let (got, w'') = p.locations w' in keep_good got c w''
  ]

  -- A method of the embedded provider.
  abbrev forward : {A : Type 0} → (W → A × W) → W × Cache → A × (W × Cache)
  forward m (w, c) = let (a, w') = m w in (a, (w', c))

  -- `newCachedLocationsProvider`
  unfoldable cached_locations_provider : VpnProvider (W × Cache)
  unfolding locations
  cached_locations_provider = record {
    active_location = forward p.active_location;
    connect = λ location. forward (p.connect location);
    connected = forward p.connected;
    disconnect = forward p.disconnect;
    locations = locations;
    logged_in = forward p.logged_in;
    login = forward p.login;
    logout = forward p.logout;
    status = forward p.status;
    version = forward p.version;
  }

-- The cache that the decorator starts with.
abbrev pub empty_cache : Cache
empty_cache = record { cached = []; fetched_at = none }
