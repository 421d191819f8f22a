-- ===== src/Provider/Direct/Offers.antt =====
-- The names that Locations lists, and what a Connect to one of them finds.
use tundler.Base.{
  List-cases, Text, true, ◌≡◌, refl, ap, inl, inr, Option, none, some, List, [], ◌∷◌, text_eq, elem,
  Bool-cases, Option-cases, arith,
}
use mathlib.Core.Path.{subst}
use tundler.Provider.Machine.{Machine}
use tundler.Provider.OpenVpn.Names.{sort_strings-IsNames, matching-elem}
use tundler.Provider.Direct.{
  Direct, Plugin, find_with, cache_list, load_servers, choose, connect, names_of, locations,
}

-- A list that was loaded is in the cache, and is not empty.
abbrev IsCached : {A : Type 0} → Option (List A) → Direct A → Type 0
IsCached none s = Unit
IsCached (some []) s = ⊥
IsCached (some (x ∷ xs)) s = s.server_cache ≡ x ∷ xs

cache_list-IsCached :
    {A : Type 0} (r : Option (List A)) (s : Direct A)
    → IsCached (cache_list r s).0 (cache_list r s).1
cache_list-IsCached none s = tt
cache_list-IsCached (some []) s = tt
cache_list-IsCached (some (x ∷ xs)) s = refl

module _ {A C W : Type 0} (m : Machine W) (p : Plugin A C W) where
  load_servers-IsCached :
      (s : Direct A) (w : W) → let (r, (s', w')) = load_servers m p (s, w) in IsCached r s'
  unfolding load_servers
  load_servers-IsCached s w = elim (List-cases s.server_cache) [
    | inr (x, rest, e) ↦ rw (load_servers, e) e
    | inl e ↦ rw (load_servers, e) (cache_list-IsCached (p.read_servers w).0 s)
  ]

  load_servers-cached :
      (s : Direct A) (w : W) (x : A) (xs : List A)
      → s.server_cache ≡ x ∷ xs
      → load_servers m p (s, w) ≡ (some (x ∷ xs), (s, w))
  unfolding load_servers
  load_servers-cached s w x xs e = simp (load_servers, e)

  -- The test of `findServers` picks a server by its country, in any case of letters.
  abbrev pub NamesCountry : Type 0
  NamesCountry =
      (location : Text) (server : A)
      → p.country server ≡ location
      → p.matches location server ≡ true

  -- A country among the names of a list has a server in it.
  find_with-names :
      (ss : List A) (location : Text)
      → NamesCountry
      → elem location (names_of m p (some ss)) ≡ true
      → (server : A) × (rest : List A) × (find_with p.matches ss location ≡ server ∷ rest)
  unfolding find_with
  find_with-names ss location h e =
      let names = (sort_strings-IsNames p.country ss).2 location in
      let has =
        matching-elem p.country (p.matches location) location ss (h location)
          (ground (arith, e, names)) in
      elim (Bool-cases (text_eq location [])) [
        | inl f ↦ absurd (ground (arith, e, names, f))
        | inr f ↦ rw f has
      ]

  connect-cached :
      (s : Direct A) (w : W) (ss : List A) (location : Text) (creds : C)
      → IsCached (some ss) s
      → (p.ready w).0 ≡ some creds
      → ((server : A) × (rest : List A) × (find_with p.matches ss location ≡ server ∷ rest))
      → (server : A) × (rest : List A) × (connect m p location (s, w)
          ≡ choose m p creds (server ∷ rest) location (s, (p.ready w).1))
  unfolding connect
  connect-cached s w [] location creds c ready found = absurd c
  connect-cached s w (x ∷ xs) location creds c ready (server, rest, e) =
      let q = load_servers-cached s (p.ready w).1 x xs c in
      (server, rest, rw (connect, ready, ap (λ r. r.0) q, ap (λ r. r.1) q, e))

  -- A country that Locations lists has servers: where the plugin is ready, a later Connect to it
  -- reads no list of servers again, and chooses among a list that is not empty.
  connect-locations :
      (s : Direct A) (w w'' : W) (location : Text) (creds : C)
      → NamesCountry
      → let (names, (s', w')) = locations m p (s, w) in
        elem location names ≡ true
        → (p.ready w'').0 ≡ some creds
        → (server : A) × (rest : List A) × (connect m p location (s', w'')
            ≡ choose m p creds (server ∷ rest) location (s', (p.ready w'').1))
  unfolding connect locations
  connect-locations s w w'' location creds h listed ready =
      let (r, (s', w')) = load_servers m p (s, w) in
      elim (Option-cases r) [
        | inl e ↦
            absurd (ground (arith, subst (λ o. elem location (names_of m p o) ≡ true) e listed))
        | inr (ss, e) ↦
            let c = subst (λ o. IsCached o s') e (load_servers-IsCached s w) in
            let l = subst (λ o. elem location (names_of m p o) ≡ true) e listed in
            connect-cached s' w'' ss location creds c ready (find_with-names ss location h l)
      ]
