-- ===== src/Provider/Ovpn/Offers.antt =====
-- What the plugin offers, finds and connects to.
use tundler.Base.{
  List-cases, All-true, ◌≡◌, refl, ◌∙◌, ap, ◌⊎◌, inl, inr, Text, true, false, not, ◌||◌, Option,
  none, some, List, [], ◌∷◌, codes, text_eq, text_eq_refl, elem, All, Bool-cases, Option-cases,
  Sum-cases, arith, if◌then◌else◌,
}
use mathlib.Core.Path.{subst}
use tundler.Provider.{Status}
use tundler.Provider.Machine.{Machine, is_none, command}
use tundler.Provider.OpenVpn.{lower, await_up, pick_random_server}
use tundler.Provider.OpenVpn.Names.{
  sort_strings-IsNames, matching-elem, matching-All, pick_random_server-All,
}
use tundler.Provider.Ovpn.{
  Server, Ovpn, matches, find_servers, cache_list, cache_parsed, usable, load_servers, openvpn_args,
  active_location, status, dial, write_credentials, write_config, connect_to, choose,
  get_credentials, connect, names_of, locations,
}

-- A list that was loaded is in the cache, and is not empty.
abbrev IsCached : Option (List Server) → Ovpn → Type 0
IsCached none s = Unit
IsCached (some []) s = ⊥
IsCached (some (x ∷ xs)) s = s.server_cache ≡ x ∷ xs

cache_list-IsCached : (ss : List Server) (s : Ovpn) → let (r, s') = cache_list ss s in IsCached r s'
cache_list-IsCached [] s = tt
cache_list-IsCached (x ∷ xs) s = refl

cache_parsed-IsCached :
    (o : Option (List Server)) (s : Ovpn) → let (r, s') = cache_parsed o s in IsCached r s'
unfolding cache_parsed
cache_parsed-IsCached none s = tt
cache_parsed-IsCached (some raw) s = cache_list-IsCached (usable raw) s

cache_list-active :
    (ss : List Server) (s : Ovpn)
    → let (r, s') = cache_list ss s in
      (s'.active_server ≡ s.active_server) × (s'.active_location ≡ s.active_location)
cache_list-active [] s = (refl, refl)
cache_list-active (x ∷ xs) s = (refl, refl)

cache_parsed-active :
    (o : Option (List Server)) (s : Ovpn)
    → let (r, s') = cache_parsed o s in
      (s'.active_server ≡ s.active_server) × (s'.active_location ≡ s.active_location)
unfolding cache_parsed
cache_parsed-active none s = (refl, refl)
cache_parsed-active (some raw) s = cache_list-active (usable raw) s

-- A country among the names of a list has a server in it.
find_servers-names :
    (ss : List Server) (location : Text)
    → elem location (names_of (some ss)) ≡ true
    → (server : Server) × (rest : List Server) × (find_servers ss location ≡ server ∷ rest)
unfolding find_servers
find_servers-names ss location e =
    let names = (sort_strings-IsNames (λ (s : Server). s.country) ss).2 location in
    let has =
      matching-elem (λ s. s.country) (matches location) location ss
        (λ s f. rw f (ground (arith, text_eq_refl (lower location)))) (ground (arith, e, names)) in
    elim (Bool-cases (text_eq location [])) [
      | inl f ↦ absurd (ground (arith, e, names, f))
      | inr f ↦ rw f has
    ]

find_servers-All :
    (ss : List Server) (location : Text)
    → All
        (λ server. (text_eq location [] || matches location server) ≡ true)
        (find_servers ss location)
unfolding find_servers
find_servers-All ss location = elim (Bool-cases (text_eq location [])) [
  | inl e ↦ rw e (All-true ss)
  | inr e ↦ rw e (matching-All (matches location) ss)
]

module _ {W : Type 0} (m : Machine W) (parse : Text → Option (List Server))
    (ca_cert tls_auth : Text) where
  abbrev loaded : Ovpn → W → Option (List Server) × (Ovpn × W)
  loaded s w = load_servers m parse ca_cert tls_auth (s, w)

  load_servers-IsCached : (s : Ovpn) (w : W) → let (r, (s', w')) = loaded s w in IsCached r s'
  unfolding load_servers
  load_servers-IsCached s w = elim (List-cases s.server_cache) [
    | inr (x, rest, e) ↦ rw (load_servers, e) e
    | inl e ↦ elim (Sum-cases (m.read_file (codes "/etc/ovpn/servers.json") w).0) [
      | inl (x, f) ↦ rw (load_servers, e, f) tt
      | inr (text, f) ↦ rw (load_servers, e, f) (cache_parsed-IsCached (parse text) s)
    ]
  ]

  load_servers-cached :
      (s : Ovpn) (w : W) (x : Server) (xs : List Server)
      → s.server_cache ≡ x ∷ xs
      → loaded s w ≡ (some (x ∷ xs), (s, w))
  unfolding load_servers
  load_servers-cached s w x xs e = simp (load_servers, e)

  -- Connect where the cache has servers for the location.
  connect-cached :
      (s : Ovpn) (w : W) (ss : List Server) (location user pass : Text)
      → IsCached (some ss) s
      → get_credentials m ≡ some (user, pass)
      → ((server : Server) × (rest : List Server) × (find_servers ss location ≡ server ∷ rest))
      → (server : Server) × (rest : List Server) × (connect m parse ca_cert tls_auth location (s, w)
          ≡ choose m parse ca_cert tls_auth (server ∷ rest) user pass location (s, w))
  unfolding connect
  connect-cached s w [] location user pass c creds found = absurd c
  connect-cached s w (x ∷ xs) location user pass c creds (server, rest, e) =
      let q = load_servers-cached s w x xs c in
      (server, rest, rw (connect, creds, ap (λ r. r.0) q, ap (λ r. r.1) q, e))

  -- A country that Locations lists has servers: where the credentials are set, a later Connect to it
  -- reads no file, and chooses among a list that is not empty.
  pub connect-locations :
      (s : Ovpn) (w w'' : W) (location user pass : Text)
      → let (names, (s', w')) = locations m parse ca_cert tls_auth (s, w) in
        elem location names ≡ true
        → get_credentials m ≡ some (user, pass)
        → (server : Server) × (rest : List Server) × (connect m parse ca_cert tls_auth location
              (s', w'')
            ≡ choose m parse ca_cert tls_auth (server ∷ rest) user pass location (s', w''))
  unfolding connect locations
  connect-locations s w w'' location user pass listed creds =
      let (r, (s', w')) = loaded s w in
      elim (Option-cases r) [
        | inl e ↦ absurd (ground (arith, subst (λ o. elem location (names_of o) ≡ true) e listed))
        | inr (ss, e) ↦
            let c = subst (λ o. IsCached o s') e (load_servers-IsCached s w) in
            let l = subst (λ o. elem location (names_of o) ≡ true) e listed in
            connect-cached s' w'' ss location user pass c creds (find_servers-names ss location l)
      ]

  -- How Connect ends: either it records nothing, and its status is of a tunnel that is down; or it
  -- has recorded a server of the location, and the location, which the status then shows as long as
  -- the tunnel is up.
  IsOutcome : Text → Ovpn → Status × (Ovpn × W) → Type 0
  IsOutcome location s (st, (s', w')) =
      ((st.connected ≡ false)
        × (s'.active_server ≡ s.active_server)
        × (s'.active_location ≡ s.active_location))
      ⊎ ((server : Server) × (s'.active_server ≡ some server)
          × (s'.active_location ≡ location)
          × ((text_eq location [] || matches location server) ≡ true)
          × (st.location ≡ (if st.connected then location else [])))

  status-shows :
      (s : Ovpn) (w : W)
      → let (st, (s', w')) = status m (s, w) in
        (s' ≡ s) × (st.location ≡ (if st.connected then active_location s else []))
  unfolding status
  status-shows s w = ground arith

  dial-IsOutcome :
      (server : Server) (location : Text) (s : Ovpn) (w : W)
      → (text_eq location [] || matches location server) ≡ true
      → IsOutcome location s (dial m parse ca_cert tls_auth server location (s, w))
  unfolding IsOutcome dial active_location
  dial-IsOutcome server location s w e =
      let ((out, err), w₁) = command m (codes "openvpn") openvpn_args w in
      let (up, w₂) = await_up m 60 w₁ in
      let s' : Ovpn = record s { active_server = some server; active_location = location } in
      elim (Bool-cases (not (is_none err))) [
        | inl f ↦ rw (dial, f) (inl (refl, refl, refl))
        | inr f ↦ elim (Bool-cases up) [
          | inr g ↦ rw (dial, f, g) (inl (refl, refl, refl))
          | inl g ↦
              let (same, shows) = status-shows s' w₂ in
              rw (dial, f, g, same) (inr (server, refl, refl, e, shows))
        ]
      ]

  connect_to-IsOutcome :
      (server : Server) (user pass location : Text) (s : Ovpn) (w : W)
      → (text_eq location [] || matches location server) ≡ true
      → IsOutcome location s (connect_to m parse ca_cert tls_auth server user pass location (s, w))
  unfolding IsOutcome connect_to
  connect_to-IsOutcome server user pass location s w e =
      let (err, w₁) = write_credentials m user pass w in
      let (err', w₂) = write_config m parse ca_cert tls_auth server w₁ in
      elim (Bool-cases (not (is_none err))) [
        | inl f ↦ rw (connect_to, f) (inl (refl, refl, refl))
        | inr f ↦ elim (Bool-cases (not (is_none err'))) [
          | inl g ↦ rw (connect_to, f, g) (inl (refl, refl, refl))
          | inr g ↦ rw (connect_to, f, g) (dial-IsOutcome server location s w₂ e)
        ]
      ]

  choose-IsOutcome :
      (found : List Server) (user pass location : Text) (s : Ovpn) (w : W)
      → All (λ server. (text_eq location [] || matches location server) ≡ true) found
      → IsOutcome location s (choose m parse ca_cert tls_auth found user pass location (s, w))
  unfolding IsOutcome choose
  choose-IsOutcome found user pass location s w h =
      elim (Option-cases (pick_random_server m found w).0) [
        | inl e ↦ rw (choose, e) (inl (refl, refl, refl))
        | inr (x, e) ↦
            let p =
              pick_random_server-All m
                (λ server. (text_eq location [] || matches location server) ≡ true) found x w h e in
            rw (choose, e)
              (connect_to-IsOutcome x user pass location s (pick_random_server m found w).1 p)
      ]

  load_servers-active :
      (s : Ovpn) (w : W)
      → let (r, (s', w')) = loaded s w in
        (s'.active_server ≡ s.active_server) × (s'.active_location ≡ s.active_location)
  unfolding load_servers
  load_servers-active s w = elim (List-cases s.server_cache) [
    | inr (x, rest, e) ↦ rw (load_servers, e) (refl, refl)
    | inl e ↦ elim (Sum-cases (m.read_file (codes "/etc/ovpn/servers.json") w).0) [
      | inl (x, f) ↦ rw (load_servers, e, f) (refl, refl)
      | inr (text, f) ↦ rw (load_servers, e, f) (cache_parsed-active (parse text) s)
    ]
  ]

  -- What an outcome is to variables with the same active server.
  IsOutcome_lem :
      (location : Text) (s s' : Ovpn) (r : Status × (Ovpn × W))
      → s'.active_server ≡ s.active_server
      → s'.active_location ≡ s.active_location
      → IsOutcome location s' r
      → IsOutcome location s r
  unfolding IsOutcome
  IsOutcome_lem location s s' r a b (inl (st, x, y)) = inl (st, x ∙ a, y ∙ b)
  IsOutcome_lem location s s' r a b (inr o) = inr o

  -- Every call of Connect ends so, whatever the machine does: it records nothing and its status is of
  -- a tunnel that is down, or it has recorded the location and a server that the location names, or
  -- any where the location is empty, and the status shows that location as long as the tunnel is up.
  connect-IsOutcome :
      (location : Text) (s : Ovpn) (w : W)
      → IsOutcome location s (connect m parse ca_cert tls_auth location (s, w))
  unfolding IsOutcome connect
  connect-IsOutcome location s w = elim (Option-cases (get_credentials m)) [
    | inl e ↦ rw (connect, e) (inl (refl, refl, refl))
    | inr (c, e) ↦
        let (r, (s', w')) = loaded s w in
        let (a, b) = load_servers-active s w in
        elim (Option-cases r) [
          | inl f ↦ rw (connect, e, f) (inl (refl, a, b))
          | inr (ss, f) ↦
              let r =
                choose m parse ca_cert tls_auth (find_servers ss location) c.0 c.1 location
                  (s', w') in
              let o =
                choose-IsOutcome (find_servers ss location) c.0 c.1 location s' w'
                  (find_servers-All ss location) in
              rw (connect, e, f) (IsOutcome_lem location s s' r a b o)
        ]
  ]
