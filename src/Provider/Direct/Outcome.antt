-- ===== src/Provider/Direct/Outcome.antt =====
-- How Connect ends.
use tundler.Base.{
  List-cases, All-true, Text, Bool, true, false, not, ◌||◌, ◌≡◌, refl, ◌∙◌, ◌⊎◌, inl, inr, Option,
  none, some, List, [], ◌∷◌, codes, text_eq, All, Bool-cases, Option-cases, arith, if◌then◌else◌,
}
use tundler.Provider.{Status}
use tundler.Provider.Machine.{Machine, is_none, command}
use tundler.Provider.OpenVpn.{await_up, pick_random_server}
use tundler.Provider.OpenVpn.Names.{matching-All, pick_random_server-All}
use tundler.Provider.Direct.{
  Direct, Plugin, down, find_with, cache_list, active_location, status, load_servers, dial, choose,
  connect,
}

find_with-All :
    {A : Type 0} (matches : Text → A → Bool) (servers : List A) (location : Text)
    → All
        (λ server. (text_eq location [] || matches location server) ≡ true)
        (find_with matches servers location)
unfolding find_with
find_with-All matches servers location = elim (Bool-cases (text_eq location [])) [
  | inl e ↦ rw e (All-true servers)
  | inr e ↦ rw e (matching-All (matches location) servers)
]

abbrev SameActive : {A : Type 0} → Direct A → Direct A → Type 0
SameActive s s' = (s'.active_server ≡ s.active_server) × (s'.active_location ≡ s.active_location)

cache_list-active :
    {A : Type 0} (r : Option (List A)) (s : Direct A) → SameActive s (cache_list r s).1
cache_list-active none s = (refl, refl)
cache_list-active (some []) s = (refl, refl)
cache_list-active (some (x ∷ xs)) s = (refl, refl)

module _ {A C W : Type 0} (m : Machine W) (p : Plugin A C W) where
  -- Nothing is recorded, and the status is of a tunnel that is down; or a server of the location and
  -- the location are.
  pub IsOutcome : Text → Direct A → Status × (Direct A × W) → Type 0
  IsOutcome location s (st, (s', w)) =
      ((st.connected ≡ false) × SameActive s s')
      ⊎ ((server : A) × (s'.active_server ≡ some server)
          × (s'.active_location ≡ location)
          × ((text_eq location [] || p.matches location server) ≡ true)
          × (st.location ≡ (if st.connected then location else [])))

  status-shows :
      (s : Direct A) (w : W)
      → let (st, (s', w')) = status m p (s, w) in
        (s' ≡ s) × (st.location ≡ (if st.connected then active_location m p s else []))
  unfolding status
  status-shows s w = ground arith

  dial-IsOutcome :
      (server : A) (location : Text) (s : Direct A) (w : W)
      → (text_eq location [] || p.matches location server) ≡ true
      → IsOutcome location s (dial m p server location (s, w))
  unfolding IsOutcome dial active_location
  dial-IsOutcome server location s w e =
      let ((out, err), w₁) = command m (codes "openvpn") p.openvpn_args w in
      let (up, w₂) = await_up m 60 w₁ in
      let s' : Direct A = record s { active_server = some server; active_location = location } in
      elim (Bool-cases (not (is_none err))) [
        | inl f ↦ rw (dial, f) (inl (refl, (refl, refl)))
        | inr f ↦ elim (Bool-cases up) [
          | inr g ↦ rw (dial, f, g) (inl (refl, (refl, refl)))
          | inl g ↦
              let (same, shows) = status-shows s' (p.on_up w₂) in
              rw (dial, f, g, same) (inr (server, refl, refl, e, shows))
        ]
      ]

  choose-IsOutcome :
      (creds : C) (found : List A) (location : Text) (s : Direct A) (w : W)
      → All (λ server. (text_eq location [] || p.matches location server) ≡ true) found
      → IsOutcome location s (choose m p creds found location (s, w))
  unfolding IsOutcome choose
  choose-IsOutcome creds found location s w h =
      elim (Option-cases (pick_random_server m found w).0) [
        | inl e ↦ rw (choose, e) (inl (refl, (refl, refl)))
        | inr (x, e) ↦
            let q =
              pick_random_server-All m
                (λ server. (text_eq location [] || p.matches location server) ≡ true) found x w h
                e in
            let (failed, w₂) = p.prepare creds x (pick_random_server m found w).1 in
            elim (Bool-cases failed) [
              | inl f ↦ rw (choose, e, f) (inl (refl, (refl, refl)))
              | inr f ↦ rw (choose, e, f) (dial-IsOutcome x location s w₂ q)
            ]
      ]

  load_servers-active : (s : Direct A) (w : W) → SameActive s (load_servers m p (s, w)).1.0
  unfolding load_servers
  load_servers-active s w = elim (List-cases s.server_cache) [
    | inr (x, rest, e) ↦ rw (load_servers, e) (refl, refl)
    | inl e ↦ rw (load_servers, e) (cache_list-active (p.read_servers w).0 s)
  ]

  IsOutcome_lem :
      (location : Text) (s s' : Direct A) (r : Status × (Direct A × W))
      → SameActive s s'
      → IsOutcome location s' r
      → IsOutcome location s r
  unfolding IsOutcome
  IsOutcome_lem location s s' r (a, b) (inl (st, (x, y))) = inl (st, (x ∙ a, y ∙ b))
  IsOutcome_lem location s s' r (a, b) (inr o) = inr o

  -- Every call of Connect ends so, whatever the plugin's own part and the machine do: it records
  -- nothing and its status is of a tunnel that is down, or it has recorded the location and a server
  -- that the location names, or any where the location is empty, and the status shows that location
  -- as long as the tunnel is up.
  pub connect-IsOutcome :
      (location : Text) (s : Direct A) (w : W) → IsOutcome location s (connect m p location (s, w))
  unfolding IsOutcome connect
  connect-IsOutcome location s w =
      let (ready, w₁) = p.ready w in
      elim (Option-cases ready) [
        | inl e ↦ rw (connect, e) (inl (refl, (refl, refl)))
        | inr (c, e) ↦
            let (r, (s', w')) = load_servers m p (s, w₁) in
            let (a, b) = load_servers-active s w₁ in
            elim (Option-cases r) [
              | inl f ↦ rw (connect, e, f) (inl (refl, (a, b)))
              | inr (ss, f) ↦
                  let found = find_with p.matches ss location in
                  let o =
                    choose-IsOutcome c found location s' w' (find_with-All p.matches ss location) in
                  rw (connect, e, f)
                    (IsOutcome_lem location s s' (choose m p c found location (s', w')) (a, b) o)
            ]
      ]

  -- Without credentials, Connect does no more.
  pub connect-not_ready :
      (location : Text) (s : Direct A) (w : W)
      → (p.ready w).0 ≡ none
      → connect m p location (s, w) ≡ (down p.name [], (s, (p.ready w).1))
  unfolding connect
  connect-not_ready location s w e = rw (connect, e) refl
