-- ===== src/Provider/Proton/Tunnel/Recorded.antt =====
-- What Connect leaves in the variables.
use tundler.Base.{
  All-true, ap, Text, Bool, true, false, ◌||◌, ◌≡◌, refl, ◌∙◌, ◌⊎◌, inl, inr, Option, some, List,
  [], text_eq, All, Bool-cases, Option-cases, arith, if◌then◌else◌,
}
use mathlib.Core.Path.{subst}
use tundler.Provider.{Status}
use tundler.Provider.Machine.{Machine}
use tundler.Provider.OpenVpn.{pick_random_server}
use tundler.Provider.OpenVpn.Names.{matching-All, pick_random_server-All}
use tundler.Provider.Proton.{named, find_servers}
use tundler.Provider.Proton.Tunnel.{
  Proton, active_location, get_credentials, connect_open_vpn, status, connect_among, fetched,
  connect,
}
use tundler.Updater.{OutputServer}

find_servers-All :
    (servers : List OutputServer) (location : Text)
    → All
        (λ server. (text_eq location [] || named location server) ≡ true)
        (find_servers servers location)
unfolding find_servers
find_servers-All servers location = elim (Bool-cases (text_eq location [])) [
  | inl e ↦ rw e (All-true servers)
  | inr e ↦ rw e (matching-All (named location) servers)
]

-- How Connect ends: nothing is recorded, and the status is of a tunnel that is down; or a server of
-- the location and the location are.
IsRecorded : {W : Type 0} → Text → Proton → Status × (Proton × W) → Type 0
IsRecorded location s (st, (s', w)) =
    ((st.connected ≡ false)
      × (s'.active_server ≡ s.active_server)
      × (s'.active_location ≡ s.active_location))
    ⊎ ((server : OutputServer) × (s'.active_server ≡ some server)
        × (s'.active_location ≡ location)
        × ((text_eq location [] || named location server) ≡ true)
        × (st.location ≡ (if st.connected then location else [])))

abbrev with_server : OutputServer → Proton → Proton
with_server server s = record s { active_server = some server }

active_location-some :
    (server : OutputServer) (s : Proton)
    → s.active_server ≡ some server
    → active_location s ≡ s.active_location
unfolding active_location
active_location-some server s e = rw e refl

module _ {W : Type 0} (m : Machine W) (parse : Text → Option (List OutputServer))
    (join : Text → Text → Text) (is_number : Text → Bool) (proton_ca proton_tls_crypt : Text) where
  -- `connectOpenVPN` records the server, or nothing.
  connect_open_vpn-records :
      (server : OutputServer) (s : Proton) (w : W)
      → let (failed, (s', w')) =
          connect_open_vpn m parse join is_number proton_ca proton_tls_crypt server (s, w) in
        s' ≡ (if failed then s else with_server server s)
  unfolding connect_open_vpn
  connect_open_vpn-records server s w =
      elim (Option-cases (get_credentials m parse join is_number proton_ca proton_tls_crypt)) [
        | inl e ↦ rw (connect_open_vpn, e) refl
        | inr (c, e) ↦ rw (connect_open_vpn, e) (ground arith)
      ]

  status-shows :
      (s : Proton) (w : W)
      → let (st, (s', w')) = status m parse join is_number proton_ca proton_tls_crypt (s, w) in
        (s' ≡ s) × (st.location ≡ (if st.connected then active_location s else []))
  unfolding status
  status-shows s w = ground arith

  connect_among-IsRecorded :
      (servers : List OutputServer) (location : Text) (s : Proton) (w : W)
      → IsRecorded location s
          (connect_among m parse join is_number proton_ca proton_tls_crypt servers location (s, w))
  unfolding IsRecorded connect_among active_location
  connect_among-IsRecorded servers location s w =
      let (picked, w₁) = pick_random_server m (find_servers servers location) w in
      elim (Option-cases picked) [
        | inl e ↦ rw (connect_among, e) (inl (refl, refl, refl))
        | inr (server, e) ↦
            let p =
              pick_random_server-All m
                (λ server. (text_eq location [] || named location server) ≡ true)
                (find_servers servers location) server w (find_servers-All servers location) e in
            let (failed, (s', w₂)) =
              connect_open_vpn m parse join is_number proton_ca proton_tls_crypt server (s, w₁) in
            let records = connect_open_vpn-records server s w₁ in
            elim (Bool-cases failed) [
              | inl f ↦
                  let k = subst (λ b. s' ≡ (if b then s else with_server server s)) f records in
                  rw (connect_among, e, f)
                    (inl (refl, ap (λ x. x.active_server) k, ap (λ x. x.active_location) k))
              | inr f ↦
                  let k = subst (λ b. s' ≡ (if b then s else with_server server s)) f records in
                  let s'' : Proton = record s' { active_location = location } in
                  let (st, (s₃, w₃)) =
                    status m parse join is_number proton_ca proton_tls_crypt (s'', w₂) in
                  let (same, shows) = status-shows s'' w₂ in
                  let active : s''.active_server ≡ some server = ap (λ x. x.active_server) k in
                  let at : active_location s'' ≡ location =
                    active_location-some server s'' active in
                  rw (connect_among, e, f)
                    (inr (
                      server,
                      ap (λ x. x.active_server) same ∙ active,
                      ap (λ x. x.active_location) same,
                      p,
                      shows ∙ ap (λ l. if st.connected then l else []) at,
                    ))
            ]
      ]

  fetched-active :
      (s : Proton) (w : W)
      → let (r, (s', w')) = fetched m parse join is_number proton_ca proton_tls_crypt (s, w) in
        (s'.active_server ≡ s.active_server) × (s'.active_location ≡ s.active_location)
  unfolding fetched
  fetched-active s w = (refl, refl)

  IsRecorded_lem :
      (location : Text) (s s' : Proton) (r : Status × (Proton × W))
      → s'.active_server ≡ s.active_server
      → s'.active_location ≡ s.active_location
      → IsRecorded location s' r
      → IsRecorded location s r
  unfolding IsRecorded
  IsRecorded_lem location s s' r a b (inl (st, x, y)) = inl (st, x ∙ a, y ∙ b)
  IsRecorded_lem location s s' r a b (inr o) = inr o

  -- Every call of Connect ends so, whatever the machine does: it records nothing and its status is of
  -- a tunnel that is down, or it has recorded the location and a server that the location names, or
  -- any where the location is empty, and the status shows that location as long as the tunnel is up.
  connect-IsRecorded :
      (location : Text) (s : Proton) (w : W)
      → IsRecorded location s
          (connect m parse join is_number proton_ca proton_tls_crypt location (s, w))
  unfolding IsRecorded connect
  connect-IsRecorded location s w =
      let ((servers, failed), (s', w')) =
        fetched m parse join is_number proton_ca proton_tls_crypt (s, w) in
      let (a, b) = fetched-active s w in
      elim (Bool-cases failed) [
        | inl e ↦ rw (connect, e) (inl (refl, a, b))
        | inr e ↦
            let r =
              connect_among m parse join is_number proton_ca proton_tls_crypt servers location
                (s', w') in
            rw (connect, e)
              (IsRecorded_lem location s s' r a b (connect_among-IsRecorded servers location s' w'))
      ]
