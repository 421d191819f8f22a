-- ===== src/Provider/VeePn/Told.antt =====
-- What a Connect records, and what Status tells after it.
use tundler.Base.{
  ◌≡◌, refl, inl, inr, ◌⊎◌, Text, Bool, true, false, not, ◌&&◌, Option, none, some, List, [], ◌∷◌,
  codes, text_eq, trim_space, Bool-cases, Option-cases, List-cases, arith,
}
use mathlib.Core.Path.{subst}
use tundler.Provider.{Status}
use tundler.Provider.Machine.{Machine, command}
use tundler.Provider.OpenVpn.{lower, await_up}
use tundler.Provider.Direct.{Direct, cache_list}
use tundler.Provider.VeePn.{
  VeepnServer, status, config_dir, get_credentials, load_servers, last_with, pick_server, dial,
  write_credentials, write_active_config, attempt, connect_to, connect,
}

-- A server of a location, whose name is compared without case and without the spaces around it.
abbrev IsOf : Text → VeepnServer → Type 0
IsOf location server = text_eq (lower server.location) (lower (trim_space location)) ≡ true

abbrev FoundOf : Text → Option VeepnServer → Type 0
FoundOf location none = Unit
FoundOf location (some server) = IsOf location server

last_with-FoundOf :
    (test : Text → Bool) (location : Text) (ss : List VeepnServer) (found : Option VeepnServer)
    → FoundOf location found
    → FoundOf location (last_with test (lower (trim_space location)) ss found)
unfolding last_with
last_with-FoundOf test location [] found f = f
last_with-FoundOf test location (x ∷ ss) found f =
    elim (Bool-cases (text_eq (lower x.location) (lower (trim_space location)) && test x.proto)) [
      | inl e ↦ rw e (last_with-FoundOf test location ss (some x) (ground arith))
      | inr e ↦ rw e (last_with-FoundOf test location ss found f)
    ]

pick_server-FoundOf :
    (location : Text) (ss : List VeepnServer) → FoundOf location (pick_server ss location)
unfolding pick_server
pick_server-FoundOf location ss =
    let udp = last_with-FoundOf (λ p. text_eq p (codes "udp")) location ss none tt in
    let tcp = last_with-FoundOf (λ p. not (text_eq p (codes "udp"))) location ss none tt in
    ground (arith, udp, tcp)

-- The variables of the tunnel are as they were; the cache of the servers may be another.
abbrev SameTunnel : Direct VeepnServer → Direct VeepnServer → Type 0
SameTunnel s s' = (s'.active_server ≡ s.active_server) × (s'.active_location ≡ s.active_location)

cache_list-SameTunnel :
    (r : Option (List VeepnServer)) (s : Direct VeepnServer) → SameTunnel s (cache_list r s).1
cache_list-SameTunnel none s = (refl, refl)
cache_list-SameTunnel (some []) s = (refl, refl)
cache_list-SameTunnel (some (x ∷ xs)) s = (refl, refl)

module _ {W : Type 0} (m : Machine W) where
  -- The machine as it is after an `openvpn` that started without an error, on the configuration of
  -- the plugin, and whose tunnel came up.
  abbrev CameUp : W → Type 0
  CameUp w' =
      (w : W) × (let ((out, err), w₁) =
          command m (codes "openvpn")
            (codes "--cd"
              ∷ config_dir m
              ∷ codes "--config"
              ∷ codes "active.ovpn"
              ∷ codes "--daemon"
              ∷ [])
            w in
        (err ≡ none) × (await_up m 60 w₁ ≡ (true, w')))

  dial-CameUp : (w : W) → (dial m w).0 ≡ true → CameUp (dial m w).1
  unfolding dial
  dial-CameUp w e = (w, ground arith)

module _ {W : Type 0} (m : Machine W) (join : Text → Text → Text)
    (read_dir : Text → W → Option (List (Text × Bool)) × W) where
  -- A Connect that reports a tunnel has one that came up, and the variables hold a server of the
  -- location, the location itself, and what Status reports from then on. Any other Connect leaves the
  -- variables of the tunnel alone.
  pub IsTold : Text → Direct VeepnServer → Status × (Direct VeepnServer × W) → Type 0
  IsTold location s (st, (s', w')) =
      ((st.connected ≡ true)
        × (((server : VeepnServer) × (s'.active_server ≡ some server) × IsOf location server)
            × (s'.active_location ≡ location)
            × (status s' ≡ st)
            × CameUp m w'))
      ⊎ ((st.connected ≡ false) × SameTunnel s s')

  attempt-CameUp :
      (creds : Text × Text) (server : VeepnServer) (w : W)
      → (attempt m join read_dir creds server w).0 ≡ true
      → CameUp m (attempt m join read_dir creds server w).1
  unfolding attempt
  attempt-CameUp (user, pass) server w e =
      let (failed, w₁) = write_credentials m join read_dir user pass w in
      let (failed', w₂) = write_active_config m join read_dir server w₁ in
      let up = dial-CameUp m w₂ in ground (arith, up)

  connect_to-IsTold :
      (creds : Text × Text) (server : VeepnServer) (location : Text) (s s' : Direct VeepnServer)
      (w : W)
      → SameTunnel s s'
      → IsOf location server
      → IsTold location s (connect_to m join read_dir creds server location (s', w))
  unfolding IsTold connect_to status
  connect_to-IsTold creds server location s s' w same of =
      elim (Bool-cases (attempt m join read_dir creds server w).0) [
        | inl e ↦
            rw (connect_to, e)
              (inl (refl, ((server, refl, of), refl, refl, attempt-CameUp creds server w e)))
        | inr e ↦ rw (connect_to, e) (inr (refl, same))
      ]

  load_servers-SameTunnel :
      (s : Direct VeepnServer) (w : W) → SameTunnel s (load_servers m join read_dir (s, w)).1.0
  unfolding load_servers
  load_servers-SameTunnel s w = elim (List-cases s.server_cache) [
    | inl e ↦ rw (load_servers, e) (cache_list-SameTunnel _ s)
    | inr (x, xs, e) ↦ rw (load_servers, e) (refl, refl)
  ]

  -- A Connect either reports a tunnel, and then its `openvpn` started without an error and its tunnel
  -- came up, and the server that is recorded is one of the location that was asked for, the location
  -- that is recorded is that one, and Status reports the same from then on; or it reports none, and
  -- leaves the recorded server and location as they were.
  pub connect-IsTold :
      (location : Text) (s : Direct VeepnServer) (w : W)
      → IsTold location s (connect m join read_dir location (s, w))
  unfolding IsTold connect
  connect-IsTold location s w = elim (Option-cases (get_credentials m)) [
    | inl e ↦ rw (connect, e) (inr (refl, (refl, refl)))
    | inr (creds, e) ↦
        let (r, (s', w')) = load_servers m join read_dir (s, w) in
        let same = load_servers-SameTunnel s w in
        elim (Option-cases r) [
          | inl f ↦ rw (connect, e, f) (inr (refl, same))
          | inr (ss, f) ↦ elim (Option-cases (pick_server ss location)) [
            | inl g ↦ rw (connect, e, f, g) (inr (refl, same))
            | inr (server, g) ↦
                let of = subst (FoundOf location) g (pick_server-FoundOf location ss) in
                rw (connect, e, f, g) (connect_to-IsTold creds server location s s' w' same of)
          ]
        ]
  ]
