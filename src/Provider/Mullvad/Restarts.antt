-- ===== src/Provider/Mullvad/Restarts.antt =====
-- Any sequence of the calls of Mullvad's plugin, in a process that may find an interface of an
-- earlier one.
use tundler.Base.{
  ◌≡◌, refl, ◌∙◌, inl, inr, Text, false, Option, some, List, [], ◌∷◌, Bool-cases, Option-cases,
  List-cases,
}
use tundler.Provider.Machine.{Machine}
use tundler.Provider.OpenVpn.{pick_random_server}
use tundler.Provider.Direct.{Direct, find_with}
use tundler.Provider.WireGuard.{start, is_wire_guard_connected}
use tundler.Provider.WireGuard.Collision.{
  Link, host, Deletes, start-collided, take_down-collided, connected-collided, exit_ip-collided,
}
use tundler.Provider.Mullvad.{
  Relay, RelaysResponse, matches, wg_config_path, wire_guard_config, wg_identity, load_relays, dial,
  choose, connect, disconnect, status, locations, login,
}

-- The calls of the contract that reach the machine or change the variables.
pub data Call : Type 0 where
  connecting : Text → Call
  disconnecting : Call
  asking : Call
  listing : Call
  logging_in : Call

module _ {W : Type 0} (m : Machine W) (parse : Text → Option RelaysResponse) where
  run_call : Call → Direct Relay × (W × Link) → Direct Relay × (W × Link)
  run_call (connecting location) sx = (connect (host m) parse location sx).1
  run_call disconnecting sx = disconnect (host m) parse sx
  run_call asking sx = (status (host m) parse sx).1
  run_call listing sx = (locations (host m) parse sx).1
  run_call logging_in sx = (login (host m) parse sx).1

  pub run_calls : List Call → Direct Relay × (W × Link) → Direct Relay × (W × Link)
  unfolding run_call
  run_calls [] sx = sx
  run_calls (c ∷ cs) sx = run_calls cs (run_call c sx)

  -- The interface was met as before.
  abbrev Same : W × Link → Direct Relay × (W × Link) → Type 0
  Same x (s, x') = x'.1.collided ≡ x.1.collided

  status-Same : (s : Direct Relay) (x : W × Link) → Same x (status (host m) parse (s, x)).1
  unfolding status
  status-Same s x =
      let (up, x₁) = is_wire_guard_connected (host m) x in
      elim (Bool-cases up) [
        | inl e ↦ rw (status, e) (exit_ip-collided m _ x₁ ∙ connected-collided m x)
        | inr e ↦ rw (status, e) (connected-collided m x)
      ]

  dial-Same :
      (identity : Text × Text) (server : Relay) (location : Text) (s : Direct Relay) (x : W × Link)
      → Deletes m
      → Same x (dial (host m) parse identity server location (s, x)).1
  unfolding dial
  dial-Same (priv_key, address) server location s x h =
      let config = wire_guard_config priv_key address server in
      let (failed, x₁) = start (host m) wg_config_path config x in
      let s' = record s { active_server = some server; active_location = location } in
      let started = start-collided m wg_config_path config x h in
      elim (Bool-cases failed) [
        | inl e ↦ rw (dial, e) started
        | inr e ↦ rw (dial, e) (status-Same s' x₁ ∙ started)
      ]

  picked-Same :
      (found : List Relay) (x : W × Link)
      → (pick_random_server (host m) found x).1.1.collided ≡ x.1.collided
  unfolding pick_random_server
  picked-Same [] x = refl
  picked-Same (s ∷ ss) x = refl

  choose-Same :
      (identity : Text × Text) (found : List Relay) (location : Text) (s : Direct Relay)
      (x : W × Link)
      → Deletes m
      → Same x (choose (host m) parse identity found location (s, x)).1
  unfolding choose
  choose-Same identity found location s x h =
      let (picked, x₁) = pick_random_server (host m) found x in
      let same = picked-Same found x in
      elim (Option-cases picked) [
        | inl e ↦ rw (choose, e) same
        | inr (server, e) ↦ rw (choose, e) (dial-Same identity server location s x₁ h ∙ same)
      ]

  load_relays-Same :
      (s : Direct Relay) (x : W × Link) → Same x (load_relays (host m) parse (s, x)).1
  unfolding load_relays
  load_relays-Same s x = elim (List-cases s.server_cache) [
    | inl e ↦ rw (load_relays, e) refl
    | inr (r, rs, e) ↦ rw (load_relays, e) refl
  ]

  connect-Same :
      (location : Text) (s : Direct Relay) (x : W × Link)
      → Deletes m
      → Same x (connect (host m) parse location (s, x)).1
  unfolding connect
  connect-Same location s x h = elim (Option-cases (wg_identity (host m) parse)) [
    | inl e ↦ rw (connect, e) refl
    | inr (identity, e) ↦
        let (r, (s', x')) = load_relays (host m) parse (s, x) in
        let same = load_relays-Same s x in
        elim (Option-cases r) [
          | inl f ↦ rw (connect, e, f) same
          | inr (rs, f) ↦
              let found = find_with matches rs location in
              rw (connect, e, f) (choose-Same identity found location s' x' h ∙ same)
        ]
  ]

  login-Same : (s : Direct Relay) (x : W × Link) → Same x (login (host m) parse (s, x)).1
  unfolding login
  login-Same s x = elim (Option-cases (wg_identity (host m) parse)) [
    | inl e ↦ rw (login, e) refl
    | inr (identity, e) ↦ rw (login, e) refl
  ]

  run_call-Same :
      (c : Call) (s : Direct Relay) (x : W × Link) → Deletes m → Same x (run_call c (s, x))
  unfolding run_call disconnect locations
  run_call-Same (connecting location) s x h = connect-Same location s x h
  run_call-Same disconnecting s x h = take_down-collided m wg_config_path x
  run_call-Same asking s x h = status-Same s x
  run_call-Same listing s x h = load_relays-Same s x
  run_call-Same logging_in s x h = login-Same s x

  -- Where `ip link del` works on an interface that is there, no call of any sequence of calls starts
  -- the tunnel while there is an interface, also where an earlier process has left one.
  pub run_calls-collided :
      (cs : List Call) (s : Direct Relay) (x : W × Link)
      → Deletes m
      → x.1.collided ≡ false
      → (run_calls cs (s, x)).1.1.collided ≡ false
  unfolding run_calls
  run_calls-collided [] s x h e = e
  run_calls-collided (c ∷ cs) s x h e =
      let (s', x') = run_call c (s, x) in run_calls-collided cs s' x' h (run_call-Same c s x h ∙ e)
