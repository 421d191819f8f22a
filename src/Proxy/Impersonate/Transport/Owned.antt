-- ===== src/Proxy/Impersonate/Transport/Owned.antt =====
-- Which connections the transport sends a request to.
use tundler.Base.{
  ℕ, ◌≡◌, refl, ◌∙◌, ap, ◌⊎◌, inl, inr, Text, false, Option, none, some, List, [], ◌∷◌, text_eq,
  text_eq→eq, Bool-cases, Option-cases, Sum-cases, All, arith, codes,
}
use mathlib.Core.Path.{subst}
use tundler.Proxy.Impersonate.{Request, Response, Fetched, failed, response}
use tundler.Proxy.Impersonate.Transport.{
  Profile, UConn, ClientConn, Net, Conns, Transport, new_impersonating_transport, lookup, delete,
  store_h2, hostname, cached_h2, drop_h2, is_conn, handshake_as, over_h2, over_h1, send_over,
  dial_addr, on_dialed, dial_and_send, on_cached, round_trip,
}

Fetched-cases : (f : Fetched) → ((r : Response) × (f ≡ response r)) ⊎ ((e : Text) × (f ≡ failed e))
Fetched-cases (response r) = inl (r, refl)
Fetched-cases (failed e) = inr (e, refl)

-- A network that keeps a record of the handshakes that succeed and of the requests that are written to
-- a connection, the latest first.
pub data Event : Type 0 where
  shaken : UConn → Event
  sent : UConn → Request → Event

-- The record after a handshake, from its error.
abbrev shook : UConn → Option Text → List Event → List Event
shook u none log = shaken u ∷ log
shook u (some e) log = log

abbrev pub recorded : {W : Type 0} → Net W → Net (W × List Event)
recorded n = record {
  dial = λ a x. (let (r, w) = n.dial a x.0 in (r, (w, x.1)));
  handshake = λ u x. (let (r, w) = n.handshake u x.0 in (r, (w, shook u r x.1)));
  negotiated_protocol = λ u x. n.negotiated_protocol u x.0;
  new_client_conn = λ u x. (let (r, w) = n.new_client_conn u x.0 in (r, (w, x.1)));
  can_take_new_request = λ c x. n.can_take_new_request c x.0;
  h2_round_trip = λ c q x. (let (r, w) = n.h2_round_trip c q x.0 in (r, (w, sent c.tls q ∷ x.1)));
  h1_write = λ u q x. (let (r, w) = n.h1_write u q x.0 in (r, (w, sent u q ∷ x.1)));
  h1_read = λ u q x. (let (r, w) = n.h1_read u q x.0 in (r, (w, x.1)));
  close = λ u x. (n.close u x.0, x.1);
  close_h2 = λ c x. (n.close_h2 c x.0, x.1);
}

-- Whether the handshake of a TLS client has succeeded.
abbrev pub WasShaken : UConn → List Event → Type 0
WasShaken u [] = ⊥
WasShaken u (shaken v ∷ log) = (v ≡ u) ⊎ WasShaken u log
WasShaken u (sent v q ∷ log) = WasShaken u log

-- A TLS client that verifies the certificate of a host, and shows one browser's hello.
abbrev pub IsFor : Profile → Text → UConn → Type 0
IsFor p host u = (u.server_name ≡ host) × (u.hello ≡ p) × (u.insecure_skip_verify ≡ false)

-- Such a client after its handshake.
abbrev IsGood : Profile → List Event → Text → UConn → Type 0
IsGood p log host u = IsFor p host u × WasShaken u log

-- Each request was written to a client for its host, whose handshake had succeeded before.
abbrev pub IsRight : Profile → List Event → Type 0
IsRight p [] = Unit
IsRight p (shaken u ∷ log) = IsRight p log
IsRight p (sent u q ∷ log) = IsGood p log (hostname q.url) u × IsRight p log

-- The transport's connections are for the hosts that they are kept under.
abbrev pub IsOwned : Profile → List Event → Transport → Type 0
IsOwned p log t =
    (t.hello ≡ p) × (t.insecure ≡ false) × All (λ entry. IsGood p log entry.0 entry.1.tls) t.conns

module _ (p : Profile) (log : List Event) where
  abbrev Kept : Conns → Type 0
  Kept cs = All (λ (entry : Text × ClientConn). IsGood p log entry.0 entry.1.tls) cs

  delete-Kept : (host : Text) (cs : Conns) → Kept cs → Kept (delete host cs)
  delete-Kept host [] k = k
  delete-Kept host ((key, c) ∷ cs) k = elim (Bool-cases (text_eq host key)) [
    | inl e ↦ rw e (delete-Kept host cs k.1)
    | inr e ↦ rw e (k.0, delete-Kept host cs k.1)
  ]

  IsFound : Text → Option ClientConn → Type 0
  IsFound host none = Unit
  IsFound host (some c) = IsGood p log host c.tls

  lookup-IsFound : (host : Text) (cs : Conns) → Kept cs → IsFound host (lookup host cs)
  unfolding IsFound
  lookup-IsFound host [] k = tt
  lookup-IsFound host ((key, c) ∷ cs) k = elim (Bool-cases (text_eq host key)) [
    | inl e ↦ rw (e, text_eq→eq host key e) k.0
    | inr e ↦ rw e (lookup-IsFound host cs k.1)
  ]

Kept-more :
    (p : Profile) (log : List Event) (u : UConn) (cs : Conns)
    → Kept p log cs
    → Kept p (shaken u ∷ log) cs
Kept-more p log u [] k = k
Kept-more p log u ((key, c) ∷ cs) ((f, e), k) = ((f, inr e), Kept-more p log u cs k)

module _ {W : Type 0} (n : Net W) (p : Profile) where
  -- Every request so far went to a connection of its host.
  abbrev pub IsSound : Transport × (W × List Event) → Type 0
  IsSound (t, w) = IsOwned p w.1 t × IsRight p w.1

  abbrev After : Fetched × Transport × (W × List Event) → Type 0
  After (got, t, w) = IsSound (t, w)

  over_h2-After :
      (u : UConn) (t : Transport) (q : Request) (w : W × List Event)
      → IsGood p w.1 (hostname q.url) u
      → IsSound (t, w)
      → After (over_h2 (recorded n) (hostname q.url) u t q w)
  unfolding over_h2 store_h2
  over_h2-After u t q w f s = elim (Sum-cases (n.new_client_conn u w.0).0) [
    | inl (x, e) ↦ rw (over_h2, e) s
    | inr (id, e) ↦
        rw (over_h2, e)
          ((s.0.0, s.0.1, (f, delete-Kept p w.1 (hostname q.url) t.conns s.0.2)), (f, s.1))
  ]

  over_h1-log :
      (host : Text) (u : UConn) (q : Request) (w : W × List Event)
      → (over_h1 (recorded n) host u q w).1.1 ≡ sent u q ∷ w.1
  unfolding over_h1
  over_h1-log host u q w = ground arith

  send_over-After :
      (u : UConn) (t : Transport) (q : Request) (w : W × List Event)
      → IsGood p w.1 (hostname q.url) u
      → IsSound (t, w)
      → After (send_over (recorded n) (hostname q.url) u t q w)
  unfolding send_over
  send_over-After u t q w f s =
      elim (Bool-cases (text_eq (n.negotiated_protocol u w.0) (codes "h2"))) [
        | inl e ↦ rw (send_over, e) (over_h2-After u t q w f s)
        | inr e ↦ rw (send_over, e, over_h1-log (hostname q.url) u q w) (s.0, (f, s.1))
      ]

  handshake_as-log :
      (u : UConn) (w : W × List Event)
      → let (e, w') = handshake_as (recorded n) u w in w'.1 ≡ shook u e w.1
  unfolding handshake_as
  handshake_as-log u w = ground arith

  on_dialed-After :
      (raw : ℕ) (t : Transport) (q : Request) (w : W × List Event)
      → IsSound (t, w)
      → After (on_dialed (recorded n) (hostname q.url) raw t q w)
  unfolding on_dialed
  on_dialed-After raw t q w s =
      let u : UConn = record {
        raw = raw;
        server_name = hostname q.url;
        insecure_skip_verify = t.insecure;
        hello = t.hello;
      } in
      let w' = (handshake_as (recorded n) u w).1 in
      let after = handshake_as-log u w in
      elim (Option-cases (handshake_as (recorded n) u w).0) [
        | inr (x, e) ↦
            let log : w'.1 ≡ w.1 = after ∙ ap (λ r. shook u r w.1) e in rw (on_dialed, e, log) s
        | inl e ↦
            let log : w'.1 ≡ shaken u ∷ w.1 = after ∙ ap (λ r. shook u r w.1) e in
            let good : IsGood p w'.1 (hostname q.url) u = rw log ((refl, s.0.0, s.0.1), inl refl) in
            let sound : IsSound (t, w') =
              rw log ((s.0.0, s.0.1, Kept-more p w.1 u t.conns s.0.2), s.1) in
            rw (on_dialed, e) (send_over-After u t q w' good sound)
      ]

  dial_and_send-After :
      (t : Transport) (q : Request) (w : W × List Event)
      → IsSound (t, w)
      → After (dial_and_send (recorded n) (hostname q.url) t q w)
  unfolding dial_and_send
  dial_and_send-After t q w s = elim (Sum-cases (n.dial (dial_addr q.url) w.0).0) [
    | inl (x, e) ↦ rw (dial_and_send, e) s
    | inr (found, e) ↦ elim (Option-cases found) [
      | inl f ↦ rw (dial_and_send, e, f) s
      | inr (raw, f) ↦
          rw (dial_and_send, e, f)
            (on_dialed-After raw t q ((n.dial (dial_addr q.url) w.0).1, w.1) s)
    ]
  ]

  cached_h2-IsFound :
      (host : Text) (t : Transport) (w : W × List Event)
      → IsOwned p w.1 t
      → let (found, t') = cached_h2 (recorded n) host t w in
        IsOwned p w.1 t' × IsFound p w.1 host found
  unfolding cached_h2 IsFound
  cached_h2-IsFound host t w s =
      let f = lookup-IsFound p w.1 host t.conns s.2 in
      elim (Option-cases (lookup host t.conns)) [
        | inl e ↦ rw (cached_h2, e) (s, tt)
        | inr (c, e) ↦
            let g = subst (λ o. IsFound p w.1 host o) e f in
            elim (Bool-cases (n.can_take_new_request c w.0)) [
              | inl h ↦ rw (cached_h2, e, h) (s, g)
              | inr h ↦ rw (cached_h2, e, h) ((s.0, s.1, delete-Kept p w.1 host t.conns s.2), tt)
            ]
      ]

  drop_h2-IsSound :
      (host : Text) (c : ClientConn) (t : Transport) (w : W × List Event)
      → IsSound (t, w)
      → IsSound (drop_h2 (recorded n) host c t w)
  unfolding drop_h2
  drop_h2-IsSound host c t w s = elim (Bool-cases (is_conn c (lookup host t.conns))) [
    | inl e ↦ rw (drop_h2, e) ((s.0.0, s.0.1, delete-Kept p w.1 host t.conns s.0.2), s.1)
    | inr e ↦ rw (drop_h2, e) s
  ]

  on_cached-After :
      (c : ClientConn) (t : Transport) (q : Request) (w : W × List Event)
      → IsGood p w.1 (hostname q.url) c.tls
      → IsSound (t, w)
      → After (on_cached (recorded n) (hostname q.url) c t q w)
  unfolding on_cached
  on_cached-After c t q w f s =
      let w' : W × List Event = ((n.h2_round_trip c q w.0).1, sent c.tls q ∷ w.1) in
      let s' : IsSound (t, w') = (s.0, (f, s.1)) in
      elim (Fetched-cases (n.h2_round_trip c q w.0).0) [
        | inl (resp, e) ↦ rw (on_cached, e) s'
        | inr (x, e) ↦
            let (t', w'') = drop_h2 (recorded n) (hostname q.url) c t w' in
            rw (on_cached, e)
              (dial_and_send-After t' q w'' (drop_h2-IsSound (hostname q.url) c t w' s'))
      ]

  round_trip-After :
      (t : Transport) (q : Request) (w : W × List Event)
      → IsSound (t, w)
      → After (round_trip (recorded n) t q w)
  unfolding round_trip IsFound
  round_trip-After t q w s =
      let host = hostname q.url in
      let (found, t') = cached_h2 (recorded n) host t w in
      let f = cached_h2-IsFound host t w s.0 in
      elim (Bool-cases (text_eq host [])) [
        | inl e ↦ rw (round_trip, e) s
        | inr e ↦ elim (Option-cases found) [
          | inl g ↦ rw (round_trip, e, g) (dial_and_send-After t' q w (f.0, s.1))
          | inr (c, g) ↦
              rw (round_trip, e, g)
                (on_cached-After c t' q w (subst (λ o. IsFound p w.1 host o) g f.1) (f.0, s.1))
        ]
      ]

-- The requests that are made one after another, on what the earlier ones leave.
pub round_trips : {W : Type 0} → Net W → Transport → List Request → W → Transport × W
round_trips n t [] w = (t, w)
round_trips n t (q ∷ qs) w = let (got, t', w') = round_trip n t q w in round_trips n t' qs w'

round_trips-IsSound :
    {W : Type 0} (n : Net W) (p : Profile) (t : Transport) (qs : List Request) (w : W × List Event)
    → IsSound n p (t, w)
    → IsSound n p (round_trips (recorded n) t qs w)
unfolding round_trips
round_trips-IsSound n p t [] w s = s
round_trips-IsSound n p t (q ∷ qs) w s =
    let (got, t', w') = round_trip (recorded n) t q w in
    round_trips-IsSound n p t' qs w' (round_trip-After n p t q w s)

-- However many requests a new transport makes, on any network: each that it writes to a connection,
-- new or kept from an earlier request, goes to one whose handshake had succeeded by then, named the
-- host of the request's URL, showed the hello of the transport's profile, and verified the
-- certificate.
pub round_trips-IsRight :
    {W : Type 0} (n : Net W) (p : Profile) (qs : List Request) (w : W)
    → IsRight p (round_trips (recorded n) (new_impersonating_transport p) qs (w, [])).1.1
unfolding new_impersonating_transport
round_trips-IsRight n p qs w =
    (round_trips-IsSound n p (new_impersonating_transport p) qs (w, []) ((refl, refl, tt), tt)).1
