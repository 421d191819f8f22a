-- ===== src/Proxy/Impersonate/Forward.antt =====
-- The requests that `ServeHTTP` sends to the upstream, and what it answers.
use tundler.Base.{
  ◌≡◌, refl, sym, ap, ◌∙◌, ◌⊎◌, inl, inr, Text, true, false, ◌||◌, List, [], ◌∷◌, ◌++◌, codes,
  text_eq, text_eq→eq, text_eq_refl, trim_space, Bool-cases, Sum-cases, arith, if◌then◌else◌,
}
use mathlib.Core.List.{append_assoc, append-nil}
use tundler.Proxy.Impersonate.{
  Header, Url, Request, Response, Fetched, response, failed, values, append, remove, get_header,
  add_all, copy_headers, canonical_header_key, is_hop_by_hop, target_host_header, is_not_bare,
  outgoing, target, relayed, answer, serve_http,
}

-- What a header holds under a name, in whatever form its entries spell the name.
pub gather : Text → Header → List Text
gather c [] = []
gather c ((k, vs) ∷ h) =
    let rest = gather c h in if text_eq c (canonical_header_key k) then vs ++ rest else rest

values-append :
    (c k v : Text) (h : Header)
    → values c (append k v h) ≡ (if text_eq c k then values c h ++ (v ∷ []) else values c h)
unfolding values append
values-append c k v [] = ground arith
values-append c k v ((key, vs) ∷ h) = elim (Bool-cases (text_eq k key)) [
  | inl e ↦ rw (e, text_eq→eq k key e) (ground arith)
  | inr e ↦ elim (Bool-cases (text_eq c key)) [
    | inl f ↦ rw (e, f) (grind (arith, text_eq→eq c key f, text_eq→eq c k, text_eq_refl c))
    | inr f ↦ rw (e, f) (values-append c k v h)
  ]
]

values-remove :
    (c k : Text) (h : Header) → values c (remove k h) ≡ (if text_eq c k then [] else values c h)
unfolding values remove
values-remove c k [] = ground arith
values-remove c k ((key, vs) ∷ h) = elim (Bool-cases (text_eq k key)) [
  | inl e ↦ rw (e, sym (text_eq→eq k key e)) (ground (arith, values-remove c k h))
  | inr e ↦ elim (Bool-cases (text_eq c key)) [
    | inl f ↦ rw (e, f) (grind (arith, text_eq→eq c key f, text_eq→eq c k, text_eq_refl c))
    | inr f ↦ rw (e, f) (values-remove c k h)
  ]
]

values-add_all :
    (c k : Text) (vs : List Text) (h : Header)
    → values c (add_all k vs h)
      ≡ (if text_eq c (canonical_header_key k) then values c h ++ vs else values c h)
values-add_all c k [] h = grind (arith, append-nil (values c h))
values-add_all c k (v ∷ vs) h =
    let key = canonical_header_key k in
    values-add_all c k vs (append key v h) ∙ elim (Bool-cases (text_eq c key)) [
      | inl e ↦ rw (e, values-append c key v h, e) (append_assoc (values c h) (v ∷ []) vs)
      | inr e ↦ rw (e, values-append c key v h, e)
    ]

values-copy_headers :
    (c : Text) (dst src : Header)
    → values c (copy_headers dst src)
      ≡ (if is_hop_by_hop c then values c dst else values c dst ++ gather c src)
unfolding copy_headers gather
values-copy_headers c dst [] = grind (arith, append-nil (values c dst))
values-copy_headers c dst ((k, vs) ∷ src) =
    let key = canonical_header_key k in
    elim (Bool-cases (is_hop_by_hop key)) [
      | inl e ↦ rw e (
          values-copy_headers c dst src ∙ elim (Bool-cases (text_eq c key)) [
            | inl f ↦ rw (text_eq→eq c key f, e) refl
            | inr f ↦ rw f
          ])
      | inr e ↦
          rw (e, values-copy_headers c (add_all k vs dst) src, values-add_all c k vs dst)
            (elim (Bool-cases (text_eq c key)) [
              | inl f ↦
                  let g = ap is_hop_by_hop (text_eq→eq c key f) ∙ e in
                  rw (f, g, append_assoc (values c dst) vs (gather c src))
              | inr f ↦ rw f
            ])
    ]

-- The values of a header are those of another, without the headers of one connection.
abbrev pub IsCopied : Header → Header → Type 0
IsCopied dst src = (c : Text) → values c dst ≡ (if is_hop_by_hop c then [] else gather c src)

copy_headers-IsCopied : (src : Header) → IsCopied (copy_headers [] src) src
unfolding values
copy_headers-IsCopied src c = values-copy_headers c [] src

-- The host that the client names.
abbrev pub target_host : Request → Text
target_host r = trim_space (get_header target_host_header r.header)

-- What the server may send for a request: the same method and body, over https, to the bare host
-- that the client names, with the client's headers but those of its own connection and the one that
-- names the host.
abbrev pub IsForward : Request → Request → Type 0
IsForward r q =
    (q.url.scheme ≡ codes "https")
    × (q.url.host ≡ target_host r)
    × (q.host ≡ target_host r)
    × (is_not_bare (target_host r) ≡ false)
    × (text_eq (target_host r) [] ≡ false)
    × (q.method ≡ r.method)
    × (q.body ≡ r.body)
    × ((c : Text)
        → values c q.header
          ≡ (if text_eq c target_host_header || is_hop_by_hop c then [] else gather c r.header))

outgoing-header :
    (host : Text) (u : Url) (r : Request) (c : Text)
    → values c (outgoing host u r).header
      ≡ (if text_eq c target_host_header || is_hop_by_hop c then [] else gather c r.header)
unfolding outgoing
outgoing-header host u r c = elim (Bool-cases (text_eq c target_host_header)) [
  | inl e ↦ rw (values-remove c target_host_header (copy_headers [] r.header), e)
  | inr e ↦
      rw (values-remove c target_host_header (copy_headers [] r.header), e)
        (copy_headers-IsCopied r.header c)
]

outgoing-IsForward :
    (u : Url) (r : Request)
    → text_eq (target_host r) [] ≡ false
    → is_not_bare (target_host r) ≡ false
    → (u.scheme ≡ codes "https") × (u.host ≡ target_host r)
    → IsForward r (outgoing (target_host r) u r)
unfolding outgoing
outgoing-IsForward u r e f k =
    (k.0, k.1, refl, f, e, refl, refl, outgoing-header (target_host r) u r)

-- What the client gets for what the round trip returned.
abbrev pub IsRelayed : Fetched → Response → Type 0
IsRelayed (response up) reply =
    (reply.status_code ≡ up.status_code) × (reply.body ≡ up.body) × IsCopied reply.header up.header
IsRelayed (failed e) reply = reply.status_code ≡ 502

answer-IsRelayed : (got : Fetched) → IsRelayed got (answer got)
unfolding answer relayed
answer-IsRelayed (response up) = (refl, refl, copy_headers-IsCopied up.header)
answer-IsRelayed (failed e) = refl

module _ {W : Type 0} (new_request : Url → Text ⊎ Url)
    (round_trip : Request → W → Fetched × W) where
  -- The parse of a target gives a URL of the same scheme and host.
  abbrev pub KeepsTarget : Type 0
  KeepsTarget = (u v : Url) → new_request u ≡ inr v → (v.scheme ≡ u.scheme) × (v.host ≡ u.host)

  -- Why a request is refused.
  abbrev pub IsRefused : Request → Type 0
  IsRefused r =
      (text_eq (target_host r) [] ≡ true)
      ⊎ (is_not_bare (target_host r) ≡ true)
      ⊎ ((e : Text) × (new_request (target (target_host r) r) ≡ inl e))

  serve_http-accepted :
      (u : Url) (r : Request) (w : W)
      → text_eq (target_host r) [] ≡ false
      → is_not_bare (target_host r) ≡ false
      → new_request (target (target_host r) r) ≡ inr u
      → let (got, w') = round_trip (outgoing (target_host r) u r) w in
        serve_http new_request round_trip r w ≡ (answer got, w')
  unfolding serve_http
  serve_http-accepted u r w e f g = rw (e, f, g)

  -- Where `http.NewRequest` keeps the scheme and the host of the URL that it parses: a request that
  -- names no host, or not a bare one, or one that `NewRequest` refuses, is answered 400 and nothing
  -- is fetched. Any other makes one round trip, of a request over https to the host that it names,
  -- with its method, body and headers, but none of the hop-by-hop headers and not the one that names
  -- the host; the client gets the upstream's status, body and headers, but the hop-by-hop ones, or
  -- 502 where the round trip fails.
  pub serve_http-forwards :
      KeepsTarget
      → (r : Request) (w : W)
      → let (reply, w') = serve_http new_request round_trip r w in
        (IsRefused r × (reply.status_code ≡ 400) × (w' ≡ w))
        ⊎ ((q : Request) × IsForward r q
            × IsRelayed (round_trip q w).0 reply
            × (w' ≡ (round_trip q w).1))
  unfolding serve_http
  serve_http-forwards keeps r w = elim (Bool-cases (text_eq (target_host r) [])) [
    | inl e ↦ rw e (inl (inl refl, refl, refl))
    | inr e ↦ elim (Bool-cases (is_not_bare (target_host r))) [
      | inl f ↦ rw (e, f) (inl (inr (inl refl), refl, refl))
      | inr f ↦ elim (Sum-cases (new_request (target (target_host r) r))) [
        | inl (x, g) ↦ rw (e, f, g) (inl (inr (inr (x, refl)), refl, refl))
        | inr (u, g) ↦
            let q = outgoing (target_host r) u r in
            rw (serve_http-accepted u r w e f g) (
              inr (
                q,
                outgoing-IsForward u r e f (keeps (target (target_host r) r) u g),
                answer-IsRelayed (round_trip q w).0,
                refl,
              ))
      ]
    ]
  ]
