-- ===== src/Proxy/Impersonate/Transport.antt =====
-- internal/proxy/impersonate.go and internal/proxy/impersonate_transport.go: the choice of a browser
-- profile, and the transport that fetches over a TLS connection with that browser's hello. SHA-256,
-- uTLS, `http2` and the network are parameters. The lock makes one step of each access to the map.
pub mod Owned
use tundler.Base.{
  ℕ, zero, suc, ◌+◌, ◌%◌, ◌≡◌, refl, ◌⊎◌, inl, inr, Text, Bool, true, false, ◌||◌, ◌&&◌, Option,
  none, some, List, [], ◌∷◌, ◌++◌, codes, text_eq, contains_byte, leb, ◌==◌, if◌then◌else◌, reverse,
}
use tundler.Proxy.Impersonate.{Url, Request, Fetched, failed, response}

-- `browserProfiles`
pub data Profile : Type 0 where
  chrome_120 firefox_120 safari_16_0 edge_106 : Profile

abbrev pub profile_count : ℕ
profile_count = 4

browser_profiles : ℕ → Profile
browser_profiles zero = chrome_120
browser_profiles (suc zero) = firefox_120
browser_profiles (suc (suc zero)) = safari_16_0
browser_profiles (suc (suc (suc _))) = edge_106

-- `PickProfile`; `sum` is the first eight bytes of the SHA-256 of a key, as a number.
pub pick_profile : (Text → ℕ) → Text → Profile
unfolding browser_profiles
pick_profile sum key = browser_profiles (sum key % profile_count)

-- A TLS client on a dialed connection, as `HandshakeAs` configures it, and an HTTP/2 connection over
-- it. A number stands for the identity of an object.
pub record UConn : Type 0 where
  pub raw : ℕ
  pub server_name : Text
  pub insecure_skip_verify : Bool
  pub hello : Profile

pub record ClientConn : Type 0 where
  pub id : ℕ
  pub tls : UConn

-- What the transport calls: the dialer, which may return no connection and no error, the handshake,
-- the protocol that it agreed on, and the two HTTP clients.
pub record Net (W : Type 0) : Type 0 where
  pub dial : Text → W → (Text ⊎ Option ℕ) × W
  pub handshake : UConn → W → Option Text × W
  pub negotiated_protocol : UConn → W → Text
  pub new_client_conn : UConn → W → (Text ⊎ ℕ) × W
  pub can_take_new_request : ClientConn → W → Bool
  pub h2_round_trip : ClientConn → Request → W → Fetched × W
  pub h1_write : UConn → Request → W → Option Text × W
  pub h1_read : UConn → Request → W → Fetched × W
  pub close : UConn → W → W
  pub close_h2 : ClientConn → W → W

abbrev pub Conns : Type 0
Conns = List (Text × ClientConn)

pub record Transport : Type 0 where
  pub hello : Profile
  pub insecure : Bool
  pub conns : Conns

-- `NewImpersonatingTransport`
pub new_impersonating_transport : Profile → Transport
new_impersonating_transport hello = record { hello = hello; insecure = false; conns = [] }

-- `t.conns[host]`, `delete(t.conns, host)` and the assignment.
abbrev pub lookup : Text → Conns → Option ClientConn
lookup host [] = none
lookup host ((k, conn) ∷ cs) =
    let rest = lookup host cs in if text_eq host k then some conn else rest

abbrev pub delete : Text → Conns → Conns
delete host [] = []
delete host ((k, conn) ∷ cs) =
    let rest = delete host cs in if text_eq host k then rest else (k, conn) ∷ rest

-- `storeH2`
unfoldable pub store_h2 : Text → ClientConn → Transport → Transport
store_h2 host conn t = record t { conns = (host, conn) ∷ delete host t.conns }

abbrev is_conn : ClientConn → Option ClientConn → Bool
is_conn conn none = false
is_conn conn (some other) = conn.id == other.id

abbrev all_digits : Text → Bool
all_digits [] = true
all_digits (c ∷ s) = leb 48 c && leb c 57 && all_digits s

-- `URL.Hostname` and `URL.Port`: the port is what follows the last colon, when that is digits.
abbrev split_port : Text → Text × Text
split_port [] = ([], [])
split_port (c ∷ s) =
    let (host, port) = split_port s in if c == 58 && all_digits s then ([], s) else (c ∷ host, port)

abbrev without_last : Text → Text
without_last [] = []
without_last (c ∷ []) = []
without_last (c ∷ s) = c ∷ without_last s

abbrev ends_in : ℕ → Text → Bool
ends_in b [] = false
ends_in b (c ∷ []) = c == b
ends_in b (c ∷ s) = ends_in b s

abbrev unbracket : Text → Text
unbracket [] = []
unbracket (c ∷ s) = if c == 91 && ends_in 93 s then without_last s else c ∷ s

unfoldable pub hostname : Url → Text
hostname u = unbracket (split_port u.host).0

-- `portOr`
abbrev port_or : Text → Text → Text
port_or p def = if text_eq p [] then def else p

-- `net.JoinHostPort`
abbrev join_host_port : Text → Text → Text
join_host_port host port =
    if contains_byte 58 host
    then codes "[" ++ host ++ codes "]:" ++ port
    else host ++ codes ":" ++ port

unfoldable dial_addr : Url → Text
unfolding hostname
dial_addr u = join_host_port (hostname u) (port_or (split_port u.host).1 (codes "443"))

module _ {W : Type 0} (n : Net W) where
  -- `cachedH2`
  pub cached_h2 : Text → Transport → W → Option ClientConn × Transport
  cached_h2 host t w = elim (lookup host t.conns) [
    | none ↦ (none, t)
    | some conn ↦
        if n.can_take_new_request conn w
        then (some conn, t)
        else (none, record t { conns = delete host t.conns })
  ]

  -- `dropH2`
  pub drop_h2 : Text → ClientConn → Transport → W → Transport × W
  drop_h2 host conn t w = (
    if is_conn conn (lookup host t.conns) then record t { conns = delete host t.conns } else t,
    n.close_h2 conn w,
  )

  -- `HandshakeAs`
  handshake_as : UConn → W → Option Text × W
  handshake_as u w =
      let (e, w') = n.handshake u w in
      elim e [ none ↦ (none, w') | some x ↦ (some x, n.close u w') ]

  -- The two ways to send a request over a new connection.
  over_h2 : Text → UConn → Transport → Request → W → Fetched × Transport × W
  over_h2 host u t q w =
      let (made, w') = n.new_client_conn u w in
      elim made [
        | inl e ↦ (
          failed (codes "impersonate: h2 client conn " ++ host ++ codes ": " ++ e),
          t,
          n.close u w',
        )
        | inr id ↦
            let conn : ClientConn = record { id = id; tls = u } in
            let (got, w'') = n.h2_round_trip conn q w' in (got, store_h2 host conn t, w'')
      ]

  over_h1 : Text → UConn → Request → W → Fetched × W
  over_h1 host u q w =
      let (e, w') = n.h1_write u q w in
      let (got, w'') = n.h1_read u q w' in
      elim e [
        | some x ↦
            (failed (codes "impersonate: h1 write " ++ host ++ codes ": " ++ x), n.close u w')
        | none ↦ elim got [
          | failed x ↦
              (failed (codes "impersonate: h1 read " ++ host ++ codes ": " ++ x), n.close u w'')
          | response resp ↦ (response resp, w'')
        ]
      ]

  -- The `switch` of `RoundTrip` on the protocol that the handshake agreed on.
  send_over : Text → UConn → Transport → Request → W → Fetched × Transport × W
  unfolding over_h2 over_h1
  send_over host u t q w =
      let (got, w') = over_h1 host u q w in
      if text_eq (n.negotiated_protocol u w) (codes "h2")
      then over_h2 host u t q w
      else (got, t, w')

  -- The part of `RoundTrip` after the dial.
  on_dialed : Text → ℕ → Transport → Request → W → Fetched × Transport × W
  unfolding handshake_as send_over
  on_dialed host raw t q w =
      let u : UConn = record {
        raw = raw;
        server_name = host;
        insecure_skip_verify = t.insecure;
        hello = t.hello;
      } in
      let (e, w') = handshake_as u w in
      elim e [
        | some x ↦ (failed (codes "impersonate: tls handshake " ++ host ++ codes ": " ++ x), t, w')
        | none ↦ send_over host u t q w'
      ]

  dial_and_send : Text → Transport → Request → W → Fetched × Transport × W
  unfolding dial_addr on_dialed
  dial_and_send host t q w =
      let addr = dial_addr q.url in
      let (dialed, w') = n.dial addr w in
      elim dialed [
        | inl e ↦ (failed (codes "impersonate: dial " ++ addr ++ codes ": " ++ e), t, w')
        | inr none ↦
            (failed (codes "impersonate: dialer returned no conn and no error for " ++ addr), t, w')
        | inr (some raw) ↦ on_dialed host raw t q w'
      ]

  -- The part of `RoundTrip` on a connection from the cache.
  on_cached : Text → ClientConn → Transport → Request → W → Fetched × Transport × W
  unfolding drop_h2 dial_and_send
  on_cached host conn t q w =
      let (got, w') = n.h2_round_trip conn q w in
      elim got [
        | failed e ↦ let (t', w'') = drop_h2 host conn t w' in dial_and_send host t' q w''
        | response resp ↦ (response resp, t, w')
      ]

  -- `RoundTrip`; the text of its first error names the URL too.
  pub round_trip : Transport → Request → W → Fetched × Transport × W
  unfolding hostname cached_h2 dial_and_send on_cached
  round_trip t q w =
      let host = hostname q.url in
      let (found, t') = cached_h2 host t w in
      if text_eq host []
      then (failed (codes "impersonate: request URL has no host"), t, w)
      else elim found [ none ↦ dial_and_send host t' q w | some conn ↦ on_cached host conn t' q w ]
