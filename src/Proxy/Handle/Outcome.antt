-- ===== src/Proxy/Handle/Outcome.antt =====
-- One connection from its start to its end, with the network fixed beforehand.
use tundler.Base.{
  ℕ, zero, suc, ◌+◌, ◌≡◌, Text, Option, none, some, List, [], ◌∷◌, codes, arith, ltb, if◌then◌else◌,
}
use tundler.Proxy.{Server, max_concurrent, u64, record_dial}
use tundler.Proxy.Request.{parse_connect}
use tundler.Proxy.Response.{connect_response, error_response}
use tundler.Proxy.Handle.{Phase, Input, accepted, closed, handle_step}

abbrev reply_list : Option Text → List Text
reply_list none = []
reply_list (some r) = r ∷ []

abbrev prepend : Option Text → Server × Phase × List Text → Server × Phase × List Text
prepend none r = r
prepend (some t) (s, p, ts) = (s, p, t ∷ ts)

-- So many steps of one connection, with what it writes.
handle_steps : ℕ → Input → Server → Phase → Server × Phase × List Text
handle_steps zero i s p = (s, p, [])
handle_steps (suc n) i s p =
    let (s', p', reply) = handle_step i s p in prepend reply (handle_steps n i s' p')

-- The whole of `handle`: five steps are enough for every path.
pub handle : Input → Server → Server × Phase × List Text
unfolding handle_steps handle_step
handle i s = handle_steps 5 i s accepted

-- The answer that a client is owed, read off the state of the server and the network.
pub answer : Input → Server → Text
answer i s =
    if ltb s.sem max_concurrent
    then elim (parse_connect i.sent) [
      | none ↦ error_response 400 (codes "Bad Request")
      | some (target, rest) ↦
          if s.draining
          then error_response 503 (codes "Service Unavailable (draining)")
          else if i.dial_ok
          then connect_response s.pod_name s.node_ip s.exit_ip
          else error_response 502 (codes "Bad Gateway")
    ]
    else error_response 503 (codes "Service Unavailable (overloaded)")

-- A connection that is served alone ends closed after one answer, the one that it is owed; the
-- token and the gauge of open tunnels are given back, and one more connection is counted.
pub handle_answers :
    (i : Input) (s : Server)
    → let (s', p, replies) = handle i s in
      (p ≡ closed)
      × (replies ≡ answer i s ∷ [])
      × (s'.sem ≡ s.sem)
      × (s'.open_tunnels ≡ s.open_tunnels)
      × (s'.total_connect ≡ u64 (s.total_connect + 1))
unfolding handle answer record_dial
handle_answers i s = ground arith
