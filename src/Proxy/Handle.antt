-- ===== src/Proxy/Handle.antt =====
-- proxy.go, `handle`: one client connection, in the order of the source. The body is cut where it
-- waits (for the client's bytes, for the dial, for a write, for the end of the tunnel); between
-- two waits it is one step on the server, since it only adds to counters. The network is an
-- input: the client's bytes, and whether the dial and the write succeed.
pub mod Outcome
use tundler.Base.{
  ℕ, ◌+◌, ◌-◌, ◌<◌, Text, Bool, true, false, Option, none, some, codes, ltb, if◌then◌else◌,
}
use tundler.Proxy.{Server, max_concurrent, u64, record_dial}
use tundler.Proxy.Request.{parse_connect}
use tundler.Proxy.Response.{connect_response, error_response}

-- How far a connection has come.
pub data Phase : Type 0 where
  accepted admitted dialed tunnel closed : Phase
  parsed : Text → Phase

-- What the network does next to a connection.
pub record Input : Type 0 where
  pub sent : Text  -- the bytes of the client up to its end or the deadline
  pub dial_ok : Bool
  pub write_ok : Bool
  pub now : ℕ

abbrev bump_connect : Server → Server
bump_connect s = record s { total_connect = u64 (s.total_connect + 1) }

abbrev bump_error : Server → Server
bump_error s = record s { total_error = u64 (s.total_error + 1) }

-- The deferred read of the semaphore.
abbrev release : Server → Server
release s = record s { sem = s.sem - 1 }

abbrev pub Result : Type 0
Result = Server × Phase × Option Text

-- Up to the attempt to take a token.
admit : Server → Result
admit s =
    let s' = bump_connect s in
    if ltb s'.sem max_concurrent then (record s' { sem = s'.sem + 1 }, admitted, none) else (
      record s' { total_overloaded = u64 (s'.total_overloaded + 1) },
      closed,
      some (error_response 503 (codes "Service Unavailable (overloaded)")),
    )

-- The parse of the request, and the test of the drain flag.
parse : Input → Server → Result
parse i s = elim (parse_connect i.sent) [
  | none ↦ (release (bump_error s), closed, some (error_response 400 (codes "Bad Request")))
  | some (target, rest) ↦
      if s.draining
      then (
        release (record s { total_draining = u64 (s.total_draining + 1) }),
        closed,
        some (error_response 503 (codes "Service Unavailable (draining)")),
      )
      else (s, parsed target, none)
]

-- The dial of the upstream.
dial : Input → Server → Result
dial i s =
    let s' = record_dial i.dial_ok i.now s in
    if i.dial_ok
    then (s', dialed, none)
    else (release (bump_error s'), closed, some (error_response 502 (codes "Bad Gateway")))

-- The answer to the client, and the start of the tunnel.
establish : Input → Server → Result
establish i s =
    let reply = some (connect_response s.pod_name s.node_ip s.exit_ip) in
    if i.write_ok
    then (
      record s { total_success = u64 (s.total_success + 1); open_tunnels = s.open_tunnels + 1 },
      tunnel,
      reply,
    )
    else (release (bump_error s), closed, reply)

-- Both directions of the splice have ended.
finish : Server → Result
finish s = (release (record s { open_tunnels = s.open_tunnels - 1 }), closed, none)

-- The next step of a connection; `some` reply is what it tries to write.
unfoldable pub handle_step : Input → Server → Phase → Result
unfolding admit parse dial establish finish
handle_step i s accepted = admit s
handle_step i s admitted = parse i s
handle_step i s (parsed target) = dial i s
handle_step i s dialed = establish i s
handle_step i s tunnel = finish s
handle_step i s closed = (s, closed, none)
