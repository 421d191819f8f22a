-- ===== src/Proxy/Limits.antt =====
-- Any number of connections at once: the limiter, the gauge of open tunnels and the counters of
-- the proxy, in every interleaving of the handlers' steps with the calls of other goroutines.
use native.Mathlib.Nat.{add_assoc, add-zero}
use tundler.Base.{ℕ, zero, suc, ◌+◌, ◌≤◌, ◌≡◌, Text, Bool, List, [], ◌∷◌, arith}
use tundler.Proxy.{
  Server, max_concurrent, u64, new, record_dial, set_exit_ip, set_dialer, set_draining,
}
use tundler.Proxy.Handle.{
  Phase, Input, accepted, admitted, parsed, dialed, tunnel, closed, handle_step,
}

-- The server with its connections.
pub record Proxy : Type 0 where
  pub server : Server
  pub conns : List Phase

-- What happens next: a client connects, the connection at a place takes its next step, or another
-- part of the process calls a method.
pub data Event : Type 0 where
  connects : Event
  proceeds : ℕ → Input → Event
  drains dials : Bool → Event
  exit_ips : Text → Event

-- The step of the connection at a place.
advance : Input → ℕ → Server → List Phase → Server × List Phase
advance i k s [] = (s, [])
advance i zero s (p ∷ ps) = let (s', p', reply) = handle_step i s p in (s', p' ∷ ps)
advance i (suc k) s (p ∷ ps) = let (s', ps') = advance i k s ps in (s', p ∷ ps')

pub step : Event → Proxy → Proxy
step connects x = record x { conns = accepted ∷ x.conns }
step (proceeds k i) x =
    let (s, ps) = advance i k x.server x.conns in record { server = s; conns = ps }
step (drains b) x = record x { server = set_draining b x.server }
step (dials b) x = record x { server = set_dialer b x.server }
step (exit_ips ip) x = record x { server = set_exit_ip ip x.server }

pub run : List Event → Proxy → Proxy
run [] x = x
run (e ∷ es) x = run es (step e x)

-- Connections that hold a token, that are in a tunnel, that have not been counted, and that have
-- been counted and have not come to an outcome.
abbrev pub holds : Phase → ℕ
holds accepted = 0
holds closed = 0
holds _ = 1

abbrev pub in_tunnel : Phase → ℕ
in_tunnel tunnel = 1
in_tunnel _ = 0

abbrev pub undecided : Phase → ℕ
undecided admitted = 1
undecided (parsed t) = 1
undecided dialed = 1
undecided _ = 0

abbrev pub total : (Phase → ℕ) → List Phase → ℕ
total f [] = 0
total f (p ∷ ps) = f p + total f ps

-- The outcomes that the counters have seen.
abbrev pub outcomes : Server → ℕ
outcomes s = s.total_success + s.total_error + s.total_draining + s.total_overloaded

-- The server agrees with connections of which so many hold a token, and so on.
pub record Agrees (s : Server) (held busy pending : ℕ) : Type 0 where
  pub sem_exact : s.sem ≡ held
  pub sem_bounded : held ≤ max_concurrent
  pub tunnels_exact : s.open_tunnels ≡ busy
  pub counted : u64 (outcomes s + pending) ≡ s.total_connect

-- The counts may be written in another order.
Agrees-regroup :
    {s : Server} {a b c a' b' c' : ℕ}
    → Agrees s a b c
    → a ≡ a'
    → b ≡ b'
    → c ≡ c'
    → Agrees s a' b' c'
Agrees-regroup h p q r = omega (arith, h, p, q, r)

-- One step moves a connection and the counters together, whatever the others hold.
handle_step-Agrees :
    (i : Input) (s : Server) (p : Phase) (held busy pending : ℕ)
    → Agrees s (holds p + held) (in_tunnel p + busy) (undecided p + pending)
    → let (s', p', reply) = handle_step i s p in
      Agrees s' (holds p' + held) (in_tunnel p' + busy) (undecided p' + pending)
unfolding handle_step record_dial
handle_step-Agrees i s accepted held busy pending h = ground arith
handle_step-Agrees i s admitted held busy pending h = ground arith
handle_step-Agrees i s (parsed t) held busy pending h = ground arith
handle_step-Agrees i s dialed held busy pending h = ground arith
handle_step-Agrees i s tunnel held busy pending h = ground arith
handle_step-Agrees i s closed held busy pending h = h

-- The same for the connection at a place, among all of them.
advance-Agrees :
    (i : Input) (k : ℕ) (s : Server) (ps : List Phase) (held busy pending : ℕ)
    → Agrees s (total holds ps + held) (total in_tunnel ps + busy) (total undecided ps + pending)
    → let (s', ps') = advance i k s ps in
      Agrees s'
        (total holds ps' + held)
        (total in_tunnel ps' + busy)
        (total undecided ps' + pending)
unfolding advance
advance-Agrees i k s [] held busy pending h = h
advance-Agrees i zero s (p ∷ ps) held busy pending h = simp add_assoc (
    handle_step-Agrees i s p (total holds ps + held) (total in_tunnel ps + busy)
      (total undecided ps + pending) (simp add_assoc at h))
advance-Agrees i (suc k) s (p ∷ ps) held busy pending h =
    Agrees-regroup
      (advance-Agrees i k s ps (holds p + held) (in_tunnel p + busy) (undecided p + pending)
        (Agrees-regroup h (omega arith) (omega arith) (omega arith)))
      (omega arith) (omega arith) (omega arith)

abbrev IsSound : Proxy → Type 0
IsSound x =
    Agrees x.server (total holds x.conns) (total in_tunnel x.conns) (total undecided x.conns)

step-IsSound : (e : Event) (x : Proxy) → IsSound x → IsSound (step e x)
unfolding step
step-IsSound connects x h = Agrees-regroup h (omega arith) (omega arith) (omega arith)
step-IsSound (proceeds k i) x h =
    simp add-zero at (advance-Agrees i k x.server x.conns 0 0 0 (simp add-zero h))
step-IsSound (drains b) x h = unfold set_draining in omega arith
step-IsSound (dials b) x h = unfold set_dialer in omega arith
step-IsSound (exit_ips ip) x h = unfold set_exit_ip in omega arith

run-IsSound : (es : List Event) (x : Proxy) → IsSound x → IsSound (run es x)
unfolding run
run-IsSound [] x h = h
run-IsSound (e ∷ es) x h = run-IsSound es (step e x) (step-IsSound e x h)

-- The proxy before any client.
abbrev pub start : Text → Text → Proxy
start pod_name node_ip = record { server = new pod_name node_ip; conns = [] }

start-IsSound : (pod_name node_ip : Text) → IsSound (start pod_name node_ip)
unfolding new
start-IsSound pod_name node_ip = omega arith

tunnels_hold : (ps : List Phase) → total in_tunnel ps ≤ total holds ps
tunnels_hold [] = omega arith
tunnels_hold (accepted ∷ ps) = omega (arith, tunnels_hold ps)
tunnels_hold (_ ∷ ps) = omega (arith, tunnels_hold ps)

-- In every interleaving of any number of connections, with the drain flag, the dialer and the exit
-- IP set at any time: the tokens taken are those of the connections that are being served, at most
-- 2000; the gauge of open tunnels counts the connections in a tunnel, so it is at most 2000 too;
-- and every counted connection has one outcome or is still being served, modulo 2 ^ 64.
pub run_limits :
    (es : List Event) (pod_name node_ip : Text)
    → let x = run es (start pod_name node_ip) in
      (x.server.sem ≡ total holds x.conns)
      × (x.server.sem ≤ max_concurrent)
      × (x.server.open_tunnels ≡ total in_tunnel x.conns)
      × (x.server.open_tunnels ≤ max_concurrent)
      × (u64 (outcomes x.server + total undecided x.conns) ≡ x.server.total_connect)
run_limits es pod_name node_ip =
    let x = run es (start pod_name node_ip) in
    let h = run-IsSound es (start pod_name node_ip) (start-IsSound pod_name node_ip) in
    (
      h.sem_exact,
      omega (arith, h.sem_exact, h.sem_bounded),
      h.tunnels_exact,
      omega (arith, h.sem_exact, h.sem_bounded, h.tunnels_exact, tunnels_hold x.conns),
      h.counted,
    )
