-- ===== src/System.antt =====
-- The process as the tunnel's control code sees it, and the monad of that code. A goroutine's
-- operation is an action on the whole: it passes the world outside the process (`Host`) and the
-- process's own state (`System`) along, and it may stop with an error. An operation is modelled
-- without interference by other goroutines; Connect/Relogin.antt and Proxy/Limits.antt interleave
-- the steps of goroutines that share state.
use tundler.Base.{ℕ, Text, Bool, Option, none, some, if◌then◌else◌}
use tundler.State.{State, StateTracker, set_state, record_tunnel_up}
use tundler.Proxy.{Server, set_exit_ip}
use tundler.Provider.{VpnProvider}
use tundler.Egress.{Response, DialPath}

-- What the code calls outside the process: the provider, `time.Now` in nanoseconds,
-- `rand.IntN`, a GET of the check URL, `time.Sleep`, `ctx.Err() != nil`, and the start of the
-- goroutine that posts a tunnel-up event, a `select` between `ctx.Done()` and `time.After` (whether
-- the context won), and `systemctl exit 0`.
pub record Host (W : Type 0) : Type 0 where
  pub provider : VpnProvider W
  pub clock : W → ℕ × W
  pub pick : ℕ → W → ℕ × W
  pub http_get : DialPath → W → Option Response × W
  pub sleep : ℕ → W → W
  pub cancelled : W → Bool × W
  pub post_tunnel_up : W → W
  pub wait : ℕ → W → Bool × W
  pub systemctl_exit : W → W

-- The process: its tracker, its proxy, `lastReloginUnix`, whether `contractProbeDialer` is set, and
-- whether the event hook is enabled.
pub record System (W : Type 0) : Type 0 where
  pub world : W
  pub tracker : StateTracker
  pub proxy : Server
  pub last_relogin_unix : ℕ
  pub contract_dialer : Bool
  pub notif_enabled : Bool
  pub has_shutdown_prov : Bool
  pub shutdown_done : Bool

-- The errors that the code makes, or passes on from the provider. `cancelled` is `ctx.Err()`.
pub data Error : Type 0 where
  relogin_throttled relogin_in_progress no_allowed_locations exit_ip_leak rotation_exhausted : Error
  drain_timeout cancelled : Error
  login_failed disconnect_failed not_connected : Text → Error

pub data Result (A : Type 0) : Type 0 where
  ok : A → Result A
  err : Error → Result A

abbrev pub Done : Type 0
Done = Unit

abbrev pub Action : Type 0 → Type 0 → Type 0
Action W A = System W → Result A × System W

module _ {W : Type 0} where
  abbrev pub pure : {A : Type 0} → A → Action W A
  pure a s = (ok a, s)

  abbrev pub raise : {A : Type 0} → Error → Action W A
  raise e s = (err e, s)

  infixl 5 ◌>>=◌ ◌>>◌
  abbrev pub ◌>>=◌ : {A B : Type 0} → Action W A → (A → Action W B) → Action W B
  ◌>>=◌ m f s = let (r, s') = m s in elim r [ ok a ↦ f a s' | err e ↦ (err e, s') ]

  abbrev pub ◌>>◌ : {A B : Type 0} → Action W A → Action W B → Action W B
  m >> k = m >>= λ _. k

  -- The error as a value, as in `if err := f(); err != nil`.
  abbrev pub attempt : {A : Type 0} → Action W A → Action W (Result A)
  attempt m s = let (r, s') = m s in (ok r, s')

  -- A call outside the process, and what follows an error that it returns.
  abbrev pub call : {A : Type 0} → (W → A × W) → Action W A
  call f s = let (a, w) = f s.world in (ok a, record s { world = w })

  abbrev pub raise_some : (Text → Error) → Option Text → Action W Done
  raise_some f none = pure tt
  raise_some f (some e) = raise (f e)

  abbrev pub tracked : (StateTracker → StateTracker) → Action W Done
  tracked f s = (ok tt, record s { tracker = f s.tracker })

  abbrev pub on_proxy : (Server → Server) → Action W Done
  on_proxy f s = (ok tt, record s { proxy = f s.proxy })

  abbrev pub get : {A : Type 0} → (System W → A) → Action W A
  get f s = (ok (f s), s)

  -- The listener that main installs: it gives the proxy the exit IP, and starts an event.
  abbrev tunnel_up_listener : Host W → Option Text → System W → System W
  tunnel_up_listener h none s = s
  tunnel_up_listener h (some ip) s = record s {
    proxy = set_exit_ip ip s.proxy;
    world = if s.notif_enabled then h.post_tunnel_up s.world else s.world;
  }

module _ {W : Type 0} (h : Host W) where
  -- `state.Set`
  abbrev pub set : State → Action W Done
  set st = do now ← call h.clock; tracked (set_state st now)

  -- `state.RecordTunnelUp`, with the call of the listener
  abbrev pub tunnel_up : Text → Text → Action W Done
  tunnel_up location ip s =
      let (now, w) = h.clock s.world in
      let (t, notice) = record_tunnel_up location ip now s.tracker in
      (ok tt, tunnel_up_listener h notice (record s { world = w; tracker = t }))
