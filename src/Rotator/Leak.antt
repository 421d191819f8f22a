-- ===== src/Rotator/Leak.antt =====
-- The drain flag of the proxy in a rotation with the production controller.
use tundler.Base.{ℕ, ◌≡◌, false, some, arith}
use tundler.Proxy.{Server, set_draining}
use tundler.System.{Host, System}
use tundler.Drain.{proxy_drain_controller, wait_to_drain}
use tundler.Rotator.{drain_proxy, before_disconnect}

module _ {W : Type 0} (h : Host W) (tick : ℕ → Server → W → Server × W) where
  -- When a rotation calls Disconnect, the proxy no longer refuses new connections: the wait has
  -- cleared the drain flag, also where it ended with tunnels still open.
  pub accepts_at_disconnect :
      (fuel : ℕ) (s : System W)
      → (before_disconnect h (some (proxy_drain_controller h tick fuel)) s).1.proxy.draining ≡ false
  unfolding before_disconnect drain_proxy proxy_drain_controller wait_to_drain set_draining
  accepts_at_disconnect fuel s = ground arith
