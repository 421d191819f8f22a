-- ===== src/Drain/Tidy.antt =====
-- What the rotator and the recycler rely on from the controller of a drain.
use tundler.Base.{ℕ, zero, suc, ◌+◌, ◌≡◌, refl, Option, none, some, arith}
use tundler.Proxy.{Server}
use tundler.System.{Host, System}
use tundler.Drain.{DrainController, next_tick, poll, wait_to_drain, proxy_drain_controller}

module _ {W : Type 0} where
  -- A controller that leaves the tracker alone, as the production one does.
  pub record IsTidy (d : DrainController W) : Type 0 where
    pub trigger : (s : System W) → (d.trigger_graceful_drain s).1.tracker ≡ s.tracker
    pub wait :
        (t : ℕ) (s : System W) → (d.wait_for_active_connections_to_drain t s).1.tracker ≡ s.tracker

  abbrev pub AllTidy : Option (DrainController W) → Type 0
  AllTidy none = Unit
  AllTidy (some d) = IsTidy d

module _ {W : Type 0} (h : Host W) (tick : ℕ → Server → W → Server × W) where
  poll-tracker :
      (fuel deadline : ℕ) (s : System W) → (poll h tick fuel deadline s).1.tracker ≡ s.tracker
  unfolding poll
  poll-tracker zero deadline s = refl
  poll-tracker (suc fuel) deadline s =
      let w = (h.cancelled (h.clock s.world).1).1 in
      ground (arith, poll-tracker fuel deadline (next_tick h tick (record s { world = w })))

  -- The production controller is tidy.
  pub proxy_drain_controller-IsTidy : (fuel : ℕ) → IsTidy (proxy_drain_controller h tick fuel)
  unfolding proxy_drain_controller wait_to_drain
  proxy_drain_controller-IsTidy fuel = record {
    trigger = λ s. refl;
    wait = λ t s.
        let (now, w) = h.clock s.world in poll-tracker fuel (now + t) (record s { world = w });
  }
