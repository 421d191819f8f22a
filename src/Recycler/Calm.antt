-- ===== src/Recycler/Calm.antt =====
-- When the time-based recycler takes the container down, and what it leaves behind.
use tundler.Base.{◌*◌, ◌≡◌, Bool, true, not, ◌&&◌, ◌||◌, Option, List, ◌∷◌, if◌then◌else◌}
use tundler.Timing.{second}
use tundler.State.{draining, is_ready}
use tundler.System.{Host, System, set}
use tundler.Drain.{DrainController}
use tundler.Connect.Retry.Trace.{Call, disconnects, traced}
use tundler.Recycler.{Course, waiting, context_done, recycled, drain_first, recycle_container}

module _ {W : Type 0} (h : Host W) where
  -- The process when its drain has ended: every snapshot says Draining.
  abbrev pub drained :
      Option (DrainController (W × List Call)) → System (W × List Call) → System (W × List Call)
  drained drain s = (drain_first (traced h) drain (set (traced h) draining s).1).1

  -- Whether a provider is registered whose disconnect was not made yet.
  abbrev pub is_due : System (W × List Call) → Bool
  is_due s = s.has_shutdown_prov && not s.shutdown_done

  -- How the process ends after the drain: in Draining, with one more call of Disconnect if that was
  -- due and none if not, then the exit of systemd and the wait for it.
  abbrev pub Released : System (W × List Call) → System (W × List Call) → Type 0
  Released s s' =
      let due = is_due s in
      (s'.tracker.state ≡ draining)
      × ((not s'.has_shutdown_prov || s'.shutdown_done) ≡ true)
      × (s'.world.1 ≡ (if due then disconnects ∷ s.world.1 else s.world.1))
      × (s'.world.0
          ≡ h.sleep (5 * second)
              (h.systemctl_exit (if due then (h.provider.disconnect s.world.0).1 else s.world.0)))

  -- A recycle that began in `s` ended in `s'`.
  abbrev pub RecycledFrom :
      Option (DrainController (W × List Call))
      → System (W × List Call)
      → System (W × List Call)
      → Type 0
  RecycledFrom drain s s' =
      (is_ready s.tracker.state ≡ true)
      × (s' ≡ (recycle_container (traced h) drain s).1)
      × Released (drained drain s) s'

  abbrev pub Recycles :
      Option (DrainController (W × List Call)) → Course × System (W × List Call) → Type 0
  Recycles drain (waiting, s) = Unit
  Recycles drain (context_done, s) = Unit
  Recycles drain (recycled, s) = (s' : System (W × List Call)) × RecycledFrom drain s' s
