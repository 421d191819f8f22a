-- ===== src/Shutdown/Once.antt =====
-- The calls of Disconnect over several ways out of the process.
use tundler.Base.{ℕ, zero, suc, ◌+◌, ◌≡◌, refl, true, false, List, [], ◌∷◌, arith}
use tundler.System.{Host, System}
use tundler.Shutdown.{graceful_disconnect}
use tundler.Connect.Retry.Trace.{Call, logs_in, disconnects, connects_to, traced}

-- How often Disconnect was called.
abbrev pub disconnections : List Call → ℕ
disconnections [] = 0
disconnections (disconnects ∷ cs) = disconnections cs + 1
disconnections (logs_in ∷ cs) = disconnections cs
disconnections (connects_to x ∷ cs) = disconnections cs

module _ {W : Type 0} (h : Host W) where
  -- So many ways out of the process, one after the other.
  pub exits : ℕ → System (W × List Call) → System (W × List Call)
  exits zero s = s
  exits (suc n) s = exits n (graceful_disconnect (traced h) s).1

  again_nothing :
      (s : System (W × List Call))
      → s.shutdown_done ≡ true
      → (graceful_disconnect (traced h) s).1 ≡ s
  unfolding graceful_disconnect
  again_nothing s d = ground arith

  exits_done : (n : ℕ) (s : System (W × List Call)) → s.shutdown_done ≡ true → exits n s ≡ s
  unfolding exits
  exits_done zero s d = refl
  exits_done (suc n) s d = rw (again_nothing s d) (exits_done n s d)

  -- Once a provider is registered and before any disconnect, the first of any number of ways out
  -- calls Disconnect and no other does.
  pub exits_disconnect_once :
      (n : ℕ) (s : System (W × List Call))
      → s.has_shutdown_prov ≡ true
      → s.shutdown_done ≡ false
      → disconnections (exits (suc n) s).world.1 ≡ disconnections s.world.1 + 1
  unfolding exits graceful_disconnect
  exits_disconnect_once n s r d = ground (arith, exits_done n (graceful_disconnect (traced h) s).1)
