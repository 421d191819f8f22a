-- ===== src/Connect/Relogin.antt =====
-- cmd/tundler-tunnel/connect.go, `ensureLoggedIn` of several goroutines at once. An operation on
-- `lastReloginUnix` is atomic and the rest is local, so a run is a sequence of the operations of
-- the goroutines: the reading of the clock by one that found the daemon logged out, the load with
-- the test, and the swap, which Login follows.
pub mod Apart
use tundler.Base.{ℕ, ◌+◌, Bool, true, false, List, [], ◌∷◌, ltb, ◌==◌, if◌then◌else◌}
use tundler.Connect.{relogin_throttle_sec}

-- Where a goroutine is: the local variables that it has set.
pub data Thread : Type 0 where
  idle : Thread
  has_now : ℕ → Thread
  has_last : ℕ → ℕ → Thread

pub record Shared : Type 0 where
  pub last_relogin_unix : ℕ
  pub threads : ℕ → Thread
  pub logins : List ℕ  -- the times of the logins that were started, the latest first

pub data Event : Type 0 where
  reads_clock : ℕ → ℕ → Event
  loads : ℕ → Event
  swaps : ℕ → Event

abbrev pub at_thread : ℕ → Thread → (ℕ → Thread) → ℕ → Thread
at_thread i t f j = if j == i then t else f j

-- The load, and the test of the throttle.
abbrev pub load_step : ℕ → Thread → Shared → Shared
load_step i (has_now now) s = record s {
  threads =
      at_thread i
        (if ltb now (s.last_relogin_unix + relogin_throttle_sec)
          then idle
          else has_last now s.last_relogin_unix)
        s.threads;
}
load_step i idle s = s
load_step i (has_last now last) s = s

-- The swap, and the start of the login where it succeeds.
abbrev pub swap_step : ℕ → Thread → Shared → Shared
swap_step i (has_last now last) s =
    if s.last_relogin_unix == last
    then record {
      last_relogin_unix = now;
      threads = at_thread i idle s.threads;
      logins = now ∷ s.logins;
    }
    else record s { threads = at_thread i idle s.threads }
swap_step i idle s = s
swap_step i (has_now now) s = s

-- An operation of a goroutine that is not there to make it does nothing.
unfoldable pub step : Event → Shared → Shared
step (reads_clock i now) s = record s { threads = at_thread i (has_now now) s.threads }
step (loads i) s = load_step i (s.threads i) s
step (swaps i) s = swap_step i (s.threads i) s

unfoldable pub run : List Event → Shared → Shared
run [] s = s
run (e ∷ es) s = run es (step e s)

abbrev pub boot : Shared
boot = record { last_relogin_unix = 0; threads = λ i. idle; logins = [] }
