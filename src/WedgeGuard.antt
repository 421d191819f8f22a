-- ===== src/WedgeGuard.antt =====
-- cmd/tundler-tunnel/main.go, `runWedgeGuard`: its variable and one tick of it. The loop is run on
-- the list of what its ticks see.
pub mod Trips
use tundler.Base.{ℕ, ◌-◌, Bool, true, false, Option, none, some, List, [], ◌∷◌, ltb, if◌then◌else◌}
use tundler.State.{State, is_ready}

-- What a tick does: the loop goes on with `nonReadySince`, or the process exits.
pub data Verdict : Type 0 where
  goes_on : Option ℕ → Verdict
  trips : Verdict

-- One tick, at the time `now` in the state `st`.
pub guard_tick : ℕ → ℕ → State → Option ℕ → Verdict
guard_tick threshold now st since = if is_ready st then goes_on none else elim since [
  | none ↦ goes_on (some now)
  | some t ↦ if ltb threshold (now - t) then trips else goes_on (some t)
]

abbrev after_verdict : (Option ℕ → Verdict) → Verdict → Verdict
after_verdict k trips = trips
after_verdict k (goes_on since) = k since

-- The loop, on what its ticks see, the latest first.
pub run_wedge_guard : ℕ → List (ℕ × State) → Verdict
run_wedge_guard threshold [] = goes_on none
run_wedge_guard threshold ((now, st) ∷ ticks) =
    after_verdict (guard_tick threshold now st) (run_wedge_guard threshold ticks)
