-- ===== src/WedgeGuard/Trips.antt =====
-- When the guard exits the process.
use tundler.Base.{
  ℕ, ◌-◌, ◌≡◌, refl, Bool, false, ◌||◌, Option, none, some, List, [], ◌∷◌, ltb, if◌then◌else◌,
  arith,
}
use tundler.State.{State, is_ready}
use tundler.WedgeGuard.{goes_on, trips, guard_tick, run_wedge_guard}

-- When the present run of ticks that are not Ready began.
abbrev began : List (ℕ × State) → Option ℕ
began [] = none
began ((now, st) ∷ ticks) =
    if is_ready st then none else elim (began ticks) [ none ↦ some now | some t ↦ some t ]

-- The length of that run.
abbrev lasted : ℕ → Option ℕ → ℕ
lasted now none = 0
lasted now (some t) = now - t

-- Whether some run was longer than the threshold at some tick.
abbrev too_long : ℕ → List (ℕ × State) → Bool
too_long threshold [] = false
too_long threshold ((now, st) ∷ ticks) =
    too_long threshold ticks || ltb threshold (lasted now (began ((now, st) ∷ ticks)))

-- The guard has exited exactly if at some tick the pod had not been Ready at any tick for longer
-- than the threshold; until then its variable is when the present run began.
pub run_wedge_guard_lem :
    (threshold : ℕ) (ticks : List (ℕ × State))
    → run_wedge_guard threshold ticks
      ≡ (if too_long threshold ticks then trips else goes_on (began ticks))
unfolding run_wedge_guard guard_tick
run_wedge_guard_lem threshold [] = refl
run_wedge_guard_lem threshold ((now, st) ∷ ticks) =
    ground (arith, run_wedge_guard_lem threshold ticks)
