-- ===== src/Rotator/Schedule.antt =====
-- cmd/tundler-tunnel/rotator.go, `runRotator`: the scheduled rotations, and the recycle in place of
-- one of them.
use tundler.Base.{
  ℕ, zero, suc, ◌+◌, ◌-◌, ◌<◌, ◌≤◌, ◌≡◌, refl, ◌⊎◌, true, false, ◌&&◌, Text, Option, List, [], ◌∷◌,
  map, length, ltb, leb, if◌then◌else◌, arith, inl, inr, Bool-cases,
}
use tundler.Timing.{pick_rotation_interval}
use tundler.State.{record_next_rotation}
use tundler.System.{Host, System, ok, Done, Action}
use tundler.Drain.{DrainController}
use tundler.Recycler.{
  Wake, fires, stops, Course, waiting, context_done, recycled, recycle_container,
}
use tundler.Rotator.{rotate_if_ready}

module _ {W : Type 0} (h : Host W) (lo hi : ℕ) where
  -- The next interval, with the random number of the world, and its record in the tracker.
  pub arm : Action W Done
  arm s =
      let (x, w) = (if leb hi lo then (0, s.world) else h.pick (hi - lo) s.world) in
      let (now, w') = h.clock w in
      let next = pick_rotation_interval (λ n. x) lo hi in
      (ok tt, record s { world = w'; tracker = record_next_rotation (now + next) s.tracker })

  module _ (limit max_attempts : ℕ) (excluded : List Text) (drain : Option (DrainController W))
      (baseline : Text) where
    -- The loop, from `scheduled` rotations on; with the number in the end.
    rotator_loop : List (Wake W) → ℕ → System W → (Course × ℕ) × System W
    rotator_loop [] scheduled s = ((waiting, scheduled), s)
    rotator_loop (stops ∷ wakes) scheduled s = ((context_done, scheduled), s)
    rotator_loop (fires others ∷ wakes) scheduled s = elim (ltb 0 limit && leb limit scheduled) [
      | true ↦ ((recycled, scheduled), (recycle_container h drain (others s)).1)
      | false ↦
          rotator_loop wakes (scheduled + 1)
            (arm (rotate_if_ready h excluded max_attempts drain baseline (others s)).1).1
    ]

    pub run_rotator : List (Wake W) → System W → (Course × ℕ) × System W
    run_rotator wakes s = rotator_loop wakes 0 (arm s).1

    -- One scheduled rotation: what the others do before the timer, `rotateIfReady`, and the arming
    -- of the timer.
    abbrev pub rotated : (System W → System W) → System W → System W
    rotated others s = (arm (rotate_if_ready h excluded max_attempts drain baseline (others s)).1).1

    -- Scheduled rotations in order.
    abbrev pub all_rotated : List (System W → System W) → System W → System W
    all_rotated [] s = s
    all_rotated (others ∷ later) s = all_rotated later (rotated others s)

    -- The process at the end of some wake-ups of which the first ones are rotations, as many as are
    -- left, and the next recycles the container.
    abbrev pub after_wakes : ℕ → List (System W → System W) → System W → System W
    after_wakes left [] s = s
    after_wakes zero (others ∷ later) s = (recycle_container h drain (others s)).1
    after_wakes (suc left) (others ∷ later) s = after_wakes left later (rotated others s)

    loop_counts :
        (others : List (System W → System W)) (scheduled : ℕ) (s : System W)
        → (limit ≡ 0) ⊎ (scheduled ≤ limit)
        → (rotator_loop (map fires others) scheduled s).0 ≡ (
            if ltb 0 limit && ltb limit (scheduled + length others)
            then (recycled, limit)
            else (waiting, scheduled + length others))
    unfolding rotator_loop
    loop_counts [] scheduled s b = ground arith
    loop_counts (o ∷ others) scheduled s b =
        ground (arith, loop_counts others (scheduled + 1) (rotated o s))

    loop_rotates :
        (others : List (System W → System W)) (scheduled : ℕ) (s : System W)
        → ltb 0 limit ≡ false
        → (rotator_loop (map fires others) scheduled s).1 ≡ all_rotated others s
    unfolding rotator_loop
    loop_rotates [] scheduled s z = refl
    loop_rotates (o ∷ others) scheduled s z =
        rw (rotator_loop, z) (loop_rotates others (scheduled + 1) (rotated o s) z)

    -- The recycle is due when no rotation is left.
    due :
        (scheduled : ℕ)
        → 0 < limit
        → scheduled + 0 ≡ limit
        → (ltb 0 limit && leb limit scheduled) ≡ true
    due scheduled p e = ground arith

    not_due :
        (left scheduled : ℕ)
        → scheduled + suc left ≡ limit
        → (ltb 0 limit && leb limit scheduled) ≡ false
    not_due left scheduled e = ground arith

    loop_recycles :
        (others : List (System W → System W)) (left scheduled : ℕ) (s : System W)
        → 0 < limit
        → scheduled + left ≡ limit
        → (rotator_loop (map fires others) scheduled s).1 ≡ after_wakes left others s
    unfolding rotator_loop
    loop_recycles [] left scheduled s p e = refl
    loop_recycles (o ∷ others) zero scheduled s p e = rw (rotator_loop, due scheduled p e) refl
    loop_recycles (o ∷ others) (suc left) scheduled s p e =
        rw (rotator_loop, not_due left scheduled e)
          (loop_recycles others left (scheduled + 1) (rotated o s) p (omega arith))

    -- Whatever happens between them, each of the first `limit` wake-ups of the timer calls
    -- `rotateIfReady` once, and arms the timer again, in the process that the one before left; the
    -- next wake-up calls `recycleContainer` on what is left then, and the process ends there, with
    -- `limit` rotations scheduled. With the limit 0 all wake-ups are rotations.
    pub rotations_then_recycle :
        (others : List (System W → System W)) (s : System W)
        → ((run_rotator (map fires others) s).0 ≡ (
            if ltb 0 limit && ltb limit (length others)
            then (recycled, limit)
            else (waiting, length others)))
          × ((run_rotator (map fires others) s).1 ≡ (
              if ltb 0 limit
              then after_wakes limit others (arm s).1
              else all_rotated others (arm s).1))
    unfolding run_rotator
    rotations_then_recycle others s =
        let s₁ = (arm s).1 in
        (
          ground (arith, loop_counts others 0 s₁ (inr (omega arith))),
          elim (Bool-cases (ltb 0 limit)) [
            | inl e ↦ rw e (loop_recycles others limit 0 s₁ (ground arith) (omega arith))
            | inr e ↦ rw e (loop_rotates others 0 s₁ e)
          ],
        )
