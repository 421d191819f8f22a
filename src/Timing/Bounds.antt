-- ===== src/Timing/Bounds.antt =====
-- The ranges of the random waits.
use native.Mathlib.Nat.{one-le-pow, pow-le-pow_right}
use tundler.Base.{ℕ, ◌+◌, ◌-◌, ◌*◌, ◌/◌, ◌^◌, ◌≤◌, ◌≡◌, zero, suc, min, refl, arith}
use tundler.Timing.{
  second, IsRandom, boot_base, boot_connect_backoff, pick_rotation_interval, pick_jitter,
  jittered_lifetime,
}

pow_at_least : (n : ℕ) → 9 ≤ n → 512 ≤ 2 ^ n
pow_at_least n h = pow-le-pow_right {n = 2} (omega arith) h

-- The exponential of the boot backoff, in seconds: it is capped from the tenth attempt on.
boot_base_lem : (n : ℕ) → boot_base (suc n) ≡ min 300 (2 ^ n) * second
unfolding boot_base
boot_base_lem zero = refl
boot_base_lem (suc zero) = refl
boot_base_lem (suc (suc zero)) = refl
boot_base_lem (suc (suc (suc zero))) = refl
boot_base_lem (suc (suc (suc (suc zero)))) = refl
boot_base_lem (suc (suc (suc (suc (suc zero))))) = refl
boot_base_lem (suc (suc (suc (suc (suc (suc zero)))))) = refl
boot_base_lem (suc (suc (suc (suc (suc (suc (suc zero))))))) = refl
boot_base_lem (suc (suc (suc (suc (suc (suc (suc (suc zero)))))))) = refl
boot_base_lem (suc (suc (suc (suc (suc (suc (suc (suc (suc n))))))))) =
    let k = suc (suc (suc (suc (suc (suc (suc (suc (suc n)))))))) in
    ground (arith, pow_at_least k (omega arith))

-- The wait after attempt n + 1 is within a quarter of its capped exponential `b`, and at least a
-- second, whatever the random source returns within its range.
pub boot_connect_backoff_range :
    (rand : ℕ → ℕ) (n : ℕ)
    → IsRandom rand
    → let b = min 300 (2 ^ n) * second in
      let d = boot_connect_backoff rand (suc n) in (second ≤ d) × (b - b / 4 ≤ d) × (4 * d ≤ 5 * b)
unfolding boot_connect_backoff
boot_connect_backoff_range rand n r =
    let b = min 300 (2 ^ n) * second in
    ground (arith, boot_base_lem n, r (b / 2 + 1) (omega arith), one-le-pow n 2 (omega arith))

-- With a random source in its range, a rotation interval lies in the window, which is in order;
-- where the ends differ, the upper one is never reached.
pub pick_rotation_interval_range :
    (rand : ℕ → ℕ) (lo hi : ℕ)
    → IsRandom rand
    → lo ≤ hi
    → let d = pick_rotation_interval rand lo hi in (lo ≤ d) × (d + min 1 (hi - lo) ≤ hi)
unfolding pick_rotation_interval
pick_rotation_interval_range rand lo hi r h = ground (arith, r (hi - lo))

-- With a random source in its range, the boot jitter is at most a second less than the limit, and none without a limit.
pick_jitter_range :
    (scaled : ℕ → ℕ) (n : ℕ) → IsRandom scaled → pick_jitter scaled n ≤ (n - 1) * second
unfolding pick_jitter
pick_jitter_range scaled n r = ground (arith, r n)

-- With a random source in its range, the lifetime of a container is at least the configured one,
-- and at most a third longer.
jittered_lifetime_range :
    (rand : ℕ → ℕ) (n : ℕ)
    → IsRandom rand
    → (n ≤ jittered_lifetime rand n) × (3 * jittered_lifetime rand n ≤ 4 * n)
unfolding jittered_lifetime
jittered_lifetime_range rand n r = omega (arith, r (n / 3 + 1) (omega arith))
