-- ===== src/Timing/Overflow.antt =====
-- Where the doubling of the rotation backoff leaves the range of an int64.
use native.Mathlib.Nat.{pow-suc}
use tundler.Base.{
  ℕ, ◌+◌, ◌-◌, ◌*◌, ◌%◌, ◌^◌, ◌≤◌, ◌<◌, ◌≡◌, zero, suc, min, refl, arith, Bool, true, ◌==◌, ◌&&◌,
  ==_iff,
}
use tundler.Timing.{second, int64_mod, retry_backoff}

-- Whether a test passes at each of the first numbers.
passes_to : (ℕ → Bool) → ℕ → Bool
passes_to test zero = true
passes_to test (suc k) = passes_to test k && test k

at-passes_to : (test : ℕ → Bool) (k i : ℕ) → i < k → passes_to test k ≡ true → test i ≡ true
unfolding passes_to
at-passes_to test zero i less e = absurd (omega arith)
at-passes_to test (suc k) i less e = ground (arith, at-passes_to test k i)

backoff_table : passes_to (λ n. retry_backoff (suc n) == min 16 (2 ^ n) * second) 34 ≡ true
unfolding passes_to retry_backoff
backoff_table = refl

-- Up to attempt 34 the wait doubles from one second and is capped at 16.
pub retry_backoff_capped : (n : ℕ) → n < 34 → retry_backoff (suc n) ≡ min 16 (2 ^ n) * second
retry_backoff_capped n h =
    (==_iff _ _).0
      (at-passes_to (λ k. retry_backoff (suc k) == min 16 (2 ^ k) * second) 34 n h backoff_table)

-- The power of two in a second, with 55 more, is the whole word.
pow_wraps : (n : ℕ) → 2 ^ (55 + n) * second % int64_mod ≡ 0
pow_wraps zero = refl
pow_wraps (suc n) =
    let e : 55 + suc n ≡ suc (55 + n) = omega arith in rw (e, pow-suc) (omega (arith, pow_wraps n))

-- From attempt 56 on the product is a multiple of 2 ^ 64: there is no wait at all.
pub retry_backoff_vanishes : (n : ℕ) → 56 ≤ n → retry_backoff n ≡ 0
unfolding retry_backoff
retry_backoff_vanishes n h =
    let e : n - 1 ≡ 55 + (n - 56) = omega arith in rw e (ground (arith, pow_wraps (n - 56)))
