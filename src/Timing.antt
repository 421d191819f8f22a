-- ===== src/Timing.antt =====
-- Durations and random waits: cmd/tundler-tunnel/connect.go (bootConnectBackoff, retryBackoff),
-- rotator.go (pickRotationInterval) and jitter.go. A duration is its number of nanoseconds; where
-- the source can overflow, an int64 is its bit pattern, a number below 2 ^ 64. A random source is
-- a function: `rand n` is the value that `rand.Int64N(n)` returns.
pub mod Bounds
pub mod Overflow
use tundler.Base.{ℕ, ◌+◌, ◌-◌, ◌*◌, ◌/◌, ◌%◌, ◌^◌, ◌<◌, Bool, ◌&&◌, ltb, leb, if◌then◌else◌}

abbrev pub second : ℕ
second = 1_000_000_000

abbrev pub minute : ℕ
minute = 60 * second

-- The documented range of `rand.Int64N` and `rand.IntN`.
abbrev pub IsRandom : (ℕ → ℕ) → Type 0
IsRandom rand = (n : ℕ) → 0 < n → rand n < n

-- `int(d.Round(time.Second).Seconds())`, half a second rounding up.
unfoldable pub round_seconds : ℕ → ℕ
round_seconds d = (d + second / 2) / second

-- connect.go, the exponential of `bootConnectBackoff`, capped; the attempts count from 1.
pub boot_base : ℕ → ℕ
boot_base attempt =
    let shift = if ltb 9 (attempt - 1) then 9 else attempt - 1 in
    let base = 2 ^ shift * second in if ltb (5 * minute) base then 5 * minute else base

-- connect.go, `bootConnectBackoff`. `base / 4` is at most `base`: the difference does not stop at 0.
pub boot_connect_backoff : (ℕ → ℕ) → ℕ → ℕ
boot_connect_backoff rand attempt =
    let base = boot_base attempt in
    let d = base + rand (base / 2 + 1) - base / 4 in if ltb d second then second else d

-- int64 arithmetic on bit patterns
abbrev pub int64_mod : ℕ
int64_mod = 2 ^ 64

abbrev pub is_negative : ℕ → Bool
is_negative x = leb (2 ^ 63) x

-- connect.go, `retryBackoff`; the attempts count from 1. A shift by 64 or more leaves 0.
pub retry_backoff : ℕ → ℕ
retry_backoff attempt =
    let d = 2 ^ (attempt - 1) % int64_mod * second % int64_mod in
    if ltb (16 * second) d && ltb d (2 ^ 63) then 16 * second else d

-- rotator.go, `pickRotationInterval`
unfoldable pub pick_rotation_interval : (ℕ → ℕ) → ℕ → ℕ → ℕ
pick_rotation_interval rand lo hi = if leb hi lo then lo else lo + rand (hi - lo)

-- jitter.go, `pickJitter`. `scaled n` is the whole part of `rand.Float64() * float64(n)`.
pub pick_jitter : (ℕ → ℕ) → ℕ → ℕ
pick_jitter scaled max_seconds = if leb max_seconds 0 then 0 else scaled max_seconds * second

-- recycler.go, the jittered lifetime of `runRecycler`
pub jittered_lifetime : (ℕ → ℕ) → ℕ → ℕ
jittered_lifetime rand lifetime = lifetime + rand (lifetime / 3 + 1)
