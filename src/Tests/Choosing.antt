-- ===== src/Tests/Choosing.antt =====
-- Locations and waits.
use tundler.Base.{ℕ, ◌-◌, ◌*◌, ◌≡◌, false, some, [], ◌∷◌, arith}
use tundler.Timing.{minute, retry_backoff}
use tundler.Timing.Overflow.{retry_backoff_vanishes}
use tundler.Provider.Locations.{empty_cache, Cache}
use tundler.Provider.Locations.Cached.{calls, NeverEmptyAgain, calls_never_empty}
use tundler.Tests.Fixture.{a, b, host}

-- A random source that always returns the largest value of its range.
abbrev largest : ℕ → ℕ
largest n = n - 1

calls_never_empty_example :
    NeverEmptyAgain host.provider host.clock
      (2 * minute)
      false
      (calls host.provider host.clock (2 * minute) 4 (0, empty_cache))
calls_never_empty_example = calls_never_empty host.provider host.clock (2 * minute) 4 0

abbrev filled : Cache
filled = record { cached = a ∷ b ∷ []; fetched_at = some 0 }

retry_backoff_vanishes_example : retry_backoff 60 ≡ 0
retry_backoff_vanishes_example = retry_backoff_vanishes 60 (omega arith)
