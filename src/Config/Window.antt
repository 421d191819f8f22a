-- ===== src/Config/Window.antt =====
-- The window that the rotator gets.
use tundler.Base.{
  ℕ, ◌*◌, ◌+◌, ◌-◌, ◌≤◌, ◌<◌, ◌≡◌, refl, Text, Bool, Option, none, some, ltb, if◌then◌else◌, arith,
}
use tundler.Timing.{second, IsRandom, pick_rotation_interval}
use tundler.Config.{
  get_env_int, Rotation, fatal, disabled, armed, clamp_window, window_of, rotation_window,
  default_min_rotation_sec, default_max_rotation_sec,
}

-- What an interval of the rotator is for the settings: the lower end at least, the upper one at
-- most, or exactly the lower one where the ends are in the wrong order.
abbrev Fits : ℕ → ℕ → ℕ → Type 0
Fits lo hi d = if ltb hi lo then (d ≡ lo * second) else ((lo * second ≤ d) × (d ≤ hi * second))

abbrev pub Means : (ℕ → ℕ) → Option ℕ → Option ℕ → Rotation → Type 0
Means rand (some lo) (some hi) (armed l h) =
    (0 < lo + hi) × Fits lo hi (pick_rotation_interval rand l h)
Means rand (some lo) (some hi) disabled = lo + hi ≡ 0
Means rand (some lo) (some hi) fatal = ⊥
Means rand none _ r = r ≡ fatal
Means rand (some lo) none r = r ≡ fatal

clamp-Means :
    (rand : ℕ → ℕ) (lo hi : ℕ)
    → IsRandom rand
    → Means rand (some lo) (some hi) (clamp_window (lo * second) (hi * second))
unfolding clamp_window pick_rotation_interval
clamp-Means rand lo hi r = ground (arith, r (hi * second - lo * second))

-- With a random source in its range: where an end of the window is not a number that is not
-- negative, main stops. Else the rotator is left out exactly if both ends are 0, and every interval
-- lies between the ends, or is the lower end where they are in the wrong order.
rotation_window-Means :
    (atoi : Text → Option (Bool × ℕ)) (rand : ℕ → ℕ) (min_value max_value : Text)
    → IsRandom rand
    → Means rand
        (get_env_int atoi min_value default_min_rotation_sec)
        (get_env_int atoi max_value default_max_rotation_sec)
        (rotation_window atoi min_value max_value)
unfolding rotation_window
rotation_window-Means atoi rand min_value max_value r =
    go (get_env_int atoi min_value default_min_rotation_sec)
      (get_env_int atoi max_value default_max_rotation_sec)
  where
    go : (lo hi : Option ℕ) → Means rand lo hi (window_of lo hi)
    go none hi = refl
    go (some lo) none = refl
    go (some lo) (some hi) = clamp-Means rand lo hi r
