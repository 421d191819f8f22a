-- ===== src/Config.antt =====
-- The settings of the environment in cmd/tundler-tunnel/main.go and locations_cache.go: `getEnvInt`,
-- the window of the rotator in `main`, and the lifetime of the cached locations. `strconv.Atoi` is
-- an argument; an int is its sign and its size. Durations are below the limit of an int64.
pub mod Window
use tundler.Base.{
  ℕ, ◌*◌, Text, Bool, true, false, ◌||◌, Option, none, some, [], text_eq, ltb, if◌then◌else◌,
}
use tundler.Timing.{second}

abbrev pub default_min_rotation_sec : ℕ
default_min_rotation_sec = 7200

abbrev pub default_max_rotation_sec : ℕ
default_max_rotation_sec = 14400

abbrev default_locations_cache_ttl_sec : ℕ
default_locations_cache_ttl_sec = 1800

module _ (atoi : Text → Option (Bool × ℕ)) where
  -- `getEnvInt` for the value of a variable, empty where it is not set; `none` is `log.Fatalf`.
  unfoldable pub get_env_int : Text → ℕ → Option ℕ
  get_env_int v default =
      if text_eq v []
      then some default
      else elim (atoi v) [ none ↦ none | some n ↦ if n.0 then none else some n.1 ]

  abbrev seconds : Option ℕ → Option ℕ
  seconds none = none
  seconds (some n) = some (n * second)

  -- `locationsCacheTTL`
  unfoldable locations_cache_ttl : Text → Option ℕ
  locations_cache_ttl v = seconds (get_env_int v default_locations_cache_ttl_sec)

-- What main does about the rotator: it stops, leaves it out, or starts it with a window.
pub data Rotation : Type 0 where
  fatal disabled : Rotation
  armed : ℕ → ℕ → Rotation

-- The upper end is clamped; the rotator is left out if both ends are 0.
pub clamp_window : ℕ → ℕ → Rotation
clamp_window min_rotation max_rotation =
    let max' = (if ltb max_rotation min_rotation then min_rotation else max_rotation) in
    if ltb 0 min_rotation || ltb 0 max' then armed min_rotation max' else disabled

abbrev pub window_of : Option ℕ → Option ℕ → Rotation
window_of none _ = fatal
window_of (some lo) none = fatal
window_of (some lo) (some hi) = clamp_window (lo * second) (hi * second)

module _ (atoi : Text → Option (Bool × ℕ)) where
  -- The part of `main` about the rotator, for the values of MIN_ and MAX_ROTATION_SECONDS.
  pub rotation_window : Text → Text → Rotation
  rotation_window min_value max_value =
      window_of (get_env_int atoi min_value default_min_rotation_sec)
        (get_env_int atoi max_value default_max_rotation_sec)
