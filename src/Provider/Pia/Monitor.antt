-- ===== src/Provider/Pia/Monitor.antt =====
-- internal/provider/pia/monitor.go: the goroutines that follow `piactl monitor`. The two of them
-- share the record of failures under a lock, so its updates come one after another; a subprocess is
-- what it writes, or none where it did not start.
pub mod Fallback
use tundler.Base.{
  ℕ, ◌+◌, ◌*◌, Text, Bool, true, false, ◌||◌, Option, none, some, List, [], ◌∷◌, ◌++◌, text_eq,
  trim_space, length, ltb, leb, if◌then◌else◌,
}
use tundler.Provider.Machine.{seconds}

abbrev pub monitor_respawn_base_delay : ℕ
monitor_respawn_base_delay = seconds 1

abbrev pub monitor_respawn_max_delay : ℕ
monitor_respawn_max_delay = seconds 30

abbrev pub monitor_failure_threshold : ℕ
monitor_failure_threshold = 5

abbrev pub monitor_failure_window : ℕ
monitor_failure_window = seconds 300

-- A value that was never stored reads as the empty text.
pub record Monitor : Type 0 where
  pub connection_state : Text
  pub vpn_ip : Text
  pub fallback_active : Bool
  pub failure_times : List ℕ

abbrev pub new_monitor : Monitor
new_monitor = record {
  connection_state = [];
  vpn_ip = [];
  fallback_active = false;
  failure_times = [];
}

-- The entries after `now - window`.
pub within : ℕ → List ℕ → List ℕ
within now [] = []
within now (t ∷ ts) =
    let rest = within now ts in if ltb now (t + monitor_failure_window) then t ∷ rest else rest

-- `recordFailure`
pub record_failure : ℕ → Monitor → Monitor
unfolding within
record_failure now m =
    let times = within now m.failure_times ++ (now ∷ []) in
    record m {
      failure_times = times;
      fallback_active = leb monitor_failure_threshold (length times) || m.fallback_active;
    }

-- The value that the lines of a subprocess leave, and whether there was one (`runOne`).
pub run_one : Option (List Text) → Text → Text × Bool
run_one none value = (value, false)
run_one (some []) value = (value, false)
run_one (some (line ∷ lines)) value =
    let l = trim_space line in
    let blank = run_one (some lines) value in
    let (last, any) = run_one (some lines) l in if text_eq l [] then blank else (last, true)

pub data Kind : Type 0 where
  connectionstate vpnip : Kind

abbrev pub value_of : Kind → Monitor → Text
value_of connectionstate m = m.connection_state
value_of vpnip m = m.vpn_ip

abbrev store : Kind → Text → Monitor → Monitor
store connectionstate v m = record m { connection_state = v }
store vpnip v m = record m { vpn_ip = v }

-- One round of `streamLoop`: a subprocess that ends at `now`, the delay that is then waited for, and
-- the delay of the next round.
pub stream_round : Kind → Option (List Text) → ℕ → ℕ → Monitor → (ℕ × ℕ) × Monitor
unfolding run_one record_failure
stream_round kind output now delay m =
    let (v, ok) = run_one output (value_of kind m) in
    let m' = store kind v m in
    let waited = if ok then monitor_respawn_base_delay else delay in
    let doubled = waited * 2 in
    (
      (
        waited,
        if ltb monitor_respawn_max_delay doubled then monitor_respawn_max_delay else doubled,
      ),
      if ok then m' else record_failure now m',
    )
