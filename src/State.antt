-- ===== src/State.antt =====
-- cmd/tundler-tunnel/state.go: the lifecycle state of the pod, its tracker, and the snapshot that
-- /status reports. Every method holds the tracker's lock for its whole body, so it is one step on
-- the record. Times are nanoseconds on the process's clock, `none` where the source has the zero
-- Time; the clock never goes back, so a difference of two times does not stop at 0 except where
-- the source clamps it. A time in RFC 3339 keeps whole seconds only. The two totals are an `int` that
-- wraps, as the bit pattern of 64 bits.
pub mod Laws
use tundler.Base.{
  ℕ, ◌+◌, ◌-◌, ◌/◌, ◌%◌, ◌^◌, Text, Bool, true, false, Option, none, some, ltb, [], length, take,
  if◌then◌else◌,
}
use tundler.Timing.{second, round_seconds}

pub data State : Type 0 where
  booting logging_in connecting ready draining rotating failed : State

abbrev pub is_ready : State → Bool
is_ready ready = true
is_ready _ = false

abbrev pub is_failed : State → Bool
is_failed failed = true
is_failed _ = false

pub data Outcome : Type 0 where
  success failure : Outcome

-- A time in RFC 3339 as a text: absent, not a time, or the second that it names.
pub data Stamp : Type 0 where
  empty malformed : Stamp
  at_second : ℕ → Stamp

-- `t.Format(time.RFC3339)`
abbrev format : ℕ → Stamp
format t = at_second (t / second)

pub record RotationRecord : Type 0 where
  pub completed_at : Stamp
  pub duration_seconds : ℕ
  pub outcome : Outcome
  pub previous_exit_ip : Text
  pub new_exit_ip : Text

pub record StateTracker : Type 0 where
  pub state : State
  pub provider : Text
  pub boot_login_jitter_actual : ℕ
  pub logged_in_at : Option ℕ
  pub current_location : Text
  pub current_exit_ip : Text
  pub tunnel_connected_at : Option ℕ
  pub rotation_count_total : ℕ
  pub last_rotation : Option RotationRecord
  pub has_listener : Bool  -- whether `tunnelUpListener` is set
  pub last_ready_at : Option ℕ
  pub next_rotation_at : Option ℕ
  pub auth_failures_total : ℕ
  pub last_auth_failure_at : Option ℕ
  pub last_auth_failure_reason : Text

unfoldable pub new_state_tracker : Text → StateTracker
new_state_tracker provider = record {
  state = booting;
  provider = provider;
  boot_login_jitter_actual = 0;
  logged_in_at = none;
  current_location = [];
  current_exit_ip = [];
  tunnel_connected_at = none;
  rotation_count_total = 0;
  last_rotation = none;
  has_listener = false;
  last_ready_at = none;
  next_rotation_at = none;
  auth_failures_total = 0;
  last_auth_failure_at = none;
  last_auth_failure_reason = [];
}

-- `loggedInAt` is stamped by the first Ready only.
abbrev first_time : Option ℕ → ℕ → Option ℕ
first_time none now = some now
first_time (some t) now = some t

-- `Set`, at the time `now`
unfoldable pub set_state : State → ℕ → StateTracker → StateTracker
set_state ready now s = record s {
  state = ready;
  logged_in_at = first_time s.logged_in_at now;
  last_ready_at = some now;
}
set_state state now s = record s { state = state }

pub record_boot_login_jitter : ℕ → StateTracker → StateTracker
record_boot_login_jitter d s = record s { boot_login_jitter_actual = d }

-- The tracker after `RecordTunnelUp`, and the exit IP that the listener is called with, if any.
unfoldable pub record_tunnel_up : Text → Text → ℕ → StateTracker → StateTracker × Option Text
record_tunnel_up location exit_ip now s = (
  record s {
    current_location = location;
    current_exit_ip = exit_ip;
    tunnel_connected_at = some now;
  },
  if s.has_listener then some exit_ip else none,
)

unfoldable pub set_tunnel_up_listener : Bool → StateTracker → StateTracker
set_tunnel_up_listener fn s = record s { has_listener = fn }

unfoldable pub record_rotation : Text → Text → Outcome → ℕ → ℕ → StateTracker → StateTracker
record_rotation previous_ip new_ip outcome duration now s = record s {
  rotation_count_total = (s.rotation_count_total + 1) % 2 ^ 64;
  last_rotation = some (record {
    completed_at = format now;
    duration_seconds = round_seconds duration;
    outcome = outcome;
    previous_exit_ip = previous_ip;
    new_exit_ip = new_ip;
  });
}

pub record_next_rotation : ℕ → StateTracker → StateTracker
record_next_rotation at s = record s { next_rotation_at = some at }

-- A reason is cut to 256 bytes.
unfoldable pub record_auth_failure : Text → ℕ → StateTracker → StateTracker
record_auth_failure reason now s = record s {
  auth_failures_total = (s.auth_failures_total + 1) % 2 ^ 64;
  last_auth_failure_at = some now;
  last_auth_failure_reason = if ltb 256 (length reason) then take 256 reason else reason;
}

pub record Snapshot : Type 0 where
  pub state : State
  pub provider : Text
  pub current_location : Text
  pub current_exit_ip : Text
  pub tunnel_age_seconds : ℕ
  pub next_rotation_in_seconds : ℕ
  pub rotation_count_total : ℕ
  pub logged_in_at : Stamp
  pub boot_login_jitter_actual_seconds : ℕ
  pub last_rotation : Option RotationRecord
  pub auth_failures_total : ℕ
  pub last_auth_failure_at : Stamp
  pub last_auth_failure_reason : Text

abbrev format_opt : Option ℕ → Stamp
format_opt none = empty
format_opt (some t) = format t

-- `time.Since(t)` in whole seconds, 0 where there is no time.
abbrev age : ℕ → Option ℕ → ℕ
age now none = 0
age now (some t) = round_seconds (now - t)

-- `time.Until(t)`, when it is positive, in whole seconds.
abbrev remaining : ℕ → Option ℕ → ℕ
remaining now none = 0
remaining now (some t) = if ltb now t then round_seconds (t - now) else 0

unfoldable pub snapshot : ℕ → StateTracker → Snapshot
unfolding round_seconds
snapshot now s = record {
  state = s.state;
  provider = s.provider;
  current_location = s.current_location;
  current_exit_ip = s.current_exit_ip;
  tunnel_age_seconds = age now s.tunnel_connected_at;
  next_rotation_in_seconds = remaining now s.next_rotation_at;
  rotation_count_total = s.rotation_count_total;
  logged_in_at = format_opt s.logged_in_at;
  boot_login_jitter_actual_seconds = round_seconds s.boot_login_jitter_actual;
  last_rotation = s.last_rotation;
  auth_failures_total = s.auth_failures_total;
  last_auth_failure_at = format_opt s.last_auth_failure_at;
  last_auth_failure_reason = s.last_auth_failure_reason;
}
