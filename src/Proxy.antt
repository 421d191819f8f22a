-- ===== src/Proxy.antt =====
-- internal/proxy/proxy.go: the CONNECT proxy's server object and the methods that other parts of
-- the process call. A method is one step on the record: each reads or writes atomics, and no
-- caller relies on two of them together. The uint64 counters wrap; an int64 is its bit pattern.
-- `sem` is the number of tokens in the channel of the limiter.
pub mod Request
pub mod Response
pub mod Health
pub mod Handle
pub mod Limits
pub mod Impersonate
use tundler.Base.{
  ℕ, ◌+◌, ◌%◌, ◌^◌, Text, Bool, true, false, Option, none, some, [], ◌==◌, if◌then◌else◌,
}

abbrev pub max_concurrent : ℕ
max_concurrent = 2000

abbrev pub u64 : ℕ → ℕ
u64 n = n % 2 ^ 64

pub record Server : Type 0 where
  pub pod_name : Text
  pub node_ip : Text
  pub exit_ip : Text
  pub draining : Bool
  pub has_dialer : Bool  -- whether a custom dialer is installed
  pub sem : ℕ
  pub total_connect : ℕ
  pub total_success : ℕ
  pub total_error : ℕ
  pub total_draining : ℕ
  pub total_overloaded : ℕ
  pub open_tunnels : ℕ
  pub last_dial_at_unix_nano : ℕ
  pub last_dial_ok : Bool
  pub consecutive_dial_fails : ℕ

-- `New`
unfoldable pub new : Text → Text → Server
new pod_name node_ip = record {
  pod_name = pod_name;
  node_ip = node_ip;
  exit_ip = [];
  draining = false;
  has_dialer = false;
  sem = 0;
  total_connect = 0;
  total_success = 0;
  total_error = 0;
  total_draining = 0;
  total_overloaded = 0;
  open_tunnels = 0;
  last_dial_at_unix_nano = 0;
  last_dial_ok = false;
  consecutive_dial_fails = 0;
}

unfoldable pub set_exit_ip : Text → Server → Server
set_exit_ip ip s = record s { exit_ip = ip }

pub set_dialer : Bool → Server → Server
set_dialer d s = record s { has_dialer = d }

unfoldable pub set_draining : Bool → Server → Server
set_draining draining s = record s { draining = draining }

-- `recordDial`, at the time `now` in nanoseconds of the Unix clock
pub record_dial : Bool → ℕ → Server → Server
record_dial success now s = record s {
  last_dial_at_unix_nano = now;
  last_dial_ok = success;
  consecutive_dial_fails = if success then 0 else u64 (s.consecutive_dial_fails + 1);
}

pub record TunnelHealth : Type 0 where
  pub last_dial_at : Option ℕ
  pub last_dial_succeeded : Bool
  pub consecutive_failures : ℕ

-- A stored time of 0 stands for no dial.
abbrev dial_time : ℕ → Option ℕ
dial_time ns = if ns == 0 then none else some ns

-- `RecentTunnelHealth`
unfoldable pub recent_tunnel_health : Server → TunnelHealth
recent_tunnel_health s = record {
  last_dial_at = dial_time s.last_dial_at_unix_nano;
  last_dial_succeeded = s.last_dial_ok;
  consecutive_failures = s.consecutive_dial_fails;
}

pub record Stats : Type 0 where
  pub total_connect : ℕ
  pub total_success : ℕ
  pub total_error : ℕ
  pub total_draining : ℕ
  pub total_overloaded : ℕ
  pub open_tunnels : ℕ

unfoldable pub stats : Server → Stats
stats s = record {
  total_connect = s.total_connect;
  total_success = s.total_success;
  total_error = s.total_error;
  total_draining = s.total_draining;
  total_overloaded = s.total_overloaded;
  open_tunnels = s.open_tunnels;
}
