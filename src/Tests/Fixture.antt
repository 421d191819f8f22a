-- ===== src/Tests/Fixture.antt =====
-- A world that is its own clock, and a process in it. Of the two locations the first never
-- connects, the second does after a minute.
use tundler.Base.{
  ℕ, ◌+◌, ◌-◌, ◌*◌, Text, true, false, ◌&&◌, none, some, List, [], ◌∷◌, codes, ltb, text_eq,
  if◌then◌else◌,
}
use tundler.Timing.{second}
use tundler.State.{StateTracker, new_state_tracker, set_state, ready, set_tunnel_up_listener}
use tundler.Proxy.{Server, new}
use tundler.Provider.{Status, VpnProvider}
use tundler.System.{Host, System}
use tundler.Connect.Retry.Trace.{Call}
use tundler.Drain.{DrainController, proxy_drain_controller}

abbrev pub a : Text
a = codes "a"

abbrev pub b : Text
b = codes "b"

abbrev pub home : Text
home = codes "192.0.2.1"

abbrev pub exit : Text
exit = codes "198.51.100.7"

abbrev pub status : Text → ℕ → Status
status x w = record {
  connected = text_eq x b && ltb (60 * second) w;
  ip = [];
  location = x;
  region = [];
  provider = codes "pia";
}

abbrev pub provider : VpnProvider ℕ
provider = record {
  active_location = λ w. ([], w);
  connect = λ x w. (status x w, w + second);
  connected = λ w. (true, w);
  disconnect = λ w. (none, w + second);
  locations = λ w. (a ∷ b ∷ [], w + second);
  logged_in = λ w. (true, w);
  login = λ w. (if ltb w (90 * second) then some (codes "timeout") else none, w + second);
  logout = λ w. (none, w);
  status = λ w. (status a w, w);
  version = λ w. (none, w);
}

abbrev pub host : Host ℕ
host = record {
  provider = provider;
  clock = λ w. (w, w + second);
  pick = λ n w. (0, w);
  http_get = λ path w. (some (record { status = 200; body = some exit }), w + second);
  sleep = λ d w. w + d;
  cancelled = λ w. (false, w);
  post_tunnel_up = λ w. w;
  wait = λ d w. (false, w + d);
  systemctl_exit = λ w. w;
}

unfoldable pub server : Server
unfolding new
server = new (codes "pod-0") home

unfoldable pub ready_tracker : StateTracker
unfolding set_state set_tunnel_up_listener new_state_tracker
ready_tracker =
    set_state ready second (set_tunnel_up_listener true (new_state_tracker (codes "pia")))

abbrev pub process : {W : Type 0} → W → System W
process w = record {
  world = w;
  tracker = ready_tracker;
  proxy = server;
  last_relogin_unix = 0;
  contract_dialer = false;
  notif_enabled = false;
  has_shutdown_prov = true;
  shutdown_done = false;
}

abbrev pub traced_process : System (ℕ × List Call)
traced_process = process (100 * second, [])

-- The proxy while a drain waits: a tunnel closes at each tick.
abbrev pub tick : ℕ → Server → ℕ → Server × ℕ
tick d p w = (record p { open_tunnels = p.open_tunnels - 1 }, w + d)

abbrev pub draining_by : DrainController ℕ
draining_by = proxy_drain_controller host tick 62
