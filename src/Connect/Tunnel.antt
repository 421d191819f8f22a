-- ===== src/Connect/Tunnel.antt =====
-- How an attempt to connect ends, in the tracker and in the proxy.
use tundler.Base.{◌≡◌, Text, List, arith, if◌then◌else◌}
use tundler.State.{connecting, ready, set_state, record_tunnel_up}
use tundler.Proxy.{set_exit_ip}
use tundler.System.{Host, System, Result, ok, err, Done}
use tundler.Connect.{ensure_logged_in, choose, check_contract, connect_tunnel}

-- The part of the process that a call has left alone.
abbrev Quiet : {W : Type 0} → System W → System W → Type 0
Quiet s s' =
    (s'.tracker ≡ s.tracker)
    × (s'.proxy ≡ s.proxy)
    × (s'.notif_enabled ≡ s.notif_enabled)
    × (s'.contract_dialer ≡ s.contract_dialer)

module _ {W : Type 0} (h : Host W) where
  pub ensure-Quiet : (s : System W) → Quiet s (ensure_logged_in h s).1
  unfolding ensure_logged_in
  ensure-Quiet s = ground arith

  pub choose-Quiet :
      (available excluded : List Text) (s : System W) → Quiet s (choose h available excluded s).1
  unfolding choose
  choose-Quiet available excluded s = ground arith

  pub contract-Quiet : (baseline : Text) (s : System W) → Quiet s (check_contract h baseline s).1
  unfolding check_contract
  contract-Quiet baseline s = ground arith

  -- What is counted over the life of the process is as before.
  abbrev SameHistory : System W → System W → Type 0
  SameHistory s s' =
      (s'.tracker.rotation_count_total ≡ s.tracker.rotation_count_total)
      × (s'.tracker.last_rotation ≡ s.tracker.last_rotation)
      × (s'.tracker.auth_failures_total ≡ s.tracker.auth_failures_total)
      × (s'.tracker.has_listener ≡ s.tracker.has_listener)

  -- The tunnel is up: the tracker is Ready, and the proxy announces the exit IP that the tracker
  -- reports if it listens.
  abbrev pub IsUp : System W → System W → Type 0
  IsUp s s' =
      (s'.tracker.state ≡ ready)
      × (s'.proxy.exit_ip
          ≡ (if s.tracker.has_listener then s'.tracker.current_exit_ip else s.proxy.exit_ip))
      × SameHistory s s'

  -- The attempt failed: the tracker stays in Connecting, and reports what it did before.
  abbrev pub IsDown : System W → System W → Type 0
  IsDown s s' =
      (s'.tracker.state ≡ connecting)
      × (s'.tracker.current_location ≡ s.tracker.current_location)
      × (s'.tracker.current_exit_ip ≡ s.tracker.current_exit_ip)
      × (s'.proxy ≡ s.proxy)
      × SameHistory s s'

  abbrev pub Ends : System W → Result Done × System W → Type 0
  Ends s (ok u, s') = IsUp s s'
  Ends s (err e, s') = IsDown s s'

  -- The attempt of the boot and of the watchdog ends Ready, with the proxy announcing the recorded
  -- exit IP if the listener is set, or with an error in Connecting, with the recorded tunnel and the
  -- proxy as they were; the rotations and login failures that were counted stay.
  pub connect_tunnel-Ends :
      (excluded : List Text) (baseline : Text) (s : System W)
      → Ends s (connect_tunnel h excluded baseline s)
  unfolding connect_tunnel set_state record_tunnel_up set_exit_ip
  connect_tunnel-Ends excluded baseline s =
      grind (arith, ensure-Quiet, choose-Quiet, contract-Quiet)
