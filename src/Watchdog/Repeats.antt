-- ===== src/Watchdog/Repeats.antt =====
-- What a reconnect of the watchdog does to the signal that the watchdog acts on.
use tundler.Base.{ℕ, ◌≡◌, refl, Text, List, arith}
use tundler.State.{record_tunnel_up}
use tundler.Proxy.{recent_tunnel_health, set_exit_ip}
use tundler.Proxy.Health.{tunnel_looks_healthy}
use tundler.System.{Host, System}
use tundler.Connect.{connect_tunnel}
use tundler.Connect.Tunnel.{ensure-Quiet, choose-Quiet, contract-Quiet}

module _ {W : Type 0} (h : Host W) where
  -- The record of the dials is the same.
  abbrev pub SameDials : System W → System W → Type 0
  SameDials s s' =
      (s'.proxy.last_dial_at_unix_nano ≡ s.proxy.last_dial_at_unix_nano)
      × (s'.proxy.last_dial_ok ≡ s.proxy.last_dial_ok)
      × (s'.proxy.consecutive_dial_fails ≡ s.proxy.consecutive_dial_fails)

  connect_tunnel-SameDials :
      (excluded : List Text) (baseline : Text) (s : System W)
      → SameDials s (connect_tunnel h excluded baseline s).1
  unfolding connect_tunnel record_tunnel_up set_exit_ip
  connect_tunnel-SameDials excluded baseline s =
      grind (arith, ensure-Quiet, choose-Quiet, contract-Quiet)

  -- A reconnect, also a successful one, leaves the record of the dials as it was: at any time the
  -- tunnel looks as healthy after it as it would have without it.
  pub reconnect_keeps_health :
      (excluded : List Text) (baseline : Text) (now : ℕ) (s : System W)
      → let s' = (connect_tunnel h excluded baseline s).1 in
        SameDials s s'
        × (tunnel_looks_healthy now (recent_tunnel_health s'.proxy)
            ≡ tunnel_looks_healthy now (recent_tunnel_health s.proxy))
  unfolding recent_tunnel_health
  reconnect_keeps_health excluded baseline now s =
      let same = connect_tunnel-SameDials excluded baseline s in
      let (e, e', e'') = same in (same, rw (e, e', e'') refl)
