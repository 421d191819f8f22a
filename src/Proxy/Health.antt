-- ===== src/Proxy/Health.antt =====
-- What the watchdog reads from the proxy: proxy.go `recordDial`, main.go `tunnelLooksHealthy`.
use tundler.Base.{
  ℕ, ◌+◌, ◌*◌, ◌-◌, ◌^◌, ◌≤◌, ◌<◌, ◌≡◌, refl, Bool, true, false, ◌||◌, Option, none, some, List, [],
  ◌∷◌, arith, ltb, if◌then◌else◌, length, ◌↔◌,
}
use tundler.Timing.{minute, is_negative}
use tundler.Proxy.{Server, record_dial, recent_tunnel_health, TunnelHealth}

abbrev pub dial_failure_threshold : ℕ
dial_failure_threshold = 5

abbrev pub dial_silence_window : ℕ
dial_silence_window = 2 * minute

-- `h.LastDialAt.IsZero() || time.Since(h.LastDialAt) > dialSilenceWindow`
abbrev is_silent : ℕ → Option ℕ → Bool
is_silent now none = true
is_silent now (some t) = ltb dial_silence_window (now - t)

-- main.go, `tunnelLooksHealthy`, on what `RecentTunnelHealth` returns
pub tunnel_looks_healthy : ℕ → TunnelHealth → Bool
tunnel_looks_healthy now h =
    if is_silent now h.last_dial_at
    then true
    else if h.last_dial_succeeded
    then true
    else is_negative h.consecutive_failures || ltb h.consecutive_failures dial_failure_threshold

-- Dials in order, the latest first, each with its time.
pub dials : List (ℕ × Bool) → Server → Server
dials [] s = s
dials ((now, success) ∷ ds) s = record_dial success now (dials ds s)

-- How many of the latest dials failed, up to the last that succeeded.
abbrev pub streak : List (ℕ × Bool) → ℕ
streak [] = 0
streak ((now, true) ∷ ds) = 0
streak ((now, false) ∷ ds) = streak ds + 1

streak-le-length : (ds : List (ℕ × Bool)) → streak ds ≤ length ds
streak-le-length [] = omega arith
streak-le-length ((now, true) ∷ ds) = omega arith
streak-le-length ((now, false) ∷ ds) = omega (arith, streak-le-length ds)

fails-eq-streak :
    (ds : List (ℕ × Bool)) (s : Server)
    → s.consecutive_dial_fails ≡ 0
    → length ds < 2 ^ 63
    → (dials ds s).consecutive_dial_fails ≡ streak ds
unfolding dials record_dial
fails-eq-streak [] s e h = e
fails-eq-streak ((now, true) ∷ ds) s e h = refl
fails-eq-streak ((now, false) ∷ ds) s e h =
    omega (arith, fails-eq-streak ds s e (omega arith), streak-le-length ds)

-- After the dials `(t, success) ∷ ds`, fewer than 2 ^ 63 and the last at a positive time, of a
-- server that began with no failure, the tunnel looks unhealthy at the time `now` exactly when the
-- last dial is at most two minutes old and the last five dials or more failed in a row.
unhealthy_iff :
    (now t : ℕ) (success : Bool) (ds : List (ℕ × Bool)) (s : Server)
    → s.consecutive_dial_fails ≡ 0
    → 0 < t
    → length ((t, success) ∷ ds) < 2 ^ 63
    → (tunnel_looks_healthy now (recent_tunnel_health (dials ((t, success) ∷ ds) s)) ≡ false)
      ↔ ((now - t ≤ dial_silence_window) × (dial_failure_threshold ≤ streak ((t, success) ∷ ds)))
unfolding tunnel_looks_healthy recent_tunnel_health dials record_dial
unhealthy_iff now t true ds s e p h = ground arith
unhealthy_iff now t false ds s e p h =
    ground (arith, fails-eq-streak ds s e (omega arith), streak-le-length ds)
