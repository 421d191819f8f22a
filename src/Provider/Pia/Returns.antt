-- ===== src/Provider/Pia/Returns.antt =====
-- That `Connect` returns, and what.
use tundler.Base.{
  ℕ, zero, suc, ◌+◌, ◌*◌, ◌≤◌, ◌<◌, ◌≡◌, refl, Text, Bool, true, false, not, ◌&&◌, Option, none,
  some, List, [], ◌∷◌, codes, text_eq, arith, ltb, if◌then◌else◌,
}
use tundler.Exec.{run_cmd}
use tundler.Provider.{Status}
use tundler.Provider.Machine.{Machine}
use tundler.Provider.Pia.{
  Pia, Feed, name, connected, active_location, vpn_ip, status, poll_connect, or_status,
  start_connect, connect_to, with_vars, ensure_daemon_responsive, connect,
}

-- The status names the provider, and shows an address or a place only of a tunnel that is up.
abbrev pub IsWhole : Status → Type 0
IsWhole st =
    (st.provider ≡ name)
    × (if st.connected then Unit else (st.ip ≡ []) × (st.location ≡ []) × (st.region ≡ []))

module _ {W : Type 0} (m : Machine W) (feed : Feed W) where
  abbrev time : W → ℕ
  time w = (m.clock w).0

  -- The clock goes on: never back, and by the time that is slept.
  pub record IsClock : Type 0 where
    pub reads : (w : W) → time w ≤ time (m.clock w).1
    pub runs : (cmd : Text) (args : List Text) (w : W) → time w ≤ time (m.run cmd args w).1
    pub sleeps : (d : ℕ) (w : W) → time w + d ≤ time (m.sleep d w)

  status-IsWhole : (w : W) → IsWhole (status m feed w).0
  unfolding status
  status-IsWhole w = ground arith

  connected-time : IsClock → (w : W) → time w ≤ time (connected m feed w).1
  unfolding connected run_cmd
  connected-time c w =
      ground (arith, c.runs (codes "piactl") (codes "get" ∷ codes "connectionstate" ∷ []) w)

  vpn_ip-time : IsClock → (w : W) → time w ≤ time (vpn_ip m feed w).1
  unfolding vpn_ip run_cmd
  vpn_ip-time c w = ground (arith, c.runs (codes "piactl") (codes "get" ∷ codes "vpnip" ∷ []) w)

  active_location-time : IsClock → (w : W) → time w ≤ time (active_location m w).1
  unfolding active_location run_cmd
  active_location-time c w = c.runs (codes "piactl") (codes "get" ∷ codes "region" ∷ []) w

  status-time : IsClock → (w : W) → time w ≤ time (status m feed w).1
  unfolding status
  status-time c w =
      let (up, w₁) = connected m feed w in
      let (place, w₂) = active_location m w₁ in
      ground (arith, connected-time c w, active_location-time c w₁, vpn_ip-time c w₂)

  -- A loop that ended.
  Ends : Option (Option Status × W) → Type 0
  Ends none = ⊥
  Ends (some (some st, w)) = IsWhole st
  Ends (some (none, w)) = Unit

  if-Ends :
      (b : Bool) (o o' : Option (Option Status × W))
      → (b ≡ true → Ends o)
      → (b ≡ false → Ends o')
      → Ends (if b then o else o')
  if-Ends true o o' k k' = k refl
  if-Ends false o o' k k' = k' refl

  poll_connect-Ends :
      (fuel deadline : ℕ) (w : W)
      → IsClock
      → deadline < time w + fuel * 250000000
      → Ends (poll_connect m feed (suc fuel) deadline w)
  unfolding poll_connect Ends
  poll_connect-Ends zero deadline w c h =
      let w₁ = (m.clock w).1 in
      if-Ends (not (ltb (time w) deadline)) (some (none, w₁)) _ (λ e. tt)
        (λ e. absurd (ground (arith, e, h)))
  poll_connect-Ends (suc fuel) deadline w c h =
      let w₁ = (m.clock w).1 in
      let (st, w₂) = status m feed w₁ in
      let pause = if feed.in_fallback w₂ then 1000000000 else 250000000 in
      let w₃ = m.sleep pause w₂ in
      let later = poll_connect m feed (suc fuel) deadline w₃ in
      let go : deadline < time w₃ + fuel * 250000000 =
        ground (arith, c.reads w, status-time c w₁, c.sleeps pause w₂, h) in
      if-Ends (not (ltb (time w) deadline)) (some (none, w₁)) _ (λ e. tt)
        (λ e.
          if-Ends (st.connected && not (text_eq st.ip [])) (some (some st, w₂)) later
            (λ f. status-IsWhole w₁) (λ f. poll_connect-Ends fuel deadline w₃ c go))

  -- A call that returned, and what.
  abbrev pub Returns : {A : Type 0} → Option (Status × A) → Type 0
  Returns none = ⊥
  Returns (some (st, a)) = IsWhole st

  or_status-Returns : (o : Option (Option Status × W)) → Ends o → Returns (or_status m feed o)
  unfolding or_status Ends
  or_status-Returns (some (some st, w)) e = e
  or_status-Returns (some (none, w)) e = status-IsWhole w
  or_status-Returns none e = absurd e

  with_vars-Returns :
      (s : Pia) (o : Option (Status × W)) → Returns o → Returns (with_vars m feed s o)
  with_vars-Returns s none r = r
  with_vars-Returns s (some (st, w)) r = r

  -- On a clock that never goes back and advances by what is slept, 241 rounds of the loop are fuel
  -- enough: Connect returns, with a status that names the provider and shows an address or a place
  -- only of a tunnel that is up.
  pub connect-Returns :
      (fuel : ℕ) (location : Text) (sw : Pia × W)
      → IsClock
      → 241 ≤ fuel
      → Returns (connect m feed (suc fuel) location sw)
  unfolding connect connect_to
  connect-Returns fuel location sw c h =
      let (s, w) = ensure_daemon_responsive m sw in
      let (now, w') = m.clock (start_connect m feed location w) in
      let e =
        poll_connect-Ends fuel (now + 60000000000) w' c
          (ground (arith, c.reads (start_connect m feed location w))) in
      with_vars-Returns s (connect_to m feed (suc fuel) location w) (or_status-Returns _ e)
