-- ===== src/Provider/FastVpn/Diverted.antt =====
-- The calls of Connect while the rule that makes the main table come before WARP's is there, and
-- what Disconnect makes of it.
use tundler.Base.{
  ℕ, ◌+◌, text_eq, ◌≡◌, refl, inl, inr, Text, Bool, true, false, Option, none, List, [], ◌∷◌, codes,
  All, ◌∙◌, if◌then◌else◌, Option-cases,
}
use tundler.Provider.{Status}
use tundler.Provider.Machine.{Machine}
use tundler.Provider.Direct.{Direct, down, dial}
use tundler.Provider.Direct.Outcome.{connect-not_ready}
use tundler.Provider.FastVpn.{
  FastvpnServer, get_credentials, ready, plugin, connect, disconnect, prepare, route,
  write_credentials, write_active_config, config_dir,
}
use tundler.Provider.FastVpn.Warp.{warp_on, resolve_remotes}
use tundler.Provider.FastVpn.Warp.Rule.{
  Sets, Sets-if, divert-Sets, setup_nested_routing-Sets, dial-rule,
}
use tundler.Provider.FastVpn.Warp.Stuck.{
  kernel, IsStill, warp_up-Stuck, warp_on-clear, teardown-rule,
}

-- A machine that counts the processes of `openvpn` that it starts.
abbrev pub counting : {W : Type 0} → Machine W → Machine (W × ℕ)
counting m = record {
  run = λ cmd args x.
      (let (r, w) = m.run cmd args x.0 in
        (r, (w, if text_eq cmd (codes "openvpn") then x.1 + 1 else x.1)));
  getenv = m.getenv;
  clock = λ x. (let (now, w) = m.clock x.0 in (now, (w, x.1)));
  sleep = λ d x. (m.sleep d x.0, x.1);
  wait = λ d x. (let (r, w) = m.wait d x.0 in (r, (w, x.1)));
  read_file = λ p x. (let (r, w) = m.read_file p x.0 in (r, (w, x.1)));
  mkdir_all = λ p x. (let (r, w) = m.mkdir_all p x.0 in (r, (w, x.1)));
  write_file = λ p t x. (let (r, w) = m.write_file p t x.0 in (r, (w, x.1)));
  remove = λ p x. (m.remove p x.0, x.1);
  pick = λ n x. (let (r, w) = m.pick n x.0 in (r, (w, x.1)));
}

counting-IsStill : {W : Type 0} (m : Machine W) → IsStill (counting m) (λ x. x.1)
counting-IsStill m = record { run = λ cmd args x e. rw e refl; sleep = λ d x. refl }

module _ {W : Type 0} (m : Machine W) where
  -- The transport is not up, with the rule there still and no `openvpn` started.
  abbrev NotReady : ℕ → Option (Text × Text) × ((W × ℕ) × Bool) → Type 0
  NotReady n (creds, x) = (creds ≡ none) × (x.1 ≡ true) × (x.0.1 ≡ n)

  ready-NotReady :
      (x : (W × ℕ) × Bool) → x.1 ≡ true → NotReady x.0.1 (ready (kernel (counting m)) x)
  unfolding ready
  ready-NotReady (w, b) e = elim (Option-cases (get_credentials (kernel (counting m)))) [
    | inl f ↦ rw (ready, f) (refl, e, refl)
    | inr (c, f) ↦
        let (g, there, n) = warp_up-Stuck (counting m) (λ x. x.1) (counting-IsStill m) w in
        rw (ready, f, e, g) (refl, there, n)
  ]

module _ {W : Type 0} (m : Machine W) (join : Text → Text → Text)
    (read_dir : Text → (W × ℕ) × Bool → Option (List (Text × Bool)) × ((W × ℕ) × Bool)) where
  abbrev Vars : Type 0
  Vars = Direct FastvpnServer × ((W × ℕ) × Bool)

  -- The machine of the theorem: it counts its starts of `openvpn`, and keeps whether the rule is
  -- there.
  abbrev pub host : Machine ((W × ℕ) × Bool)
  host = kernel (counting m)

  -- Calls of Connect, one after the other, and their results.
  abbrev pub connects : List Text → Vars → List Status × Vars
  connects [] sw = ([], sw)
  connects (location ∷ locations) sw =
      let (st, sw') = connect host join read_dir location sw in
      let (sts, end) = connects locations sw' in (st ∷ sts, end)

  connect-stuck :
      (location : Text) (s : Direct FastvpnServer) (x : (W × ℕ) × Bool)
      → x.1 ≡ true
      → connect host join read_dir location (s, x)
        ≡ (down (codes "fastvpn") [], (s, (ready host x).1))
  unfolding connect plugin
  connect-stuck location s x e =
      connect-not_ready host (plugin host join read_dir) location s x (ready-NotReady m x e).0

  -- While the rule is there every call of Connect fails before it starts `openvpn`, however many
  -- there are, and leaves the rule where it is.
  connects-stuck :
      (locations : List Text) (s : Direct FastvpnServer) (x : (W × ℕ) × Bool)
      → x.1 ≡ true
      → let (sts, (s', x')) = connects locations (s, x) in
        All (λ st. st ≡ down (codes "fastvpn") []) sts × (x'.1 ≡ true) × (x'.0.1 ≡ x.0.1)
  connects-stuck [] s x e = (tt, e, refl)
  connects-stuck (location ∷ locations) s x e =
      let x' = (ready host x).1 in
      let (none_ready, there, n) = ready-NotReady m x e in
      let (sts, there', n') = connects-stuck locations s x' there in
      rw (connect-stuck location s x e) ((refl, sts), there', n' ∙ n)

  route-Sets : (x : (W × ℕ) × Bool) → Sets (route host join read_dir x)
  unfolding route
  route-Sets x =
      let path = join (config_dir host) (codes "active.ovpn") in
      let (remotes, x') = resolve_remotes host path x in
      elim (Option-cases remotes) [
        | inl e ↦ rw (route, e) (λ f. absurd (cc))
        | inr (ips, e) ↦
            rw (route, e) (setup_nested_routing-Sets host (divert-Sets (counting m)) ips x')
      ]

  prepare-Sets :
      (creds : Text × Text) (server : FastvpnServer) (x : (W × ℕ) × Bool)
      → Sets (prepare host join read_dir creds server x)
  unfolding prepare
  prepare-Sets (user, pass) server x =
      let (failed, x₁) = write_credentials host join read_dir user pass x in
      let (failed', x₂) = write_active_config host join read_dir server x₁ in
      let end = route host join read_dir x₂ in
      Sets-if failed x₁ (if failed' then (true, x₂) else end)
        (Sets-if failed' x₂ end (route-Sets x₂))

  dial-rule-plugin :
      (server : FastvpnServer) (location : Text) (s : Direct FastvpnServer) (x : (W × ℕ) × Bool)
      → (dial host (plugin host join read_dir) server location (s, x)).1.1.1 ≡ x.1
  unfolding plugin
  dial-rule-plugin server location s x =
      dial-rule (counting m) (plugin host join read_dir) server location s x (λ y. refl)

  disconnect-rule : (sw : Vars) → (disconnect host join read_dir sw).1.1 ≡ false
  unfolding disconnect
  disconnect-rule sw = teardown-rule (counting m) _

  -- After a Connect that has written its files and set its routes, whatever becomes of its
  -- `openvpn`, every further Connect without a Disconnect fails before it starts one, however many
  -- there are, and the rule that puts the main table before WARP's stays; Disconnect then takes the
  -- rule away, so that the probe of WARP sees again what the machine has without the rule. The
  -- machine answers the probe by the main table, with `warp=off`, as long as the rule is there.
  pub dial-connects :
      (creds : Text × Text) (server : FastvpnServer) (location : Text) (locations : List Text)
      (s : Direct FastvpnServer) (x : (W × ℕ) × Bool)
      → (prepare host join read_dir creds server x).0 ≡ false
      → let (st, sw) =
          dial host
            (plugin host join read_dir)
            server
            location
            (s, (prepare host join read_dir creds server x).1) in
        let (sts, sw') = connects locations sw in
        let (s', x') = disconnect host join read_dir sw' in
        All (λ st'. st' ≡ down (codes "fastvpn") []) sts
        × (sw'.1.0.1 ≡ sw.1.0.1)
        × (sw'.1.1 ≡ true)
        × (x'.1 ≡ false)
        × ((warp_on host x').0 ≡ (warp_on (counting m) x'.0).0)
  dial-connects creds server location locations s x e =
      let x₁ = (prepare host join read_dir creds server x).1 in
      let (st, (s', x')) = dial host (plugin host join read_dir) server location (s, x₁) in
      let there = dial-rule-plugin server location s x₁ ∙ prepare-Sets creds server x e in
      let (sts, end, n) = connects-stuck locations s' x' there in
      let gone = disconnect-rule (connects locations (s', x')).1 in
      (sts, n, end, gone, warp_on-clear (counting m) _ gone)
