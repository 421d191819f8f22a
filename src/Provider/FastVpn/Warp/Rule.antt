-- ===== src/Provider/FastVpn/Warp/Rule.antt =====
-- The rule is there once the routes were set up, whatever `openvpn` does then.
use tundler.Base.{
  ℕ, zero, suc, ◌≡◌, refl, ◌∙◌, inl, inr, Text, Bool, true, false, not, some, List, [], ◌∷◌, codes,
  Bool-cases, Option-cases, arith, if◌then◌else◌,
}
use tundler.Exec.{run_cmd}
use tundler.Provider.Machine.{Machine, is_none, milliseconds, command}
use tundler.Provider.OpenVpn.{is_open_vpn_connected, await_up}
use tundler.Provider.Direct.{Direct, Plugin, public_ip, status, dial}
use tundler.Provider.FastVpn.Warp.{
  orig_default_gateway, warp_table_num, flush_remote_via_warp_rules, route_remotes, divert,
  set_routes, setup_nested_routing, del_rule, add_main_rule, main_beat_warp_pref,
}
use tundler.Provider.FastVpn.Warp.Stuck.{kernel}

-- Without an error, the rule is there.
abbrev pub Sets : {W : Type 0} → Bool × (W × Bool) → Type 0
Sets (failed, x) = failed ≡ false → x.1 ≡ true

pub Sets-if :
    {W : Type 0} (b : Bool) (x : W × Bool) (r : Bool × (W × Bool))
    → Sets r
    → Sets (if b then (true, x) else r)
Sets-if true x r h e = absurd (cc)
Sets-if false x r h e = h e

module _ {W : Type 0} (m : Machine W) where
  pub divert-Sets : (x : W × Bool) → Sets (divert (kernel m) x)
  unfolding divert run_cmd
  divert-Sets x e =
      let x' = (m.run (codes "ip") (del_rule main_beat_warp_pref) x.0).1 in
      let ((out, err), w) = m.run (codes "ip") add_main_rule x' in
      elim (Bool-cases (is_none err)) [ inl f ↦ rw f refl | inr f ↦ absurd (ground (arith, e, f)) ]

module _ {W : Type 0} (k : Machine (W × Bool)) (h : (x : W × Bool) → Sets (divert k x)) where
  set_routes-Sets :
      (gw table : Text) (ips : List Text) (x : W × Bool) → Sets (set_routes k gw table ips x)
  unfolding set_routes
  set_routes-Sets gw table ips x =
      let ((out, err), x₁) =
        command k (codes "ip")
          (codes "route"
            ∷ codes "replace"
            ∷ codes "162.159.0.0/16"
            ∷ codes "via"
            ∷ gw
            ∷ codes "dev"
            ∷ codes "eth0"
            ∷ [])
          x in
      let (failed, x₂) = route_remotes k table ips (flush_remote_via_warp_rules k 64 x₁) in
      let end = divert k x₂ in
      Sets-if (not (is_none err)) x₁ (if failed then (true, x₂) else end)
        (Sets-if failed x₂ end (h x₂))

  pub setup_nested_routing-Sets :
      (ips : List Text) (x : W × Bool) → Sets (setup_nested_routing k ips x)
  unfolding setup_nested_routing
  setup_nested_routing-Sets ips x = elim (Option-cases (orig_default_gateway k x).0) [
    | inl e ↦ rw (setup_nested_routing, e) (λ f. absurd (cc))
    | inr (g, e) ↦ elim (Option-cases (warp_table_num k (orig_default_gateway k x).1).0) [
      | inl f ↦ rw (setup_nested_routing, e, f) (λ g. absurd (cc))
      | inr (t, f) ↦ rw (setup_nested_routing, e, f) (set_routes-Sets g t ips _)
    ]
  ]

module _ {W : Type 0} (m : Machine W) where
  connected-rule : (x : W × Bool) → (is_open_vpn_connected (kernel m) x).1.1 ≡ x.1
  unfolding is_open_vpn_connected run_cmd
  connected-rule x = refl

  await_up-rule : (rounds : ℕ) (x : W × Bool) → (await_up (kernel m) rounds x).1.1 ≡ x.1
  unfolding await_up
  await_up-rule zero x = refl
  await_up-rule (suc rounds) x =
      let y : W × Bool = (m.sleep (milliseconds 500) x.0, x.1) in
      let (up, y') = is_open_vpn_connected (kernel m) y in
      elim (Bool-cases up) [
        | inl e ↦ rw e (connected-rule y)
        | inr e ↦ rw e (await_up-rule rounds y' ∙ connected-rule y)
      ]

  public_ip-rule : (x : W × Bool) → (public_ip (kernel m) x).1.1 ≡ x.1
  unfolding public_ip run_cmd
  public_ip-rule x = refl

  started-rule :
      {A C : Type 0} (p : Plugin A C (W × Bool)) (x : W × Bool)
      → (command (kernel m) (codes "openvpn") p.openvpn_args x).1.1 ≡ x.1
  unfolding run_cmd
  started-rule p x = refl

  status-rule :
      {A C : Type 0} (p : Plugin A C (W × Bool)) (s : Direct A) (x : W × Bool)
      → (status (kernel m) p (s, x)).1.1.1 ≡ x.1
  unfolding status
  status-rule p s x =
      let (up, x') = is_open_vpn_connected (kernel m) x in
      elim (Bool-cases up) [
        | inl e ↦ rw (status, e) (public_ip-rule x' ∙ connected-rule x)
        | inr e ↦ rw (status, e) (connected-rule x)
      ]

  -- The start of `openvpn` and the wait for its tunnel leave the rule as it was.
  pub dial-rule :
      {A C : Type 0} (p : Plugin A C (W × Bool)) (server : A) (location : Text) (s : Direct A)
      (x : W × Bool)
      → ((y : W × Bool) → (p.on_up y).1 ≡ y.1)
      → (dial (kernel m) p server location (s, x)).1.1.1 ≡ x.1
  unfolding dial
  dial-rule p server location s x h =
      let ((out, err), x₁) = command (kernel m) (codes "openvpn") p.openvpn_args x in
      let (up, x₂) = await_up (kernel m) 60 x₁ in
      let s' = record s { active_server = some server; active_location = location } in
      elim (Bool-cases (not (is_none err))) [
        | inl e ↦ rw (dial, e) (started-rule p x)
        | inr e ↦ elim (Bool-cases up) [
          | inl f ↦
              rw (dial, e, f)
                (status-rule p s' (p.on_up x₂) ∙ h x₂ ∙ await_up-rule 60 x₁ ∙ started-rule p x)
          | inr f ↦ rw (dial, e, f) (await_up-rule 60 x₁ ∙ started-rule p x)
        ]
      ]
