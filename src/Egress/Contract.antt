-- ===== src/Egress/Contract.antt =====
-- When the exit-IP contract is broken.
use tundler.Base.{
  ◌≡◌, ◌≢◌, ◌↔◌, Text, Bool, Option, none, some, [], ◌∷◌, arith, text_eq_refl, text_eq→eq,
}
use tundler.Egress.{Response, DialPath, probe_contract_egress_ip, verify_exit_ip_differs, verdict}

verdict-eq-none :
    (baseline : Text) (observed : Option Text)
    → (verdict baseline observed ≡ none) ↔ (observed ≡ some baseline)
unfolding verdict
verdict-eq-none baseline none = ground arith
verdict-eq-none baseline (some ip) = ground (arith, text_eq→eq ip baseline, text_eq_refl baseline)

verdict-eq-some :
    (baseline ip : Text) (observed : Option Text)
    → verdict baseline observed ≡ some ip
    → ip ≢ []
    → (ip ≢ baseline) × (observed ≡ some ip)
unfolding verdict
verdict-eq-some baseline ip none h ne = ground arith
verdict-eq-some baseline ip (some seen) h ne = ground (arith, text_eq_refl ip)

module _ {W : Type 0} (get : DialPath → W → Option Response × W) where
  -- A leak is reported exactly where there is a baseline and the probe has seen it again; so an
  -- error of the probe, and a missing baseline, let the tunnel pass.
  leak_iff :
      (dialer : Bool) (baseline : Text) (w : W)
      → ((verify_exit_ip_differs get dialer baseline w).0 ≡ none)
        ↔ ((baseline ≢ []) × ((probe_contract_egress_ip get dialer w).0 ≡ some baseline))
  unfolding verify_exit_ip_differs
  leak_iff dialer [] w = ground arith
  leak_iff dialer (b ∷ bs) w =
      let seen = (probe_contract_egress_ip get dialer w).0 in
      ground (arith, verdict-eq-none (b ∷ bs) seen)

  -- An address that passes the contract and is not empty is another than the baseline, and is what
  -- the probe has seen.
  passed_differs :
      (dialer : Bool) (baseline ip : Text) (w : W)
      → (verify_exit_ip_differs get dialer baseline w).0 ≡ some ip
      → ip ≢ []
      → (ip ≢ baseline) × ((probe_contract_egress_ip get dialer w).0 ≡ some ip)
  unfolding verify_exit_ip_differs
  passed_differs dialer [] ip w h ne = ground arith
  passed_differs dialer (b ∷ bs) ip w h ne =
      verdict-eq-some (b ∷ bs) ip (probe_contract_egress_ip get dialer w).0 h ne
