-- ===== src/Egress.antt =====
-- cmd/tundler-tunnel/egress.go: the probe of the address that the world sees, and the contract that
-- the tunnel changes it. The HTTP client is an argument: what a GET of the check URL returns, by
-- the path that it is dialled.
pub mod Contract
use tundler.Base.{
  ℕ, Text, Bool, true, false, Option, none, some, [], ◌==◌, text_eq, take, trim_space,
  if◌then◌else◌,
}

-- A response: its status, and its body unless reading it fails.
pub record Response : Type 0 where
  pub status : ℕ
  pub body : Option Text

-- The dial of the default client, or the proxy's upstream dialer with its fallback.
pub data DialPath : Type 0 where
  direct upstream : DialPath

-- The text of a response with status 200, at most 64 bytes, trimmed; `none` is an error.
unfoldable pub probe_body : Option Response → Option Text
probe_body none = none
probe_body (some r) =
    if r.status == 200
    then elim r.body [ none ↦ none | some body ↦ some (trim_space (take 64 body)) ]
    else none

-- The comparison with a baseline: a probe that failed passes.
unfoldable pub verdict : Text → Option Text → Option Text
verdict baseline none = some []
verdict baseline (some observed) = if text_eq observed baseline then none else some observed

module _ {W : Type 0} (get : DialPath → W → Option Response × W) where
  -- `probeEgressIP`
  unfoldable pub probe_egress_ip : W → Option Text × W
  probe_egress_ip w = let (r, w') = get direct w in (probe_body r, w')

  -- `probeContractEgressIP`; the flag is whether `contractProbeDialer` is set.
  unfoldable pub probe_contract_egress_ip : Bool → W → Option Text × W
  unfolding probe_egress_ip
  probe_contract_egress_ip false w = probe_egress_ip w
  probe_contract_egress_ip true w = let (r, w') = get upstream w in (probe_body r, w')

  -- `verifyExitIPDiffers`: `none` is the leak error, `some` the observed address, empty where the
  -- contract was skipped or the probe failed.
  unfoldable pub verify_exit_ip_differs : Bool → Text → W → Option Text × W
  unfolding verdict
  verify_exit_ip_differs dialer baseline w =
      if text_eq baseline []
      then (some [], w)
      else let (observed, w') = probe_contract_egress_ip dialer w in (verdict baseline observed, w')
