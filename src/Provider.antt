-- ===== src/Provider.antt =====
-- internal/provider/interface.go: the contract of the VPN providers, as state passing over a world
-- `W` that holds all that is outside the process (the provider's client and its account, the
-- network, the clock, the random source). The providers are records of this type.
-- Locations.antt is the decorator of cmd/tundler-tunnel/locations_cache.go.
pub mod Locations
pub mod Machine
pub mod Pia
pub mod OpenVpn
pub mod Ovpn
pub mod Proton
pub mod Express
pub mod Direct
pub mod Pods
pub mod WireGuard
pub mod Mullvad
pub mod Surfshark
pub mod OvpnFiles
pub mod CyberGhost
pub mod IpVanish
pub mod FastVpn
pub mod VeePn
pub mod Windscribe
use tundler.Base.{ℕ, Text, Bool, Option, List}

pub record Status : Type 0 where
  pub connected : Bool
  pub ip : Text
  pub location : Text
  pub region : Text
  pub provider : Text

-- An error is its text.
pub record VpnProvider (W : Type 0) : Type 0 where
  pub active_location : W → Text × W
  pub connect : Text → W → Status × W
  pub connected : W → Bool × W
  pub disconnect : W → Option Text × W
  pub locations : W → List Text × W
  pub logged_in : W → Bool × W
  pub login : W → Option Text × W
  pub logout : W → Option Text × W
  pub status : W → Status × W
  pub version : W → Option Text × W
