-- ===== src/Provider/WireGuard.antt =====
-- What the plugins for Mullvad and Surfshark have in common, each in a copy of its own: a tunnel of
-- WireGuard that `wg-quick` starts, after an interface of an earlier run was taken down, and the
-- probe of the exit. The lines are those of internal/provider/mullvad/mullvad.go.
pub mod Collision
use tundler.Base.{
  Text, Bool, true, not, ◌&&◌, List, [], ◌∷◌, codes, text_eq, trim_space, if◌then◌else◌,
}
use tundler.Provider.Machine.{Machine, is_none, command}

abbrev pub show_args : List Text
show_args = codes "link" ∷ codes "show" ∷ codes "wg0" ∷ []

abbrev pub del_args : List Text
del_args = codes "link" ∷ codes "del" ∷ codes "wg0" ∷ []

module _ {W : Type 0} (m : Machine W) where
  -- `wireGuardInterfacePresent`
  unfoldable pub wire_guard_interface_present : W → Bool × W
  wire_guard_interface_present w =
      let ((out, err), w') = command m (codes "ip") show_args w in (is_none err, w')

  -- `cleanupStaleWireGuard`
  unfoldable pub cleanup_stale_wire_guard : Text → W → W
  unfolding wire_guard_interface_present
  cleanup_stale_wire_guard config_file w =
      let (present, w₁) = wire_guard_interface_present w in
      let (r, w₂) = command m (codes "wg-quick") (codes "down" ∷ config_file ∷ []) w₁ in
      let (r', w₃) = command m (codes "ip") del_args w₂ in if present then w₃ else w₁

  -- The file of the tunnel and its start: whether there was an error.
  unfoldable pub start : Text → Text → W → Bool × W
  unfolding cleanup_stale_wire_guard
  start config_file config w =
      let (err, w₁) = m.write_file config_file config w in
      let ((out, err'), w₂) =
        command m (codes "wg-quick") (codes "up" ∷ config_file ∷ [])
          (cleanup_stale_wire_guard config_file w₁) in
      if is_none err then (not (is_none err'), w₂) else (true, w₁)

  -- `isWireGuardConnected`
  unfoldable pub is_wire_guard_connected : W → Bool × W
  is_wire_guard_connected w =
      let ((out, err), w') = command m (codes "wg") (codes "show" ∷ codes "wg0" ∷ []) w in
      (is_none err && not (text_eq out []), w')

  -- The address in Status, with the seconds that `curl` has.
  unfoldable pub exit_ip : Text → W → Text × W
  exit_ip seconds w =
      let ((out, err), w') =
        command m (codes "curl")
          (codes "-s" ∷ codes "--max-time" ∷ seconds ∷ codes "https://icanhazip.com" ∷ []) w in
      (if is_none err then trim_space out else [], w')

  -- `Disconnect`, as far as the tunnel goes.
  unfoldable pub take_down : Text → W → W
  take_down config_file w = (command m (codes "wg-quick") (codes "down" ∷ config_file ∷ []) w).1
