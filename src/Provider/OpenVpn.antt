-- ===== src/Provider/OpenVpn.antt =====
-- What the plugins that run `openvpn` themselves have in common, each in a copy of its own: the test
-- whether traffic leaves through the tunnel, the two loops that wait for it to come and go, the
-- choice of a server, and the names that they offer.
pub mod Names
use tundler.Base.{
  ℕ, zero, suc, ◌≡◌, refl, ◌∙◌, sym, inl, inr, Text, Bool, true, false, not, ◌&&◌, ◌||◌, Option,
  none, some, List, [], ◌∷◌, ◌++◌, map, codes, text_eq, to_lower, elem, contains, length, get_elem?,
  IsDistinct, Bool-cases, arith, if◌then◌else◌,
}
use tundler.Provider.Machine.{Machine, is_none, milliseconds, command}

-- `strings.ToLower`
abbrev pub lower : Text → Text
lower s = map to_lower s

-- The values of a field that are not empty, each once, in the order of the first.
unfoldable pub distinct : {A : Type 0} → (A → Text) → List Text → List A → List Text
distinct f seen [] = []
distinct f seen (s ∷ ss) =
    let rest = distinct f seen ss in
    let more = distinct f (f s ∷ seen) ss in
    if text_eq (f s) [] || elem (f s) seen then rest else f s ∷ more

-- The elements that satisfy a test.
unfoldable pub matching : {A : Type 0} → (A → Bool) → List A → List A
matching p [] = []
matching p (s ∷ ss) = let rest = matching p ss in if p s then s ∷ rest else rest

module _ {W : Type 0} (m : Machine W) where
  -- `isOpenVPNConnected`
  unfoldable pub is_open_vpn_connected : W → Bool × W
  is_open_vpn_connected w =
      let ((out, err), w') =
        command m (codes "ip") (codes "route" ∷ codes "get" ∷ codes "8.8.8.8" ∷ []) w in
      (is_none err && contains out (codes " dev tun0 "), w')

  -- Whether the tunnel comes up within a number of rounds of half a second.
  unfoldable pub await_up : ℕ → W → Bool × W
  unfolding is_open_vpn_connected
  await_up zero w = (false, w)
  await_up (suc rounds) w =
      let (up, w') = is_open_vpn_connected (m.sleep (milliseconds 500) w) in
      let later = await_up rounds w' in if up then (true, w') else later

  -- The wait for it to go, in rounds of a tenth of a second.
  pub await_down : ℕ → W → W
  unfolding is_open_vpn_connected
  await_down zero w = w
  await_down (suc rounds) w =
      let (up, w') = is_open_vpn_connected w in
      let later = await_down rounds (m.sleep (milliseconds 100) w') in if up then later else w'

  -- `pickRandomServer`
  unfoldable pub pick_random_server : {A : Type 0} → List A → W → Option A × W
  pick_random_server [] w = (none, w)
  pick_random_server (s ∷ ss) w =
      let (i, w') = m.pick (length (s ∷ ss)) w in (get_elem? (s ∷ ss) i, w')
