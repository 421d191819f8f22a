-- ===== src/Provider/Pia/Lists.antt =====
-- What `Locations` lists.
use tundler.Base.{
  ℕ, ◌≤◌, ◌≡◌, sym, ap, Text, false, List, [], ◌∷◌, codes, text_eq, trim_space,
  trim_space-trim_space, has_prefix, All, elem, length, IsDistinct, Bool-cases, inl, inr, arith,
}
use mathlib.Core.Path.{subst}
use tundler.Location.Choice.{IsTrimmed}
use tundler.Connect.Retry.Iteration.{ListsTrimmed}
use tundler.Connect.Retry.{connect_with_retry}
use tundler.Connect.Retry.Trace.{Call, traced}
use tundler.Connect.Retry.Iteration.{dialled_in}
use tundler.Connect.Retry.Distinct.{connect_with_retry-dials}
use tundler.System.{Host, System}
use tundler.Provider.{VpnProvider}
use tundler.Provider.Machine.{Machine}
use tundler.Provider.Pia.{Pia, Feed, LoginError, listed, locations, provider}

listed-IsTrimmed : (lines : List Text) → All IsTrimmed (listed lines)
unfolding listed
listed-IsTrimmed [] = tt
listed-IsTrimmed (line ∷ lines) = elim (Bool-cases (text_eq (trim_space line) [])) [
  | inl e ↦ rw e (listed-IsTrimmed lines)
  | inr e ↦ elim (Bool-cases (has_prefix (trim_space line) (codes "#"))) [
    | inl f ↦ rw (e, f) (listed-IsTrimmed lines)
    | inr f ↦
        rw (e, f)
          (
            (trim_space-trim_space line, λ g. absurd (ground (arith, e, ap (λ t. text_eq t []) g))),
            listed-IsTrimmed lines,
          )
  ]
]

module _ {W : Type 0} (m : Machine W) (feed : Feed W) (fuel : ℕ) (message : LoginError → Text) where
  locations-IsTrimmed :
      (sw : Pia × W) → All IsTrimmed ((provider m feed fuel message).locations sw).0
  unfolding provider locations
  locations-IsTrimmed sw = listed-IsTrimmed _

  -- Where the provider is the plugin for Private Internet Access: from an empty record of calls a
  -- rotation dials each location at most once, never an excluded one, and no more locations than it
  -- has attempts, whatever `piactl`, the network and the machine do.
  pub connect_with_retry-provider :
      (h : Host (Pia × W)) (excluded : List Text) (max_attempts : ℕ) (baseline : Text)
      → (s : System ((Pia × W) × List Call)) → h.provider ≡ provider m feed fuel message
      → s.world.1 ≡ []
      → let dials =
          dialled_in h (connect_with_retry (traced h) excluded max_attempts baseline s).1 in
        IsDistinct dials × All (λ x. elem x excluded ≡ false) dials × (length dials ≤ max_attempts)
  connect_with_retry-provider h excluded max_attempts baseline s e none_yet =
      let trimmed : ListsTrimmed h =
        subst (λ (v : VpnProvider (Pia × W)). (sw : Pia × W) → All IsTrimmed (v.locations sw).0)
          (sym e) locations-IsTrimmed in
      connect_with_retry-dials h excluded baseline max_attempts s trimmed none_yet
