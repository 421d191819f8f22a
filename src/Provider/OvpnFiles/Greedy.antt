-- ===== src/Provider/OvpnFiles/Greedy.antt =====
-- What a greedy group matches before a fixed end.
use tundler.Base.{
  ◌≡◌, refl, Text, false, Option, none, some, [], ◌∷◌, ◌++◌, text_eq, contains_byte, arith, ◌==◌,
}
use tundler.Provider.OvpnFiles.{greedy}

module _ {B : Type 0} (tail : Text → Option B) (end : Text) (b : B) where
  -- Where the end is read at once and nowhere inside itself, a group before it takes all that comes
  -- before it.
  pub greedy_lem :
      (t : Text)
      → greedy tail end ≡ none
      → tail end ≡ some b
      → text_eq t [] ≡ false
      → contains_byte 10 t ≡ false
      → greedy tail (t ++ end) ≡ some (t, b)
  unfolding greedy
  greedy_lem [] inside here h n = absurd (cc)
  greedy_lem (c ∷ []) inside here h n = rw (inside, here) (ground (arith, n))
  greedy_lem (c ∷ d ∷ t) inside here h n =
      let ih = greedy_lem (d ∷ t) inside here refl (ground (arith, n)) in
      let e : (c == 10) ≡ false = ground (arith, n) in rw (greedy, e, ih) refl
