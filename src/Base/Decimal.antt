-- ===== src/Base/Decimal.antt =====
-- Numbers in decimal digits: `%d` of a number that is not negative, and the reading of digits.
use tundler.Base.Tests.{Bool-cases, ltb, leb, if◌then◌else◌}
use tundler.Base.Strings.{Text, text_eq}
use Prim.Native.Nat.{ℕ, zero, suc, ◌+◌, ◌-◌, ◌*◌, ◌/◌, ◌%◌, ◌<◌}
use mathlib.Core.Path.{◌≡◌, refl, sym, ap, ◌∙◌}
use mathlib.Core.Bool.{Bool, true, false, ◌&&◌}
use mathlib.Core.Logic.{inl, inr}
use mathlib.Core.List.{[], ◌∷◌, ◌++◌}
use native.Mathlib.Omega.{arith}

-- The digits of a number before those that are there already; the fuel is above the number.
digits : ℕ → ℕ → Text → Text
digits zero n acc = acc
digits (suc fuel) n acc =
    let more = digits fuel (n / 10) ((48 + n % 10) ∷ acc) in
    if ltb n 10 then (48 + n) ∷ acc else more

-- `%d`
unfoldable pub decimal : ℕ → Text
unfolding digits
decimal n = digits (suc n) n []

-- The number that digits name, after one that was read.
unfoldable pub value : ℕ → Text → ℕ
value acc [] = acc
value acc (c ∷ s) = value (acc * 10 + (c - 48)) s

abbrev pub is_digit : ℕ → Bool
is_digit c = leb 48 c && leb c 57

abbrev pub all_digits : Text → Bool
all_digits [] = true
all_digits (c ∷ s) = is_digit c && all_digits s

value-digits : (fuel n : ℕ) (acc : Text) → n < fuel → value 0 (digits fuel n acc) ≡ value n acc
unfolding digits value
value-digits zero n acc h = absurd (omega arith)
value-digits (suc fuel) n acc h =
    let ih = value-digits fuel (n / 10) ((48 + n % 10) ∷ acc) in
    let e : n / 10 * 10 + (48 + n % 10 - 48) ≡ n = omega arith in ground (arith, ih, e)

-- A number is read back from its digits.
pub value-decimal : (n : ℕ) → value 0 (decimal n) ≡ n
unfolding decimal value
value-decimal n = value-digits (suc n) n [] (omega arith)

all_digits-digits :
    (fuel n : ℕ) (acc : Text) → all_digits acc ≡ true → all_digits (digits fuel n acc) ≡ true
unfolding digits
all_digits-digits zero n acc h = h
all_digits-digits (suc fuel) n acc h =
    let ih = all_digits-digits fuel (n / 10) ((48 + n % 10) ∷ acc) in ground (arith, ih)

pub all_digits-decimal : (n : ℕ) → all_digits (decimal n) ≡ true
unfolding decimal
all_digits-decimal n = all_digits-digits (suc n) n [] refl

digits-ne_nil : (fuel n : ℕ) (acc : Text) → n < fuel → text_eq (digits fuel n acc) [] ≡ false
unfolding digits
digits-ne_nil zero n acc h = absurd (omega arith)
digits-ne_nil (suc fuel) n acc h = elim (Bool-cases (ltb n 10)) [
  | inl e ↦ rw e refl
  | inr e ↦ rw e (digits-ne_nil fuel (n / 10) ((48 + n % 10) ∷ acc) (ground (arith, e)))
]

pub decimal-ne_nil : (n : ℕ) → text_eq (decimal n) [] ≡ false
unfolding decimal
decimal-ne_nil n = digits-ne_nil (suc n) n [] (omega arith)

-- The digits at the start of a text.
pub leading : Text → Text
leading [] = []
leading (c ∷ s) = if is_digit c then c ∷ leading s else []

leading_lem :
    (d : Text) (c : ℕ) (s : Text)
    → all_digits d ≡ true
    → is_digit c ≡ false
    → leading (d ++ (c ∷ s)) ≡ d
unfolding leading
leading_lem [] c s h e = rw e refl
leading_lem (x ∷ d) c s h e = ground (arith, h, leading_lem d c s)

-- Two numbers with a text after them that starts with no digit are the same where the texts are.
pub decimal-injective :
    (n k c : ℕ) (s : Text) (c' : ℕ) (s' : Text)
    → is_digit c ≡ false
    → is_digit c' ≡ false
    → decimal n ++ (c ∷ s) ≡ decimal k ++ (c' ∷ s')
    → n ≡ k
decimal-injective n k c s c' s' h h' e =
    let a = leading_lem (decimal n) c s (all_digits-decimal n) h in
    let b = leading_lem (decimal k) c' s' (all_digits-decimal k) h' in
    let d : decimal n ≡ decimal k = sym a ∙ (ap leading e ∙ b) in
    sym (value-decimal n) ∙ (ap (value 0) d ∙ value-decimal k)
