-- ===== src/Provider/Pods.antt =====
-- The number of a pod in its StatefulSet: `podOrdinal` of internal/provider/cyberghost/cyberghost.go
-- and of internal/provider/mullvad/mullvad.go.
use tundler.Base.{
  ℕ, ◌^◌, ◌<◌, ◌≡◌, refl, Text, true, false, not, ◌&&◌, Option, none, some, [], ◌∷◌, ◌++◌, text_eq,
  inl, inr, Bool-cases, Option-cases, ltb, lt→ltb, arith, ◌==◌, if◌then◌else◌,
}
use tundler.Base.Decimal.{
  decimal, value, all_digits, value-decimal, all_digits-decimal, decimal-ne_nil,
}

-- What the group of `-(\d+)$` matches, at the first place where there is a match.
pub ordinal_text : Text → Option Text
ordinal_text [] = none
ordinal_text (c ∷ s) =
    if c == b'-' && not (text_eq s []) && all_digits s then some s else ordinal_text s

-- `strconv.Atoi` of a text of digits: the number, or an error where an int64 does not hold it.
pub atoi : Text → Option ℕ
atoi s = let n = value 0 s in if ltb n (2 ^ 63) then some n else none

-- CyberGhost's `podOrdinal`; none is an error.
unfoldable pub pod_ordinal : Text → Option ℕ
unfolding ordinal_text atoi
pod_ordinal pod =
    if text_eq pod [] then some 0 else elim (ordinal_text pod) [ none ↦ none | some d ↦ atoi d ]

abbrev pub or_zero : Option ℕ → ℕ
or_zero none = 0
or_zero (some n) = n

-- Mullvad's `podOrdinal`, which has no error.
unfoldable pub pod_ordinal_or_zero : Text → ℕ
unfolding ordinal_text atoi
pod_ordinal_or_zero pod =
    if text_eq pod [] then 0 else elim (ordinal_text pod) [ none ↦ 0 | some d ↦ or_zero (atoi d) ]

all_digits-dash : (s d : Text) → all_digits (s ++ (b'-' ∷ d)) ≡ false
all_digits-dash [] d = refl
all_digits-dash (c ∷ s) d = ground (arith, all_digits-dash s d)

ordinal_text-dash :
    (base d : Text)
    → all_digits d ≡ true
    → text_eq d [] ≡ false
    → ordinal_text (base ++ (b'-' ∷ d)) ≡ some d
unfolding ordinal_text
ordinal_text-dash [] d h e = rw (h, e) refl
ordinal_text-dash (c ∷ base) d h e =
    ground (arith, all_digits-dash base d, ordinal_text-dash base d h e)

append-ne_nil : (s : Text) (c : ℕ) (d : Text) → text_eq (s ++ (c ∷ d)) [] ≡ false
append-ne_nil [] c d = refl
append-ne_nil (x ∷ s) c d = refl

atoi-decimal : (n : ℕ) → n < 2 ^ 63 → atoi (decimal n) ≡ some n
unfolding atoi
atoi-decimal n h = rw (value-decimal n, lt→ltb n (2 ^ 63) h) refl

-- The name of a pod of a StatefulSet.
abbrev pub pod_name : Text → ℕ → Text
pod_name base n = base ++ (b'-' ∷ decimal n)

-- The ordinal of a pod is read back from its name, whatever the name of the StatefulSet.
pub pod_ordinal-pod_name :
    (base : Text) (n : ℕ) → n < 2 ^ 63 → pod_ordinal (pod_name base n) ≡ some n
unfolding pod_ordinal
pod_ordinal-pod_name base n h =
    let o = ordinal_text-dash base (decimal n) (all_digits-decimal n) (decimal-ne_nil n) in
    rw (append-ne_nil base b'-' (decimal n), o) (atoi-decimal n h)

-- What Mullvad's `podOrdinal` makes of CyberGhost's: an error is the number of the first pod.
pub pod_ordinal_or_zero_lem : (pod : Text) → pod_ordinal_or_zero pod ≡ or_zero (pod_ordinal pod)
unfolding pod_ordinal pod_ordinal_or_zero
pod_ordinal_or_zero_lem pod = elim (Bool-cases (text_eq pod [])) [
  | inl e ↦ rw e refl
  | inr e ↦ elim (Option-cases (ordinal_text pod)) [
    | inl f ↦ rw (e, f) refl
    | inr (d, f) ↦ rw (e, f) refl
  ]
]
