-- ===== src/Exec/Capture.antt =====
-- What is captured of the output of a child process.
use tundler.Base.{
  ℕ, zero, suc, ◌-◌, ◌≤◌, ◌≡◌, refl, sym, ap, ◌∙◌, Text, List, [], ◌∷◌, ◌++◌, length, take, ltb,
  ◌==◌, arith, Bool-cases, inl, inr, take_all, take-append, length-take,
}
use tundler.Exec.{write, writes}

-- All that a process wrote.
abbrev output : List Text → Text
output [] = []
output (p ∷ ps) = p ++ output ps

take_none : (xs : Text) → take 0 xs ≡ []
take_none xs = refl

append_nil : (xs : Text) → xs ++ [] ≡ xs
append_nil [] = refl
append_nil (x ∷ xs) = ap (λ t. x ∷ t) (append_nil xs)

append_assoc : (xs ys zs : Text) → (xs ++ ys) ++ zs ≡ xs ++ (ys ++ zs)
append_assoc [] ys zs = refl
append_assoc (x ∷ xs) ys zs = ap (λ t. x ∷ t) (append_assoc xs ys zs)

-- One write keeps what fits of it after the buffer, and reports all of it.
write_lem :
    (cap : ℕ) (p buf : Text) → length buf ≤ cap → write cap p buf ≡ (length p, take cap (buf ++ p))
unfolding write
write_lem cap p buf h =
    let e : take cap (buf ++ p) ≡ buf ++ take (cap - length buf) p =
      take-append cap buf p ∙ ap (λ t. t ++ take (cap - length buf) p) (take_all cap buf h) in
    rw e (elim (Bool-cases ((cap - length buf) == 0)) [
      | inl full ↦ let z : cap - length buf ≡ 0 = ground arith in rw z (rw (append_nil buf) refl)
      | inr room ↦ elim (Bool-cases (ltb (cap - length buf) (length p))) [
        | inl long ↦ rw (room, long) refl
        | inr short ↦ rw (room, short, take_all (cap - length buf) p (ground arith)) refl
      ]
    ])

take-take_append : (n : ℕ) (xs ys : Text) → take n (take n xs ++ ys) ≡ take n (xs ++ ys)
take-take_append zero xs ys = refl
take-take_append (suc n) [] ys = refl
take-take_append (suc n) (x ∷ xs) ys = ap (λ t. x ∷ t) (take-take_append n xs ys)

writes_from :
    (cap : ℕ) (ps : List Text) (buf : Text)
    → length buf ≤ cap
    → writes cap ps buf ≡ take cap (buf ++ output ps)
unfolding writes
writes_from cap [] buf h = rw (append_nil buf) (sym (take_all cap buf h))
writes_from cap (p ∷ ps) buf h =
    let kept = take cap (buf ++ p) in
    let fits : length kept ≤ cap = omega (arith, length-take cap (buf ++ p)) in
    rw (write_lem cap p buf h) (
      writes_from cap ps kept fits
      ∙ (take-take_append cap (buf ++ p) (output ps)
          ∙ ap (λ t. take cap t) (append_assoc buf p (output ps))))

-- However a process cuts its output into writes, what is captured is its first `cap` bytes, and
-- every write is reported as complete, so the process is never stopped by the limit.
captured :
    (cap : ℕ) (ps : List Text) (p : Text)
    → (writes cap ps [] ≡ take cap (output ps)) × ((write cap p (writes cap ps [])).0 ≡ length p)
captured cap ps p =
    let e = writes_from cap ps [] (omega arith) in
    (
      e,
      ap (λ r. r.0)
          (write_lem cap p (writes cap ps []) (rw e (omega (arith, length-take cap (output ps))))),
    )
