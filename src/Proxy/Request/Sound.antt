-- ===== src/Proxy/Request/Sound.antt =====
-- What a parsed request is: its target, and the bytes that are forwarded.
use tundler.Base.{
  ℕ, zero, suc, ◌+◌, ◌<◌, ◌≡◌, refl, sym, ap, ◌∙◌, Text, true, Option, none, some, List, [], ◌∷◌,
  ◌++◌, text_eq, trim_space, fields, contains_byte, length, arith, ◌==◌, Bool-cases, Option-cases,
  inl, inr,
}
use tundler.Proxy.Request.{
  newline, colon, push_line, read_line, request_target, skip_headers, with_target, parse_connect,
}

-- What was read, and what is left, is the text; a line has a byte at least.
abbrev Splits : Text → Option (Text × Text) → Type 0
Splits s none = Unit
Splits s (some (line, rest)) = (s ≡ line ++ rest) × (length rest < length s)

read_line-Splits : (s : Text) → Splits s (read_line s)
unfolding read_line
read_line-Splits [] = tt
read_line-Splits (c ∷ s) = elim (Bool-cases (c == newline)) [
  | inl e ↦ rw (e, read_line) (ground arith)
  | inr e ↦ rw (e, read_line) (push_line-Splits c s (read_line s) (read_line-Splits s))
]
  where
    push_line-Splits :
        (c : ℕ) (s : Text) (r : Option (Text × Text)) → Splits s r → Splits (c ∷ s) (push_line c r)
    push_line-Splits c s none h = tt
    push_line-Splits c s (some (line, rest)) h = (ap (λ t. c ∷ t) h.0, omega arith)

-- Any two amounts of fuel above the length of the text give the same headers.
skip_headers_enough :
    (n m : ℕ) (s : Text) → length s < n → length s < m → skip_headers n s ≡ skip_headers m s
unfolding skip_headers
skip_headers_enough zero m s h k = absurd (omega arith)
skip_headers_enough (suc n) zero s h k = absurd (omega arith)
skip_headers_enough (suc n) (suc m) s h k = elim (Option-cases (read_line s)) [
  | inl e ↦ rw (e, skip_headers) refl
  | inr ((l, rest), e) ↦
      let p : Splits s (some (l, rest)) = rw e at (read_line-Splits s) in
      rw (e, skip_headers) (rw (skip_headers_enough n m rest (omega arith) (omega arith)) refl)
]

-- The rest that a loop over headers returns is an end of the text.
abbrev IsEnd : Text → Text → Type 0
IsEnd s rest = (pre : Text) × (s ≡ pre ++ rest)

abbrev EndsIn : Text → Option Text → Type 0
EndsIn s none = Unit
EndsIn s (some rest) = IsEnd s rest

IsEnd-refl : (s : Text) → IsEnd s s
IsEnd-refl s = ([], refl)

++-assoc : (xs ys zs : Text) → (xs ++ ys) ++ zs ≡ xs ++ (ys ++ zs)
++-assoc [] ys zs = refl
++-assoc (x ∷ xs) ys zs = ap (λ t. x ∷ t) (++-assoc xs ys zs)

later-EndsIn :
    (s line rest : Text) (r : Option Text) → s ≡ line ++ rest → EndsIn rest r → EndsIn s r
later-EndsIn s line rest none e h = tt
later-EndsIn s line rest (some t) e (pre, h) =
    (line ++ pre, e ∙ (ap (λ x. line ++ x) h ∙ sym (++-assoc line pre t)))

skip_headers-EndsIn : (fuel : ℕ) (s : Text) → EndsIn s (skip_headers fuel s)
unfolding skip_headers
skip_headers-EndsIn zero s = tt
skip_headers-EndsIn (suc fuel) s = elim (Option-cases (read_line s)) [
  | inl e ↦ rw (e, skip_headers) tt
  | inr ((l, rest), e) ↦
      let p : Splits s (some (l, rest)) = rw e at (read_line-Splits s) in
      elim (Bool-cases (text_eq (trim_space l) [])) [
        | inl b ↦ rw (e, b, skip_headers) (l, p.0)
        | inr b ↦
            rw (e, b, skip_headers)
              (later-EndsIn s l rest (skip_headers fuel rest) p.0 (skip_headers-EndsIn fuel rest))
      ]
]

target_has_port :
    (fs : List Text) (target : Text)
    → request_target fs ≡ some target
    → contains_byte colon target ≡ true
unfolding request_target
target_has_port [] target e = absurd (cc e)
target_has_port (m ∷ []) target e = absurd (cc e)
target_has_port (m ∷ t ∷ []) target e = absurd (cc e)
target_has_port (m ∷ t ∷ v ∷ []) target e = ground arith
target_has_port (m ∷ t ∷ v ∷ x ∷ xs) target e = absurd (cc e)

-- What a request means for the tunnel.
abbrev IsRequest : Text → Option (Text × Text) → Type 0
IsRequest s none = Unit
IsRequest s (some (target, rest)) = (contains_byte colon target ≡ true) × IsEnd s rest

with_target-IsRequest :
    (s line after : Text) (target : Text) (r : Option Text)
    → contains_byte colon target ≡ true
    → s ≡ line ++ after
    → EndsIn after r
    → IsRequest s (with_target target r)
with_target-IsRequest s line after target none c e h = tt
with_target-IsRequest s line after target (some rest) c e h =
    (c, later-EndsIn s line after (some rest) e h)

-- Where a request is accepted, its target names a port, and the bytes that are left for the
-- upstream are an end of what the client sent: none is lost, added or moved.
parse_connect-IsRequest : (s : Text) → IsRequest s (parse_connect s)
unfolding parse_connect
parse_connect-IsRequest s = elim (Option-cases (read_line s)) [
  | inl e ↦ rw (e, parse_connect) tt
  | inr ((line, after), e) ↦
      let p : Splits s (some (line, after)) = rw e at (read_line-Splits s) in
      elim (Option-cases (request_target (fields (trim_space line)))) [
        | inl t ↦ rw (e, t, parse_connect) tt
        | inr (target, t) ↦
            rw (e, t, parse_connect)
              (with_target-IsRequest s line after target (skip_headers (suc (length after)) after)
                (target_has_port (fields (trim_space line)) target t) p.0
                (skip_headers-EndsIn (suc (length after)) after))
      ]
]

-- More fuel than a reading of the whole text takes gives the same headers, so the parser's fuel
-- is enough.
pub headers_enough :
    (extra : ℕ) (s : Text) → skip_headers (length s + 1 + extra) s ≡ skip_headers (length s + 1) s
headers_enough extra s =
    skip_headers_enough (length s + 1 + extra) (length s + 1) s (omega arith) (omega arith)
