-- ===== src/Connect/Retry/Distinct.antt =====
-- Which locations a rotation tries.
use tundler.Base.{
  ℕ, zero, suc, ◌+◌, ◌≤◌, ◌≡◌, refl, sym, ap, ◌∙◌, inl, inr, Text, false, List, [], ◌∷◌, ◌++◌,
  arith, elem, elem-append, IsDistinct, All, length,
}
use tundler.System.{Host, System, Error, Result, ok, Done}
use tundler.Connect.Retry.{
  Next, done, again, stop, retry_attempt, retry_loop, connect_with_retry, pause,
}
use tundler.Connect.Retry.Trace.{Call, dialled, traced}
use tundler.Connect.Retry.Iteration.{
  dialled_in, Fresh, Iterated, idle, tried, ListsTrimmed, retry_attempt-Iterated,
}

-- What is known of the locations dialled so far, when these are noted as failed.
pub record Tries (excluded dials : List Text) : Type 0 where
  pub distinct : IsDistinct dials
  pub allowed : All (λ x. elem x excluded ≡ false) dials

abbrev Noted : List Text → List Text → Type 0
Noted failed dials = (x : Text) → elem x failed ≡ elem x dials

Tries-cons :
    (excluded failed dials : List Text) (x : Text)
    → Fresh excluded failed x
    → Noted failed dials
    → Tries excluded dials
    → Tries excluded (x ∷ dials)
Tries-cons excluded failed dials x fresh same t = record {
  distinct = (sym (same x) ∙ fresh.1, t.distinct);
  allowed = (fresh.0, t.allowed);
}

Noted-cons :
    (failed dials : List Text) (x : Text)
    → Noted failed dials
    → Noted (failed ++ x ∷ []) (x ∷ dials)
Noted-cons failed dials x same y = ground (arith, elem-append y failed (x ∷ []), same y)

module _ {W : Type 0} (h : Host W) (excluded : List Text) (baseline : Text) (max_attempts : ℕ) where
  -- The loop over a provider that is traced.
  looped : ℕ → ℕ → List Text → System (W × List Call) → Result Done × System (W × List Call)
  looped left n failed = retry_loop (traced h) left n max_attempts excluded baseline failed

  iterated : List Text → System (W × List Call) → Result Next × System (W × List Call)
  iterated failed = retry_attempt (traced h) excluded baseline failed

  looped_done :
      (left n : ℕ) (failed : List Text) (s : System (W × List Call))
      → (iterated failed s).0 ≡ ok done
      → (looped (suc left) n failed s).1 ≡ (iterated failed s).1
  unfolding looped iterated retry_loop
  looped_done left n failed s p = ground arith

  looped_stop :
      (left n : ℕ) (failed : List Text) (s : System (W × List Call)) (e : Error)
      → (iterated failed s).0 ≡ ok (stop e)
      → (looped (suc left) n failed s).1 ≡ (iterated failed s).1
  unfolding looped iterated retry_loop
  looped_stop left n failed s e p = ground arith

  looped_again :
      (left n : ℕ) (failed failed' : List Text) (s : System (W × List Call))
      → (iterated failed s).0 ≡ ok (again failed')
      → (s' : System (W × List Call)) × (looped (suc left) n failed s
          ≡ looped left (n + 1) failed' s')
        × (dialled_in h s' ≡ dialled_in h (iterated failed s).1)
  unfolding looped iterated retry_loop
  looped_again left n failed failed' s p =
      ((pause (traced h) n max_attempts (iterated failed s).1).1, ground arith, ground arith)

  -- The loop dials fresh locations only, and no more than its iterations.
  abbrev Kept : ℕ → List Text → List Text → Type 0
  Kept left before after = Tries excluded after × (length after ≤ length before + left)

  round-Kept :
      ListsTrimmed h
      → (left n : ℕ) (failed : List Text) (s : System (W × List Call))
      → Noted failed (dialled_in h s)
      → Tries excluded (dialled_in h s)
      → ((failed' : List Text) (s' : System (W × List Call))
          → Noted failed' (dialled_in h s')
          → Tries excluded (dialled_in h s')
          → Kept left (dialled_in h s') (dialled_in h (looped left (n + 1) failed' s').1))
      → Iterated excluded failed
          (dialled_in h s)
          (iterated failed s).0
          (dialled_in h (iterated failed s).1)
      → Kept (suc left) (dialled_in h s) (dialled_in h (looped (suc left) n failed s).1)
  round-Kept trim left n failed s same t ih (idle (inl p) e) =
      let (s', q, d) = looped_again left n failed failed s p in
      let (kept, few) = ih failed s' (rw (d ∙ e) same) (rw (d ∙ e) t) in
      rw q (kept, omega (arith, few, ap length (d ∙ e)))
  round-Kept trim left n failed s same t ih (idle (inr (e', p)) e) =
      rw (looped_stop left n failed s e' p) (rw e (t, omega arith))
  round-Kept trim left n failed s same t ih (tried x fresh e (inl p)) =
      rw (looped_done left n failed s p)
        (rw e (Tries-cons excluded failed _ x fresh same t, omega arith))
  round-Kept trim left n failed s same t ih (tried x fresh e (inr p)) =
      let (s', q, d) = looped_again left n failed (failed ++ x ∷ []) s p in
      let (kept, few) =
        ih (failed ++ x ∷ []) s' (rw (d ∙ e) (Noted-cons failed _ x same))
          (rw (d ∙ e) (Tries-cons excluded failed _ x fresh same t)) in
      rw q (kept, omega (arith, few, ap length (d ∙ e)))

  looped-Kept :
      ListsTrimmed h
      → (left n : ℕ) (failed : List Text) (s : System (W × List Call))
      → Noted failed (dialled_in h s)
      → Tries excluded (dialled_in h s)
      → Kept left (dialled_in h s) (dialled_in h (looped left n failed s).1)
  unfolding looped retry_loop iterated
  looped-Kept trim zero n failed s same t = (t, omega arith)
  looped-Kept trim (suc left) n failed s same t =
      round-Kept trim left n failed s same t
        (λ failed' s' same' t'. looped-Kept trim left (n + 1) failed' s' same' t')
        (retry_attempt-Iterated h excluded failed baseline s trim)

  -- If the provider lists only names that are trimmed and not empty, then from an empty record of
  -- calls a rotation dials each location at most once, never an excluded one, and no more locations
  -- than it has attempts, whatever else the provider, its client and the network do.
  pub connect_with_retry-dials :
      (s : System (W × List Call))
      → ListsTrimmed h
      → s.world.1 ≡ []
      → let dials =
          dialled_in h (connect_with_retry (traced h) excluded max_attempts baseline s).1 in
        IsDistinct dials × All (λ x. elem x excluded ≡ false) dials × (length dials ≤ max_attempts)
  unfolding connect_with_retry looped
  connect_with_retry-dials s trim e =
      let none_yet : dialled_in h s ≡ [] = ap dialled e in
      let (t, few) =
        looped-Kept trim max_attempts 1 [] s (rw none_yet (λ x. refl))
          (rw none_yet (record { distinct = tt; allowed = tt })) in
      (t.distinct, t.allowed, omega (arith, few, ap length none_yet))
