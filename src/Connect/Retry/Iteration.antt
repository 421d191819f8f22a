-- ===== src/Connect/Retry/Iteration.antt =====
-- What one iteration of `connectWithRetry` dials, over a provider whose calls are traced.
use tundler.Base.{
  ◌≡◌, refl, ◌⊎◌, inl, inr, Text, Bool, true, false, List, [], ◌∷◌, ◌++◌, Option, none, some, arith,
  elem, elem-append, All, length, text_eq, text_eq→eq, Bool-cases, Option-cases,
}
use tundler.State.{connecting, record_tunnel_up}
use tundler.Egress.{verify_exit_ip_differs, probe_contract_egress_ip}
use tundler.Location.{pick_location, allowed_locations, exclude_set}
use tundler.Location.Choice.{IsTrimmed, pick_location-some}
use tundler.System.{Host, System, Error, no_allowed_locations, Result, ok, err, Done, call, set}
use tundler.Connect.{ensure_logged_in, choose, check_contract}
use tundler.Connect.Retry.{Next, done, again, stop, try_location, try_some, retry_attempt}
use tundler.Connect.Retry.Trace.{Call, dialled, traced}

Result-cases : {A : Type 0} (r : Result A) → ((e : Error) × (r ≡ err e)) ⊎ ((a : A) × (r ≡ ok a))
Result-cases (ok a) = inr (a, refl)
Result-cases (err e) = inl (e, refl)

-- A location that is not excluded and has not failed.
abbrev pub Fresh : List Text → List Text → Text → Type 0
Fresh excluded failed x = (elem x excluded ≡ false) × (elem x failed ≡ false)

-- What an iteration has done, from the locations dialled before it to those after it: it has
-- dialled none, or one that is neither excluded nor failed, and then it noted it or ended well.
pub data Iterated (excluded failed before : List Text) (r : Result Next) (after : List Text)
    : Type 0 where
  idle :
      (r ≡ ok (again failed)) ⊎ ((e : Error) × (r ≡ ok (stop e)))
      → after ≡ before
      → Iterated excluded failed before r after
  tried :
      (x : Text)
      → Fresh excluded failed x
      → after ≡ x ∷ before
      → (r ≡ ok done) ⊎ (r ≡ ok (again (failed ++ x ∷ [])))
      → Iterated excluded failed before r after

module _ {W : Type 0} (h : Host W) where
  -- The locations dialled so far, in a state of the process.
  abbrev pub dialled_in : System (W × List Call) → List Text
  dialled_in s = dialled s.world.1

  ensure-dialled :
      (s : System (W × List Call)) → dialled_in (ensure_logged_in (traced h) s).1 ≡ dialled_in s
  unfolding ensure_logged_in
  ensure-dialled s = ground arith

  verify-log :
      (dialer : Bool) (baseline : Text) (w : W × List Call)
      → (verify_exit_ip_differs (traced h).http_get dialer baseline w).1.1 ≡ w.1
  unfolding verify_exit_ip_differs probe_contract_egress_ip
  verify-log true baseline w = ground arith
  verify-log false baseline w = ground arith

  contract-dialled :
      (baseline : Text) (s : System (W × List Call))
      → dialled_in (check_contract (traced h) baseline s).1 ≡ dialled_in s
  unfolding check_contract
  contract-dialled baseline s = ground (arith, verify-log s.contract_dialer baseline s.world)

  -- Trying a location dials it once, and ends well or notes it as failed.
  try_location-dialled :
      (baseline x : Text) (failed : List Text) (s : System (W × List Call))
      → let (r, s') = try_location (traced h) baseline failed x s in
        (dialled_in s' ≡ x ∷ dialled_in s) × ((r ≡ ok done) ⊎ (r ≡ ok (again (failed ++ x ∷ []))))
  unfolding try_location record_tunnel_up
  try_location-dialled baseline x failed s =
      ground (arith, contract-dialled baseline (call ((traced h).provider.connect x) s).1)

  -- Every name that the provider lists is written without white space around it.
  abbrev pub ListsTrimmed : Type 0
  ListsTrimmed = (w : W) → All IsTrimmed (h.provider.locations w).0

  All-elem : (xs : List Text) (x : Text) → All IsTrimmed xs → elem x xs ≡ true → IsTrimmed x
  All-elem [] x t e = cc
  All-elem (y ∷ ys) x t e = elim (Bool-cases (text_eq x y)) [
    | inl same ↦ rw (text_eq→eq x y same) t.0
    | inr other ↦ All-elem ys x t.1 (ground arith)
  ]

  -- An iteration's part after the login check, with the choice that the world makes.
  chosen : List Text → List Text → System (W × List Call) → Option Text
  chosen excluded failed s =
      let (available, w) = h.provider.locations s.world.0 in
      pick_location (λ n. (h.pick n w).0) available (excluded ++ failed)

  try_some-none :
      (excluded failed : List Text) (baseline : Text) (s : System (W × List Call))
      → chosen excluded failed s ≡ none
      → let (r, s') = try_some (traced h) excluded baseline failed s in
        (r ≡ ok (stop no_allowed_locations)) × (dialled_in s' ≡ dialled_in s)
  unfolding try_some choose chosen
  try_some-none excluded failed baseline s e = ground arith

  try_some-some :
      (excluded failed : List Text) (baseline x : Text) (s : System (W × List Call))
      → chosen excluded failed s ≡ some x
      → (s' : System (W × List Call)) × (try_some (traced h) excluded baseline failed s
          ≡ try_location (traced h) baseline failed x s')
        × (dialled_in s' ≡ dialled_in s)
  unfolding try_some choose chosen
  try_some-some excluded failed baseline x s e =
      let (available, w) = h.provider.locations s.world.0 in
      let allowed = allowed_locations (exclude_set (excluded ++ failed)) available in
      (record s { world = ((h.pick (length allowed) w).1, s.world.1) }, ground arith, refl)

  chosen-Fresh :
      (excluded failed : List Text) (x : Text) (s : System (W × List Call))
      → ListsTrimmed
      → chosen excluded failed s ≡ some x
      → Fresh excluded failed x
  unfolding chosen
  chosen-Fresh excluded failed x s t e =
      let available = (h.provider.locations s.world.0).0 in
      let (on_offer, free, apart) = pick_location-some _ available (excluded ++ failed) x e in
      ground
        (arith, elem-append x excluded failed, apart (All-elem available x (t s.world.0) on_offer))

  try_some-Iterated :
      (excluded failed : List Text) (baseline : Text) (s : System (W × List Call))
      → ListsTrimmed
      → let (r, s') = try_some (traced h) excluded baseline failed s in
        Iterated excluded failed (dialled_in s) r (dialled_in s')
  try_some-Iterated excluded failed baseline s t = elim (Option-cases (chosen excluded failed s)) [
    | inl e ↦
        let (stopped, same) = try_some-none excluded failed baseline s e in
        idle (inr (no_allowed_locations, stopped)) same
    | inr (x, e) ↦
        let (s', p, same) = try_some-some excluded failed baseline x s e in
        let (dialled_x, ended) = try_location-dialled baseline x failed s' in
        rw p (tried x (chosen-Fresh excluded failed x s t e) (cc (dialled_x, same)) ended)
  ]

  -- The state after the login check of an iteration.
  checked : System (W × List Call) → Result Done × System (W × List Call)
  checked s = ensure_logged_in (traced h) (set (traced h) connecting s).1

  checked-dialled : (s : System (W × List Call)) → dialled_in (checked s).1 ≡ dialled_in s
  unfolding checked
  checked-dialled s = ensure-dialled (set (traced h) connecting s).1

  retry_attempt_err :
      (excluded failed : List Text) (baseline : Text) (s : System (W × List Call)) (e : Error)
      → (checked s).0 ≡ err e
      → retry_attempt (traced h) excluded baseline failed s ≡ (ok (again failed), (checked s).1)
  unfolding retry_attempt checked
  retry_attempt_err excluded failed baseline s e p = ground arith

  retry_attempt_ok :
      (excluded failed : List Text) (baseline : Text) (s : System (W × List Call)) (u : Done)
      → (checked s).0 ≡ ok u
      → retry_attempt (traced h) excluded baseline failed s
        ≡ try_some (traced h) excluded baseline failed (checked s).1
  unfolding retry_attempt checked
  retry_attempt_ok excluded failed baseline s u p = ground arith

  -- An iteration dials at most one location, a fresh one, and notes it unless it ends well.
  pub retry_attempt-Iterated :
      (excluded failed : List Text) (baseline : Text) (s : System (W × List Call))
      → ListsTrimmed
      → let (r, s') = retry_attempt (traced h) excluded baseline failed s in
        Iterated excluded failed (dialled_in s) r (dialled_in s')
  retry_attempt-Iterated excluded failed baseline s t = elim (Result-cases (checked s).0) [
    | inl (e, p) ↦
        rw (retry_attempt_err excluded failed baseline s e p) (idle (inl refl) (checked-dialled s))
    | inr (u, p) ↦
        rw (retry_attempt_ok excluded failed baseline s u p)
          (rw (checked-dialled s) at (try_some-Iterated excluded failed baseline (checked s).1 t))
  ]
