-- ===== src/Rotator/Ends.antt =====
-- How a rotation ends.
use tundler.Base.{
  ℕ, zero, suc, ◌+◌, ◌%◌, ◌^◌, ◌≡◌, refl, sym, ap, ◌⊎◌, inl, inr, Text, ◌||◌, if◌then◌else◌, List,
  [], Option, none, some, arith, Bool-cases,
}
use tundler.State.{
  StateTracker, RotationRecord, Outcome, ready, failed, draining, rotating, is_ready, is_failed,
  success, failure, set_state, record_rotation,
}
use tundler.System.{Host, System, Result, ok, err, Done, call, set}
use tundler.Connect.Retry.{connect_with_retry}
use tundler.Connect.Retry.Outcome.{RetryEnds, connect_with_retry_ends}
use tundler.Drain.{DrainController}
use tundler.Drain.Tidy.{AllTidy}
use tundler.Rotator.{
  drain_proxy, before_disconnect, after_connect, rotate, rotate_if_ready, drain_wait_timeout,
}

module _ {W : Type 0} (h : Host W) where
  -- The drain never fails, and leaves the tracker alone.
  drain_tidy :
      (drain : Option (DrainController W)) (s : System W)
      → AllTidy drain
      → let (r, s') = drain_proxy h drain s in (r ≡ ok tt) × (s'.tracker ≡ s.tracker)
  unfolding drain_proxy
  drain_tidy none s t = (refl, refl)
  drain_tidy (some d) s t =
      ground (arith, t.trigger s, t.wait drain_wait_timeout (d.trigger_graceful_drain s).1)

  before_tidy :
      (drain : Option (DrainController W)) (s : System W)
      → AllTidy drain
      → let (r, s') = before_disconnect h drain s in
        (r ≡ ok tt) × (s'.tracker ≡ record s.tracker { state = rotating })
  unfolding before_disconnect set_state
  before_tidy drain s t = let s' = (set h draining s).1 in ground (arith, drain_tidy drain s' t)

  -- The record that a rotation from `s` leaves in `s'`.
  abbrev RecordIs : Outcome → Text → Text → Option RotationRecord → Type 0
  RecordIs outcome previous new none = ⊥
  RecordIs outcome previous new (some r) =
      (r.outcome ≡ outcome) × (r.previous_exit_ip ≡ previous) × (r.new_exit_ip ≡ new)

  abbrev Recorded : Outcome → Text → System W → System W → Type 0
  Recorded outcome new s s' =
      (s'.tracker.rotation_count_total ≡ (s.tracker.rotation_count_total + 1) % 2 ^ 64)
      × RecordIs outcome s.tracker.current_exit_ip new s'.tracker.last_rotation

  -- The two ends of a rotation.
  abbrev pub Concluded : System W → System W → Type 0
  Concluded s s' =
      ((s'.tracker.state ≡ ready) × Recorded success s'.tracker.current_exit_ip s s')
      ⊎ ((s'.tracker.state ≡ failed) × Recorded failure [] s s')

  after_connect-Concluded :
      (excluded : List Text) (baseline previous : Text) (n started : ℕ) (r : Result Done)
      (s s' : System W)
      → previous ≡ s.tracker.current_exit_ip
      → RetryEnds h excluded baseline n s (r, s')
      → Concluded s (after_connect h previous started r s').1
  unfolding after_connect set_state record_rotation
  after_connect-Concluded excluded baseline previous n started (ok u) s s' p e = inl (ground arith)
  after_connect-Concluded excluded baseline previous zero started (err e') s s' p e =
      inr (ground arith)
  after_connect-Concluded excluded baseline previous (suc n) started (err e') s s' p e =
      inr (ground arith)

  -- The state in which a rotation begins to connect.
  connecting_from : Option (DrainController W) → System W → System W
  connecting_from drain s =
      (call h.provider.disconnect
        (before_disconnect h drain (record s { world = (h.clock s.world).1 })).1).1

  connecting_from-tracker :
      (drain : Option (DrainController W)) (s : System W)
      → AllTidy drain
      → (connecting_from drain s).tracker ≡ record s.tracker { state = rotating }
  unfolding connecting_from
  connecting_from-tracker drain s t =
      (before_tidy drain (record s { world = (h.clock s.world).1 }) t).1

  rotate_lem :
      (excluded : List Text) (max_attempts : ℕ) (drain : Option (DrainController W))
      (baseline : Text) (s : System W)
      → AllTidy drain
      → let (r, s') =
          connect_with_retry h excluded max_attempts baseline (connecting_from drain s) in
        rotate h excluded max_attempts drain baseline s
        ≡ after_connect h s.tracker.current_exit_ip (h.clock s.world).0 r s'
  unfolding rotate connecting_from
  rotate_lem excluded max_attempts drain baseline s t =
      ground (arith, before_tidy drain (record s { world = (h.clock s.world).1 }) t)

  Concluded-from :
      (s s' x : System W)
      → s'.tracker ≡ record s.tracker { state = rotating }
      → Concluded s' x
      → Concluded s x
  Concluded-from s s' x e c = ground arith

  -- A rotation ends Ready with a success recorded, or Failed with a failure recorded; in each case
  -- it is counted once, and the record has the exit IPs before and after, with none after a
  -- failure.
  rotate_ends :
      (excluded : List Text) (max_attempts : ℕ) (drain : Option (DrainController W))
      (baseline : Text) (s : System W)
      → AllTidy drain
      → Concluded s (rotate h excluded max_attempts drain baseline s).1
  rotate_ends excluded max_attempts drain baseline s t =
      let s' = connecting_from drain s in
      let same = connecting_from-tracker drain s t in
      let r = connect_with_retry h excluded max_attempts baseline s' in
      rw (rotate_lem excluded max_attempts drain baseline s t) (
        Concluded-from s s'
          (after_connect h s.tracker.current_exit_ip (h.clock s.world).0 r.0 r.1).1 same
          (after_connect-Concluded excluded baseline s.tracker.current_exit_ip max_attempts
            (h.clock s.world).0 r.0 s' r.1 (sym (ap (λ (x : StateTracker). x.current_exit_ip) same))
            (connect_with_retry_ends h excluded baseline max_attempts s')))

  -- `rotateIfReady` from another state than Ready and Failed does nothing at all; from these it
  -- ends as a rotation does: Ready with a success recorded, or Failed with a failure recorded, in
  -- each case counted once, modulo 2 ^ 64, and with the exit IPs before and after in the record, none after a
  -- failure. The controller of the drain leaves the tracker alone.
  pub rotate_if_ready_ends :
      (excluded : List Text) (max_attempts : ℕ) (drain : Option (DrainController W))
      (baseline : Text) (s : System W)
      → AllTidy drain
      → let s' = (rotate_if_ready h excluded max_attempts drain baseline s).1 in
        if is_ready s.tracker.state || is_failed s.tracker.state then Concluded s s' else (s' ≡ s)
  unfolding rotate_if_ready
  rotate_if_ready_ends excluded max_attempts drain baseline s t =
      let ends = rotate_ends excluded max_attempts drain baseline s t in
      elim (Bool-cases (is_ready s.tracker.state || is_failed s.tracker.state)) [
        | inl e ↦ rw (e, rotate_if_ready) ends
        | inr e ↦ rw (e, rotate_if_ready) refl
      ]
