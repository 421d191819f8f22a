-- ===== src/Server/Debounce.antt =====
-- Which requests start a rotation, and for how long a completed rotation holds the next one off.
use tundler.Base.{
  ℕ, ◌+◌, ◌*◌, ◌/◌, ◌≡◌, refl, Text, Bool, true, false, not, ◌&&◌, arith, leb, ◌==◌, Bool-cases,
  inl, inr,
}
use tundler.Timing.{second}
use tundler.State.{
  State, ready, draining, rotating, failed, booting, logging_in, connecting, is_ready, Outcome,
  StateTracker, record_rotation, snapshot, Snapshot,
}
use tundler.Server.{
  time_since_last_rotation, rotate_reply, rotate_handler, readyz_handler,
  min_time_between_rotations,
}

reply_starts :
    (now : ℕ) (post : Bool) (st : State) (snap : Snapshot)
    → snap.state ≡ st
    → let r = rotate_reply post now snap in
      (r.starts_rotation ≡ (post && is_ready st && not (time_since_last_rotation now snap).1))
      × (r.starts_rotation ≡ (r.status == 202))
unfolding rotate_reply time_since_last_rotation
reply_starts now false st snap e = ground arith
reply_starts now true ready snap e = rw e (elim (Bool-cases (time_since_last_rotation now snap).1) [
  | inl recent ↦ rw recent (refl, refl)
  | inr free ↦ rw free (refl, refl)
])
reply_starts now true draining snap e = rw e (refl, refl)
reply_starts now true rotating snap e = rw e (refl, refl)
reply_starts now true failed snap e = rw e (refl, refl)
reply_starts now true booting snap e = rw e (refl, refl)
reply_starts now true logging_in snap e = rw e (refl, refl)
reply_starts now true connecting snap e = rw e (refl, refl)

-- A request starts a rotation exactly when it is a POST to a pod for which /readyz answers 200, and
-- outside of the debounce window; it is answered 202 exactly then, so no other request is told
-- that a rotation was started.
pub starts_iff :
    (post : Bool) (now : ℕ) (s : StateTracker)
    → let r = rotate_handler post now s in
      (r.starts_rotation ≡ (
        post
        && ((readyz_handler s).status == 200)
        && not (time_since_last_rotation now (snapshot now s)).1))
      × (r.starts_rotation ≡ (r.status == 202))
unfolding rotate_handler snapshot readyz_handler
starts_iff post now s = elim (Bool-cases (is_ready s.state)) [
  | inl e ↦ rw e (rw e at (reply_starts now post s.state (snapshot now s) refl))
  | inr e ↦ rw e (rw e at (reply_starts now post s.state (snapshot now s) refl))
]

-- After a rotation that is recorded at the time `t`, a POST to the Ready pod starts another one
-- exactly from 30 s after the last whole second before `t`.
pub debounce_exact :
    (previous new : Text) (outcome : Outcome) (d t now : ℕ) (s : StateTracker)
    → s.state ≡ ready
    → (rotate_handler true now (record_rotation previous new outcome d t s)).starts_rotation
      ≡ leb (t / second * second + min_time_between_rotations) now
unfolding rotate_handler rotate_reply snapshot time_since_last_rotation record_rotation
debounce_exact previous new outcome d t now s r = ground arith
