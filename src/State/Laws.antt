-- ===== src/State/Laws.antt =====
-- What the tracker reports after any sequence of its operations.
use tundler.Base.{
  ℕ, ◌+◌, ◌%◌, ◌^◌, ◌≤◌, ◌<◌, ◌≡◌, refl, Text, Bool, true, false, Option, none, some, List, [], ◌∷◌,
  arith, length, take, length-take, ltb, ◌&&◌, ◌||◌, ◌==◌, Bool-cases, if◌then◌else◌, inl, inr,
}
use tundler.State.{
  State, is_ready, StateTracker, Outcome, ready, new_state_tracker, set_state,
  record_boot_login_jitter, record_tunnel_up, set_tunnel_up_listener, record_rotation,
  record_next_rotation, record_auth_failure, snapshot,
}

-- One call of a method that changes the tracker, with its arguments.
pub data Op : Type 0 where
  sets : State → Op
  jitters : ℕ → Op
  tunnel_ups : Text → Text → Op
  listens : Bool → Op
  rotations : Text → Text → Outcome → ℕ → Op
  next_rotations : ℕ → Op
  auth_failures : Text → Op

apply : Op → ℕ → StateTracker → StateTracker
apply (sets st) now s = set_state st now s
apply (jitters d) now s = record_boot_login_jitter d s
apply (tunnel_ups location ip) now s = (record_tunnel_up location ip now s).0
apply (listens fn) now s = set_tunnel_up_listener fn s
apply (rotations previous new outcome d) now s = record_rotation previous new outcome d now s
apply (next_rotations at) now s = record_next_rotation at s
apply (auth_failures reason) now s = record_auth_failure reason now s

-- Calls in the order of the lock, each with its time.
pub run : List (ℕ × Op) → StateTracker → StateTracker
run [] s = s
run ((now, op) ∷ ops) s = run ops (apply op now s)

abbrev is_some {ℓ} : {A : Type ℓ} → Option A → Bool
is_some none = false
is_some (some a) = true

-- The tracker is consistent: a pod that is Ready has a login time and a Ready time, the two come
-- together, a counter that is not 0 has a last event, the counters are of 64 bits, and the reason of
-- a failure is short.
pub record IsConsistent (s : StateTracker) : Type 0 where
  pub ready_seen : (is_ready s.state && is_some s.last_ready_at) ≡ is_ready s.state
  pub logged_in_once : is_some s.logged_in_at ≡ is_some s.last_ready_at
  pub rotations_dated : (is_some s.last_rotation || s.rotation_count_total == 0) ≡ true
  pub failures_dated : (is_some s.last_auth_failure_at || s.auth_failures_total == 0) ≡ true
  pub rotations_bounded : s.rotation_count_total < 2 ^ 64
  pub failures_bounded : s.auth_failures_total < 2 ^ 64
  pub reason_short : length s.last_auth_failure_reason ≤ 256

new-IsConsistent : (provider : Text) → IsConsistent (new_state_tracker provider)
unfolding new_state_tracker
new-IsConsistent provider = ground arith

length-cut : (reason : Text) → length (take 256 reason) ≤ 256
length-cut reason = omega (arith, length-take 256 reason)

-- `loggedInAt` and `lastReadyAt` are stamped together.
set_state-IsConsistent :
    (st : State) (now : ℕ) (s : StateTracker) → IsConsistent s → IsConsistent (set_state st now s)
unfolding set_state
set_state-IsConsistent ready now s h = ground arith
set_state-IsConsistent _ now s h = ground arith

cut_length :
    (reason : Text) → length (if ltb 256 (length reason) then take 256 reason else reason) ≤ 256
cut_length reason = elim (Bool-cases (ltb 256 (length reason))) [
  | inl long ↦ rw long (length-cut reason)
  | inr short ↦ rw short (ground arith)
]

record_auth_failure-IsConsistent :
    (reason : Text) (now : ℕ) (s : StateTracker)
    → IsConsistent s
    → IsConsistent (record_auth_failure reason now s)
unfolding record_auth_failure
record_auth_failure-IsConsistent reason now s h = record {
  ready_seen = h.ready_seen;
  logged_in_once = h.logged_in_once;
  rotations_dated = h.rotations_dated;
  failures_dated = ground arith;
  rotations_bounded = h.rotations_bounded;
  failures_bounded = omega arith;
  reason_short = cut_length reason;
}

apply-IsConsistent :
    (op : Op) (now : ℕ) (s : StateTracker) → IsConsistent s → IsConsistent (apply op now s)
unfolding apply
apply-IsConsistent (sets st) now s h = set_state-IsConsistent st now s h
apply-IsConsistent (auth_failures reason) now s h = record_auth_failure-IsConsistent reason now s h
apply-IsConsistent (rotations previous new outcome d) now s h =
    unfold record_rotation in ground arith
apply-IsConsistent (tunnel_ups location ip) now s h = unfold record_tunnel_up in ground arith
apply-IsConsistent (jitters d) now s h = unfold record_boot_login_jitter in ground arith
apply-IsConsistent (listens fn) now s h = unfold set_tunnel_up_listener in ground arith
apply-IsConsistent (next_rotations at) now s h = unfold record_next_rotation in ground arith

run_from-IsConsistent :
    (ops : List (ℕ × Op)) (s : StateTracker) → IsConsistent s → IsConsistent (run ops s)
unfolding run
run_from-IsConsistent [] s h = h
run_from-IsConsistent ((now, op) ∷ ops) s h =
    run_from-IsConsistent ops (apply op now s) (apply-IsConsistent op now s h)

-- The calls of one kind in a sequence.
abbrev pub rotation_calls : List (ℕ × Op) → ℕ
rotation_calls [] = 0
rotation_calls ((now, rotations previous new outcome d) ∷ ops) = rotation_calls ops + 1
rotation_calls ((now, _) ∷ ops) = rotation_calls ops

abbrev pub failure_calls : List (ℕ × Op) → ℕ
failure_calls [] = 0
failure_calls ((now, auth_failures reason) ∷ ops) = failure_calls ops + 1
failure_calls ((now, _) ∷ ops) = failure_calls ops

rotation_step :
    (op : Op) (now : ℕ) (s : StateTracker) (ops : List (ℕ × Op))
    → ((apply op now s).rotation_count_total + rotation_calls ops) % 2 ^ 64
      ≡ (s.rotation_count_total + rotation_calls ((now, op) ∷ ops)) % 2 ^ 64
unfolding apply
rotation_step (sets ready) now s ops = unfold set_state in refl
rotation_step (sets _) now s ops = unfold set_state in refl
rotation_step (rotations previous new outcome d) now s ops = unfold record_rotation in omega arith
rotation_step (tunnel_ups location ip) now s ops = unfold record_tunnel_up in refl
rotation_step (jitters d) now s ops = unfold record_boot_login_jitter in refl
rotation_step (listens fn) now s ops = unfold set_tunnel_up_listener in refl
rotation_step (next_rotations at) now s ops = unfold record_next_rotation in refl
rotation_step (auth_failures reason) now s ops = unfold record_auth_failure in refl

failure_step :
    (op : Op) (now : ℕ) (s : StateTracker) (ops : List (ℕ × Op))
    → ((apply op now s).auth_failures_total + failure_calls ops) % 2 ^ 64
      ≡ (s.auth_failures_total + failure_calls ((now, op) ∷ ops)) % 2 ^ 64
unfolding apply
failure_step (sets ready) now s ops = unfold set_state in refl
failure_step (sets _) now s ops = unfold set_state in refl
failure_step (rotations previous new outcome d) now s ops = unfold record_rotation in refl
failure_step (tunnel_ups location ip) now s ops = unfold record_tunnel_up in refl
failure_step (jitters d) now s ops = unfold record_boot_login_jitter in refl
failure_step (listens fn) now s ops = unfold set_tunnel_up_listener in refl
failure_step (next_rotations at) now s ops = unfold record_next_rotation in refl
failure_step (auth_failures reason) now s ops = unfold record_auth_failure in omega arith

run-counts :
    (ops : List (ℕ × Op)) (s : StateTracker)
    → ((run ops s).rotation_count_total % 2 ^ 64
        ≡ (s.rotation_count_total + rotation_calls ops) % 2 ^ 64)
      × ((run ops s).auth_failures_total % 2 ^ 64
          ≡ (s.auth_failures_total + failure_calls ops) % 2 ^ 64)
unfolding run
run-counts [] s = omega arith
run-counts ((now, op) ∷ ops) s =
    omega (
      arith,
      run-counts ops (apply op now s),
      rotation_step op now s ops,
      failure_step op now s ops,
    )

-- What the tracker, and /status at any time, tell after some calls.
abbrev pub Tells : List (ℕ × Op) → ℕ → StateTracker → Type 0
Tells ops now s =
    IsConsistent s
    × ((snapshot now s).rotation_count_total ≡ rotation_calls ops % 2 ^ 64)
    × ((snapshot now s).auth_failures_total ≡ failure_calls ops % 2 ^ 64)

-- After any sequence of calls on a new tracker, at any times, the tracker is consistent, and the
-- totals that /status reports, at any time, are the numbers of rotations and of login failures
-- among the calls, modulo 2 ^ 64.
pub run-IsConsistent :
    (provider : Text) (ops : List (ℕ × Op)) (now : ℕ)
    → Tells ops now (run ops (new_state_tracker provider))
unfolding snapshot
run-IsConsistent provider ops now =
    let c = run_from-IsConsistent ops _ (new-IsConsistent provider) in
    let n = run-counts ops (new_state_tracker provider) in
    unfold new_state_tracker in
    (c, omega (arith, n, c.rotations_bounded), omega (arith, n, c.failures_bounded))
