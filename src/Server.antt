-- ===== src/Server.antt =====
-- cmd/tundler-tunnel/server.go: the handlers of the control API. A handler answers from the
-- snapshot that it takes; a reply has its status, its body, and whether the handler started a
-- rotation. The JSON encoding of a body is not modelled.
pub mod Debounce
use tundler.Base.{
  ℕ, ◌*◌, ◌-◌, Text, Bool, true, false, not, Option, none, some, [], ltb, if◌then◌else◌,
}
use tundler.Timing.{second, round_seconds}
use tundler.State.{
  State, ready, draining, rotating, failed, booting, logging_in, connecting, is_ready, Stamp, empty,
  malformed, at_second, StateTracker, Snapshot, snapshot,
}

abbrev pub min_time_between_rotations : ℕ
min_time_between_rotations = 30 * second

-- `timeSinceLastRotation`. `time.Parse` of RFC 3339 gives the second that the text names.
pub time_since_last_rotation : ℕ → Snapshot → ℕ × Bool
time_since_last_rotation now snap = elim snap.last_rotation [
  | none ↦ (0, false)
  | some r ↦ elim r.completed_at [
    | empty ↦ (0, false)
    | malformed ↦ (0, false)
    | at_second t ↦ (now - t * second, ltb (now - t * second) min_time_between_rotations)
  ]
]

-- The bodies of the replies.
pub data Body : Type 0 where
  no_body method_not_allowed pod_failed : Body
  not_ready : State → Body
  debounced : ℕ → Body
  rotation_started : Text → Body
  in_progress : State → Body
  not_yet_ready : State → Body
  status_of : Snapshot → Text → Text → Body

pub record Reply : Type 0 where
  pub status : ℕ
  pub body : Body
  pub starts_rotation : Bool

abbrev reply : ℕ → Body → Reply
reply status body = record { status = status; body = body; starts_rotation = false }

-- `livezHandler`
unfoldable livez_handler : StateTracker → Reply
livez_handler s = reply 200 no_body

-- `readyzHandler`
pub readyz_handler : StateTracker → Reply
readyz_handler s =
    if not (is_ready s.state) then reply 503 (not_ready s.state) else reply 200 no_body

-- `statusHandler`
unfoldable status_handler : Text → Text → ℕ → StateTracker → Reply
status_handler tunnel_id node_ip now s = reply 200 (status_of (snapshot now s) tunnel_id node_ip)

-- `rotateHandler` for a snapshot; `post` is whether the method is POST.
pub rotate_reply : Bool → ℕ → Snapshot → Reply
rotate_reply post now snap = if not post then reply 405 method_not_allowed else elim snap.state [
  | ready ↦
      let (since, recent) = time_since_last_rotation now snap in
      if recent then reply 200 (debounced (round_seconds since)) else record {
        status = 202;
        body = rotation_started snap.current_exit_ip;
        starts_rotation = true;
      }
  | draining ↦ reply 200 (in_progress draining)
  | rotating ↦ reply 200 (in_progress rotating)
  | failed ↦ reply 409 pod_failed
  | booting ↦ reply 409 (not_yet_ready booting)
  | logging_in ↦ reply 409 (not_yet_ready logging_in)
  | connecting ↦ reply 409 (not_yet_ready connecting)
]

-- `rotateHandler`
pub rotate_handler : Bool → ℕ → StateTracker → Reply
rotate_handler post now s = rotate_reply post now (snapshot now s)
