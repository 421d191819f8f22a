-- ===== src/Provider/Pia/Monitor/Fallback.antt =====
-- When the monitor gives up, and how long it waits between two subprocesses.
use tundler.Base.{
  ℕ, ◌+◌, ◌≤◌, ◌≡◌, refl, ap, Text, Bool, false, ◌||◌, Option, List, [], ◌∷◌, ◌++◌, length,
  length-append, All, arith, leb,
}
use tundler.Provider.Pia.Monitor.{
  Monitor, Kind, new_monitor, within, record_failure, stream_round, monitor_respawn_base_delay,
  monitor_respawn_max_delay, monitor_failure_threshold,
}

-- The failures at given times, the latest first.
pub failures : List ℕ → Monitor
failures [] = new_monitor
failures (t ∷ ts) = record_failure t (failures ts)

-- Whether a failure is the fifth, or a later one, of the five minutes before it.
pub gives_up : List ℕ → Bool
gives_up [] = false
gives_up (t ∷ ts) = leb monitor_failure_threshold (length (within t (t ∷ ts))) || gives_up ts

-- The clock does not go back.
abbrev pub IsOrdered : List ℕ → Type 0
IsOrdered [] = Unit
IsOrdered (t ∷ ts) = All (λ u. u ≤ t) ts × IsOrdered ts

length-within-append :
    (now : ℕ) (xs ys : List ℕ)
    → length (within now (xs ++ ys)) ≡ length (within now xs) + length (within now ys)
unfolding within
length-within-append now [] ys = omega arith
length-within-append now (x ∷ xs) ys = ground (arith, length-within-append now xs ys)

-- An earlier cut takes away nothing that a later one keeps.
within-within : (now t : ℕ) (xs : List ℕ) → t ≤ now → within now (within t xs) ≡ within now xs
unfolding within
within-within now t [] h = refl
within-within now t (x ∷ xs) h = ground (arith, within-within now t xs h)

length-within-failures :
    (now : ℕ) (ts : List ℕ)
    → All (λ u. u ≤ now) ts
    → length (within now (failures ts).failure_times) ≡ length (within now ts)
unfolding failures record_failure within
length-within-failures now [] h = refl
length-within-failures now (t ∷ ts) h =
    let times = (failures ts).failure_times in
    ground (
      arith,
      length-within-append now (within t times) (t ∷ []),
      length-within-failures now ts h.1,
      ap length (within-within now t times h.0),
      h.0,
    )

length-within-cons : (t : ℕ) (ts : List ℕ) → length (within t (t ∷ ts)) ≡ length (within t ts) + 1
unfolding within
length-within-cons t ts = ground arith

-- On a clock that does not go back, the monitor has given up exactly when some failure was the fifth
-- or a later one of the five minutes that end with it.
pub failures-gives_up : (ts : List ℕ) → IsOrdered ts → (failures ts).fallback_active ≡ gives_up ts
unfolding failures record_failure gives_up
failures-gives_up [] h = refl
failures-gives_up (t ∷ ts) h =
    let times = (failures ts).failure_times in
    ground (
      arith,
      failures-gives_up ts h.1,
      length-append (within t times) (t ∷ []),
      length-within-failures t ts h.0,
      length-within-cons t ts,
    )

-- The rounds of `streamLoop`, each with the subprocess's output and the time of its end.
pub rounds : Kind → List (Option (List Text) × ℕ) → ℕ → Monitor → List ℕ
rounds kind [] delay m = []
rounds kind ((output, now) ∷ rs) delay m =
    let ((waited, delay'), m') = stream_round kind output now delay m in
    waited ∷ rounds kind rs delay' m'

abbrev pub InRange : ℕ → Type 0
InRange d = (monitor_respawn_base_delay ≤ d) × (d ≤ monitor_respawn_max_delay)

round-InRange :
    (kind : Kind) (output : Option (List Text)) (now delay : ℕ) (m : Monitor)
    → InRange delay
    → let ((waited, delay'), m') = stream_round kind output now delay m in
      InRange waited × InRange delay'
unfolding stream_round
round-InRange kind output now delay m d = ground arith

delayed-InRange :
    (kind : Kind) (rs : List (Option (List Text) × ℕ)) (delay : ℕ) (m : Monitor)
    → InRange delay
    → All InRange (rounds kind rs delay m)
unfolding rounds
delayed-InRange kind [] delay m d = tt
delayed-InRange kind ((output, now) ∷ rs) delay m d =
    let ((waited, delay'), m') = stream_round kind output now delay m in
    let (r, r') = round-InRange kind output now delay m d in
    (r, delayed-InRange kind rs delay' m' r')

-- Whatever the subprocesses do, the waits between them are from 1 to 30 seconds.
rounds-InRange :
    (kind : Kind) (rs : List (Option (List Text) × ℕ)) (m : Monitor)
    → All InRange (rounds kind rs monitor_respawn_base_delay m)
rounds-InRange kind rs m =
    delayed-InRange kind rs monitor_respawn_base_delay m (omega arith, omega arith)
