-- ===== src/Provider/Express/Window.antt =====
-- What Connect reports of the window in which it polls.
use tundler.Base.{
  ℕ, zero, suc, ◌+◌, ◌≡◌, refl, ◌∙◌, ap, inl, inr, Text, Bool, true, false, ◌||◌, Option, none,
  some, List, [], ◌∷◌, Bool-cases, arith, if◌then◌else◌,
}
use mathlib.Core.Path.{subst}
use tundler.Provider.{Status}
use tundler.Provider.Machine.{Machine, seconds}
use tundler.Provider.Express.{
  is_whole, told, ensure_daemon_responsive, status, poll, start_connect, with_last, connect,
}

-- The first status with an address.
abbrev pub first_whole : List Status → Option Status
first_whole [] = none
first_whole (st ∷ sts) = if is_whole st then some st else first_whole sts

abbrev pub any_connected : List Status → Bool
any_connected [] = false
any_connected (st ∷ sts) = st.connected || any_connected sts

-- The last of a status and those after it.
abbrev pub last_status : Status → List Status → Status
last_status st [] = st
last_status st (st' ∷ sts) = last_status st' sts

abbrev said : Option Status → Bool → Text → Status → Status
said (some whole) up location last = whole
said none up location last = if up then told location [] else last

-- What is to be said of the statuses of a window: the first with an address; with none, that the
-- tunnel is up, with no address, where one of them showed it up; else the last.
abbrev pub verdict : Text → Bool → Status → List Status → Status
verdict location saw st sts =
    said (first_whole (st ∷ sts)) (any_connected (st ∷ sts) || saw) location (last_status st sts)

or_turn : (a b c : Bool) → (a || (b || c)) ≡ ((b || a) || c)
or_turn a b c = ground arith

or_false : (a : Bool) → (a || false) ≡ a
or_false a = ground arith

module _ {W : Type 0} (m : Machine W) (next : ℕ → W → Bool × W) where
  -- The statuses of the whole window, to the poll after which its context has ended; none where the
  -- fuel is too little.
  unfoldable pub window : ℕ → ℕ → W → Option (Status × List Status)
  window zero until w = none
  window (suc fuel) until w =
      let (st, w₁) = status m w in
      let (done, w₂) = next until w₁ in
      let later = window fuel until w₂ in
      if done
      then some (st, [])
      else elim later [ none ↦ none | some (st', sts) ↦ some (st, st' ∷ sts) ]

  abbrev pub answered : {A : Type 0} → Option (Status × A) → Option Status
  answered none = none
  answered (some r) = some r.0

  Agrees : Text → Bool → Option (Status × List Status) → Option (Status × W) → Type 0
  Agrees location saw none r = Unit
  Agrees location saw (some (st, sts)) r = answered r ≡ some (verdict location saw st sts)

  verdict-later :
      (location : Text) (saw : Bool) (st st' : Status) (sts : List Status)
      → is_whole st ≡ false
      → verdict location (st.connected || saw) st' sts ≡ verdict location saw st (st' ∷ sts)
  verdict-later location saw st st' sts e = rw e (
      ap (λ b. said (first_whole (st' ∷ sts)) b location (last_status st' sts))
        (or_turn (any_connected (st' ∷ sts)) st.connected saw))

  verdict-ended :
      (location : Text) (saw : Bool) (st : Status)
      → is_whole st ≡ false
      → (if st.connected || saw then told location [] else st) ≡ verdict location saw st []
  verdict-ended location saw st e = rw (e, or_false st.connected) refl

  Agrees-later :
      (location : Text) (saw : Bool) (st : Status) (o : Option (Status × List Status))
      (r : Option (Status × W))
      → is_whole st ≡ false
      → Agrees location (st.connected || saw) o r
      → Agrees location saw (elim o [ none ↦ none | some (st', sts) ↦ some (st, st' ∷ sts) ]) r
  unfolding Agrees
  Agrees-later location saw st none r e a = tt
  Agrees-later location saw st (some (st', sts)) r e a =
      a ∙ ap some (verdict-later location saw st st' sts e)

  whole-Agrees :
      (location : Text) (saw : Bool) (st : Status) (w : W) (b : Bool)
      (o : Option (Status × List Status))
      → is_whole st ≡ true
      → Agrees location saw
          (if b
            then some (st, [])
            else elim o [ none ↦ none | some (st', sts) ↦ some (st, st' ∷ sts) ])
          (some (st, w))
  unfolding Agrees
  whole-Agrees location saw st w true o e = rw e refl
  whole-Agrees location saw st w false none e = tt
  whole-Agrees location saw st w false (some (st', sts)) e = rw e refl

  poll-Agrees :
      (fuel until : ℕ) (location : Text) (saw : Bool) (w : W)
      → Agrees location saw (window fuel until w) (poll m next fuel until location saw [] w)
  unfolding Agrees window poll
  poll-Agrees zero until location saw w = tt
  poll-Agrees (suc fuel) until location saw w =
      let (st, w₁) = status m w in
      let (done, w₂) = next until w₁ in
      let a = poll-Agrees fuel until location (st.connected || saw) w₂ in
      elim (Bool-cases (is_whole st)) [
        | inl e ↦ rw (poll, e) (whole-Agrees location saw st w₁ done (window fuel until w₂) e)
        | inr e ↦ elim (Bool-cases done) [
          | inl d ↦ rw (poll, window, e, d) (ap some (verdict-ended location saw st e))
          | inr d ↦
              rw (poll, window, e, d) (Agrees-later location saw st (window fuel until w₂) _ e a)
        ]
      ]

  answered-with_last :
      (last : ℕ) (o : Option (Status × W)) → answered (with_last m next last o) ≡ answered o
  answered-with_last last none = refl
  answered-with_last last (some r) = refl

  -- Where the context of the window ends within the fuel, Connect returns, and what it reports is
  -- told by the statuses of the whole window: the first that is connected with an address; where
  -- there is none but one was connected, the location that was asked for, with no address; else the
  -- last status.
  pub connect-verdict :
      (fuel : ℕ) (location : Text) (last : ℕ) (w : W) (st : Status) (sts : List Status)
      → let (last', w₁) = ensure_daemon_responsive m (last, w) in
        let (now, w₂) = m.clock (start_connect m next location w₁) in
        window fuel (now + seconds 30) w₂ ≡ some (st, sts)
        → answered (connect m next fuel location (last, w)) ≡ some (verdict location false st sts)
  unfolding Agrees connect
  connect-verdict fuel location last w st sts e =
      let (last', w₁) = ensure_daemon_responsive m (last, w) in
      let (now, w₂) = m.clock (start_connect m next location w₁) in
      let o = poll m next fuel (now + seconds 30) location false [] w₂ in
      let a = poll-Agrees fuel (now + seconds 30) location false w₂ in
      answered-with_last last' o ∙ subst (λ s. Agrees location false s o) e a
