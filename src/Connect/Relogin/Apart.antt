-- ===== src/Connect/Relogin/Apart.antt =====
-- The times of the logins that racing goroutines start.
use tundler.Base.{ℕ, ◌+◌, ◌≤◌, ◌≡◌, refl, List, [], ◌∷◌, ◌==◌, arith, Bool-cases, inl, inr}
use tundler.Connect.{relogin_throttle_sec}
use tundler.Connect.Relogin.{
  Thread, idle, has_now, has_last, Shared, Event, reads_clock, loads, swaps, at_thread, load_step,
  swap_step, step, run, boot,
}

-- Each login comes a throttle after the one before, and the first a throttle after the epoch.
abbrev pub AreApart : List ℕ → Type 0
AreApart [] = Unit
AreApart (t ∷ []) = relogin_throttle_sec ≤ t
AreApart (t ∷ t' ∷ ts) = (t' + relogin_throttle_sec ≤ t) × AreApart (t' ∷ ts)

abbrev latest : List ℕ → ℕ
latest [] = 0
latest (t ∷ ts) = t

-- A goroutine past the test has times that satisfy it.
abbrev Passed : Thread → Type 0
Passed (has_last now last) = last + relogin_throttle_sec ≤ now
Passed idle = Unit
Passed (has_now now) = Unit

record IsThrottled (s : Shared) : Type 0 where
  apart : AreApart s.logins
  last : s.last_relogin_unix ≡ latest s.logins
  passed : (i : ℕ) → Passed (s.threads i)

at_thread-Passed :
    (i : ℕ) (t : Thread) (f : ℕ → Thread)
    → Passed t
    → ((j : ℕ) → Passed (f j))
    → (j : ℕ) → Passed (at_thread i t f j)
at_thread-Passed i t f p q j = elim (Bool-cases (j == i)) [ inl e ↦ rw e p | inr e ↦ rw e (q j) ]

next-AreApart :
    (now : ℕ) (ts : List ℕ)
    → latest ts + relogin_throttle_sec ≤ now
    → AreApart ts
    → AreApart (now ∷ ts)
next-AreApart now [] h a = omega arith
next-AreApart now (t ∷ ts) h a = (h, a)

load-IsThrottled : (i : ℕ) (t : Thread) (s : Shared) → IsThrottled s → IsThrottled (load_step i t s)
load-IsThrottled i idle s h = h
load-IsThrottled i (has_last now last) s h = h
load-IsThrottled i (has_now now) s h = record {
  apart = h.apart;
  last = h.last;
  passed = at_thread-Passed i _ s.threads (ground arith) h.passed;
}

swap-IsThrottled :
    (i : ℕ) (t : Thread) (s : Shared) → Passed t → IsThrottled s → IsThrottled (swap_step i t s)
swap-IsThrottled i idle s p h = h
swap-IsThrottled i (has_now now) s p h = h
swap-IsThrottled i (has_last now last) s p h = elim (Bool-cases (s.last_relogin_unix == last)) [
  | inl e ↦ rw e (record {
    apart = next-AreApart now s.logins (ground (arith, h.last)) h.apart;
    last = refl;
    passed = at_thread-Passed i idle s.threads tt h.passed;
  })
  | inr e ↦ rw e (record {
    apart = h.apart;
    last = h.last;
    passed = at_thread-Passed i idle s.threads tt h.passed;
  })
]

step-IsThrottled : (e : Event) (s : Shared) → IsThrottled s → IsThrottled (step e s)
unfolding step
step-IsThrottled (reads_clock i now) s h = record {
  apart = h.apart;
  last = h.last;
  passed = at_thread-Passed i (has_now now) s.threads tt h.passed;
}
step-IsThrottled (loads i) s h = load-IsThrottled i (s.threads i) s h
step-IsThrottled (swaps i) s h = swap-IsThrottled i (s.threads i) s (h.passed i) h

run-IsThrottled : (es : List Event) (s : Shared) → IsThrottled s → IsThrottled (run es s)
unfolding run
run-IsThrottled [] s h = h
run-IsThrottled (e ∷ es) s h = run-IsThrottled es (step e s) (step-IsThrottled e s h)

-- Whatever goroutines call `ensureLoggedIn`, in whatever order their operations come and whatever
-- the clock tells them, the logins that they start are 60 s apart at least.
pub relogins_apart : (es : List Event) → AreApart (run es boot).logins
relogins_apart es =
    (run-IsThrottled es boot (record { apart = tt; last = refl; passed = λ i. tt })).apart
