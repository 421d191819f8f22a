-- ===== src/Connect/Retry/Outcome.antt =====
-- How the connect of a rotation ends, in the tracker and in the proxy.
use tundler.Base.{ℕ, zero, suc, ◌+◌, ◌≡◌, refl, Text, List, [], arith}
use tundler.State.{set_state, record_tunnel_up}
use tundler.Proxy.{set_exit_ip}
use tundler.System.{Host, System, Error, Result, ok, err, Done, Action, ◌>>◌}
use tundler.Connect.Tunnel.{ensure-Quiet, choose-Quiet, contract-Quiet, IsUp, IsDown}
use tundler.Connect.Retry.{
  Next, done, again, stop, try_location, try_some, retry_attempt, retry_loop, connect_with_retry,
  pause, follow,
}

module _ {W : Type 0} (h : Host W) (excluded : List Text) (baseline : Text) where
  -- What an iteration leaves behind, by what it leads to.
  abbrev Leaves : System W → Result Next × System W → Type 0
  Leaves s (ok done, s') = IsUp h s s'
  Leaves s (ok (again failed), s') = IsDown h s s'
  Leaves s (ok (stop e), s') = IsDown h s s'
  Leaves s (err e, s') = ⊥

  retry_attempt-Leaves :
      (failed : List Text) (s : System W) → Leaves s (retry_attempt h excluded baseline failed s)
  unfolding retry_attempt try_some try_location set_state record_tunnel_up set_exit_ip
  retry_attempt-Leaves failed s = grind (arith, ensure-Quiet, choose-Quiet, contract-Quiet)

  -- The tunnel is up, or the recorded tunnel and the proxy are as they were, in Connecting once an
  -- attempt has been made.
  abbrev pub RetryEnds : ℕ → System W → Result Done × System W → Type 0
  RetryEnds n s (ok u, s') = IsUp h s s'
  RetryEnds zero s (err e, s') = s' ≡ s
  RetryEnds (suc n) s (err e, s') = IsDown h s s'

  -- An outcome after some failed attempts is one of the whole loop.
  widen :
      (left : ℕ) (s s' : System W) (r : Result Done × System W)
      → IsDown h s s'
      → RetryEnds left s' r
      → RetryEnds (suc left) s r
  widen zero s s' (ok u, t) down e = ground arith
  widen zero s s' (err e', t) down e = rw e down
  widen (suc left) s s' (ok u, t) down e = ground arith
  widen (suc left) s s' (err e', t) down e = ground arith

  bind-Ends :
      (left : ℕ) (s : System W) (m : Result Next × System W) (f : Next → Action W Done)
      → Leaves s m
      → ((t : System W) → IsUp h s t → RetryEnds (suc left) s (f done t))
      → ((e : Error) (t : System W) → IsDown h s t → RetryEnds (suc left) s (f (stop e) t))
      → ((l : List Text) (t : System W) → IsDown h s t → RetryEnds (suc left) s (f (again l) t))
      → RetryEnds (suc left) s (elim m.0 [ ok a ↦ f a m.1 | err e ↦ (err e, m.1) ])
  bind-Ends left s (ok done, t) f l up stopped more = up t l
  bind-Ends left s (ok (again failed), t) f l up stopped more = more failed t l
  bind-Ends left s (ok (stop e), t) f l up stopped more = stopped e t l
  bind-Ends left s (err e, t) f l up stopped more = absurd l

  retry_loop-Ends :
      (left n max_attempts : ℕ) (failed : List Text) (s : System W)
      → RetryEnds left s (retry_loop h left n max_attempts excluded baseline failed s)
  unfolding retry_loop
  retry_loop-Ends zero n max_attempts failed s = refl
  retry_loop-Ends (suc left) n max_attempts failed s =
      bind-Ends left s (retry_attempt h excluded baseline failed s)
        (follow (λ l.
          pause h n max_attempts >> retry_loop h left (n + 1) max_attempts excluded baseline l))
        (retry_attempt-Leaves failed s) (λ t up. up) (λ e t down. down)
        (λ l t down.
          let t' = (pause h n max_attempts t).1 in
          widen left s t' (retry_loop h left (n + 1) max_attempts excluded baseline l t')
            (ground arith) (retry_loop-Ends left (n + 1) max_attempts l t'))

  -- The connect of a rotation ends with the tunnel up, or with an error in Connecting, with the
  -- recorded tunnel and the proxy as they were; without an attempt nothing changes.
  pub connect_with_retry_ends :
      (max_attempts : ℕ) (s : System W)
      → RetryEnds max_attempts s (connect_with_retry h excluded max_attempts baseline s)
  unfolding connect_with_retry
  connect_with_retry_ends max_attempts s = retry_loop-Ends max_attempts 1 max_attempts [] s
