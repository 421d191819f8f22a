-- ===== src/Tests/Sessions.antt =====
-- A run of the updater against an API that hands out a new refresh token.
use tundler.Base.{ℕ, ◌+◌, ◌≡◌, refl, ◌⊎◌, Text, Option, none, some, [], ◌∷◌, ◌++◌, codes}
use mathlib.Core.Path.{subst}
use tundler.Tests.Catalogs.{machine}
use tundler.Updater.Session.Messages.{Request, Response, Codec, last_prefixed}
use tundler.Updater.Session.{run_refresh}
use tundler.Updater.Session.Refresh.{
  Kept, Granting, watched, watched_send, watched_print, run_refresh-keeps,
}

abbrev codec : Codec
codec = record {
  cookie_request = λ r. r.refresh_token;
  code_of = λ t. some 1000;
  error_of = λ t. none;
  unauth_session = λ t. none;
  username = λ t. t;
  auth_info = λ t. none;
  auth_request = λ r. r.username;
  auth_response = λ t. none;
  logicals = λ t. some (1000, []);
  session = λ uid token. uid ++ codes " " ++ token;
}

abbrev reply : Response
reply = record {
  status_code = 200;
  cookies =
      (codes "Session-Id", codes "s")
      ∷ (codes "AUTH-set", codes "cookie")
      ∷ (codes "REFRESH-set", codes "rotated")
      ∷ [];
  body = [];
}

abbrev send : Request → ℕ → Option Response × ℕ
send req w = (some reply, w + 1)

abbrev print : Text → ℕ → Option Text × ℕ
print t w = (none, w + 1)

abbrev kept : Kept
kept = record { issued = codes "set"; saved = none }

run_refresh-keeps_example :
    let m = watched machine send print in
    let (servers, x) =
      run_refresh m
        (watched_send machine send print)
        codec
        (codes "Firefox")
        (watched_print machine send print)
        (0, kept) in
    ((servers ≡ none) × (x.1 ≡ kept)) ⊎ (x.1.saved ≡ some (codes "set" ++ codes " " ++ x.1.issued))
unfolding last_prefixed
run_refresh-keeps_example =
    run_refresh-keeps machine send print codec (codes "Firefox") (0, kept)
      (λ req w resp u e.
        subst
          (λ o. elim o as (λ _. Type 0) [
            | none ↦ Unit
            | some r ↦ Granting machine send print codec (codes "Firefox") r
          ])
          e (λ h. (refl, refl)))
      (λ p t w. refl) refl refl
