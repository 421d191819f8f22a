-- ===== src/Updater/Session/Login.antt =====
-- cmd/proton-updater/api.go and main.go: the login with the password, and the session that it leaves.
-- The proofs of the password, in their encoding, are a parameter.
use tundler.Base.{
  ◌⊎◌, inl, inr, Text, Bool, false, not, ◌||◌, Option, none, some, List, [], ◌∷◌, ◌++◌, codes,
  text_eq, ◌==◌, if◌then◌else◌,
}
use tundler.Provider.Machine.{Machine}
use tundler.Updater.Session.Messages.{
  Request, Response, CookieState, Failure, proton, other, UnauthSession, AuthInfo, AuthResponse,
  Codec, set_headers, last_prefixed, refresh_from, is_human_verification, verify_url,
}
use tundler.Updater.Session.{
  base, ok_response, fetch_session_id, exchange_for_cookie_token, write_session,
}

abbrev json_type : List (Text × Text)
json_type = (codes "Content-Type", codes "application/json") ∷ []

-- The headers that replay a challenge that was solved.
hv_headers : Text → Text → List (Text × Text)
hv_headers hv_token hv_type =
    if text_eq hv_token []
    then []
    else (codes "x-pm-human-verification-token", hv_token)
      ∷ (
        codes "x-pm-human-verification-token-type",
        if text_eq hv_type [] then codes "captcha" else hv_type,
      )
      ∷ []

-- The cookie and the refresh token of an answer to the proofs.
authed : CookieState → AuthResponse → List (Text × Text) → CookieState × Text
unfolding last_prefixed refresh_from
authed cookie parsed cookies =
    let token = last_prefixed (codes "AUTH-") [] cookies in
    (
      record {
        session_id = cookie.session_id;
        uid = parsed.uid;
        token = if text_eq token [] then parsed.access_token else token;
      },
      refresh_from parsed.refresh_token cookies,
    )

module _ {W : Type 0} (m : Machine W) (send : Request → W → Option Response × W) (codec : Codec)
    (user_agent : Text) where
  abbrev post : Text → List (Text × Text) → Text → Request
  post path headers body = record {
    method = codes "POST";
    url = base ++ path;
    headers = headers;
    body = body;
  }

  session_in : Option UnauthSession → Failure ⊎ UnauthSession
  session_in none = inl other
  session_in (some s) = if s.code == 1000 then inr s else inl other

  -- `fetchUnauthSession`
  fetch_unauth_session : Text → W → (Failure ⊎ UnauthSession) × W
  unfolding set_headers session_in
  fetch_unauth_session session_id w =
      let cookie : CookieState = record { session_id = session_id; uid = []; token = [] } in
      let (r, w') =
        ok_response m send codec user_agent
          (post (codes "/auth/v4/sessions") (set_headers user_agent cookie) []) w in
      elim r [ inl e ↦ (inl e, w') | inr resp ↦ (session_in (codec.unauth_session resp.body), w') ]

  info_in : Option AuthInfo → Failure ⊎ AuthInfo
  info_in none = inl other
  info_in (some i) = if i.code == 1000 then inr i else inl other

  -- `fetchAuthInfo`
  fetch_auth_info : CookieState → Text → W → (Failure ⊎ AuthInfo) × W
  unfolding set_headers info_in
  fetch_auth_info cookie email w =
      let (r, w') =
        ok_response m send codec user_agent
          (post (codes "/core/v4/auth/info") (set_headers user_agent cookie ++ json_type)
            (codec.username email))
          w in
      elim r [ inl e ↦ (inl e, w') | inr resp ↦ (info_in (codec.auth_info resp.body), w') ]

  auth_in : CookieState → Response → Failure ⊎ (CookieState × Text)
  unfolding authed
  auth_in cookie resp = elim (codec.auth_response resp.body) [
    | none ↦ inl other
    | some parsed ↦
        if parsed.code == 1000 then inr (authed cookie parsed resp.cookies) else inl other
  ]

  -- `submitAuth`
  submit_auth :
      CookieState
      → Text
      → Text
      → Text × Text
      → Text
      → Text
      → W
      → (Failure ⊎ (CookieState × Text)) × W
  unfolding set_headers hv_headers auth_in
  submit_auth cookie email srp_session (ephemeral, proof) hv_token hv_type w =
      let (r, w') =
        ok_response m send codec user_agent
          (post (codes "/core/v4/auth")
            (set_headers user_agent cookie ++ json_type ++ hv_headers hv_token hv_type)
            (codec.auth_request (record {
              username = email;
              client_ephemeral = ephemeral;
              client_proof = proof;
              srp_session = srp_session;
            })))
          w in
      elim r [ inl e ↦ (inl e, w') | inr resp ↦ (auth_in cookie resp, w') ]

  module _ (prove : AuthInfo → Text → Text → W → Option (Text × Text) × W) where
    -- `authenticate`, with a cookie that the API knows.
    submit : CookieState → Text → Text → Text → Text → W → (Failure ⊎ (CookieState × Text)) × W
    unfolding fetch_auth_info submit_auth
    submit unauth email password hv_token hv_type w =
        let (r, w₁) = fetch_auth_info unauth email w in
        elim r [
          | inl e ↦ (inl e, w₁)
          | inr info ↦
              let (proofs, w₂) = prove info email password w₁ in
              elim proofs [
                | none ↦ (inl other, w₂)
                | some ps ↦ submit_auth unauth email info.srp_session ps hv_token hv_type w₂
              ]
        ]

    -- `authenticate`
    authenticate : Text → Text → Text → Text → W → (Failure ⊎ (CookieState × Text)) × W
    unfolding fetch_unauth_session submit
    authenticate email password hv_token hv_type w =
        let (sid, w₁) = fetch_session_id m send codec user_agent w in
        elim sid [
          | none ↦ (inl other, w₁)
          | some session_id ↦
              let (r, w₂) = fetch_unauth_session session_id w₁ in
              elim r [
                | inl e ↦ (inl e, w₂)
                | inr s ↦
                    let unauth : CookieState = record {
                      session_id = session_id;
                      uid = s.uid;
                      token = [];
                    } in
                    let (x, w₃) =
                      exchange_for_cookie_token m send codec user_agent unauth s.token_type
                        s.access_token s.refresh_token w₂ in
                    elim x [
                      | inl e ↦ (inl e, w₃)
                      | inr (token, rotated) ↦
                          submit (record unauth { token = token }) email password hv_token hv_type
                            w₃
                    ]
              ]
        ]

    -- The page on which a challenge is solved, where an error asks for it.
    challenge : Failure → Option Text
    unfolding is_human_verification verify_url
    challenge other = none
    challenge (proton e) = if is_human_verification e then some (verify_url e) else none

    -- `runLogin`: whether it ended well, and the page of a challenge.
    run_login : (Text → W → Option Text × W) → Text → Text → W → (Bool × Option Text) × W
    unfolding authenticate challenge
    run_login print hv_token hv_type w =
        let email = m.getenv (codes "PROTON_ACCOUNT_USERNAME") in
        let password = m.getenv (codes "PROTON_ACCOUNT_PASSWORD") in
        let (r, w₁) = authenticate email password hv_token hv_type w in
        if text_eq email [] || text_eq password [] then ((false, none), w) else elim r [
          | inl e ↦ ((false, challenge e), w₁)
          | inr (cookie, refresh_token) ↦
              let (failed, w₂) =
                write_session m send codec user_agent print cookie.uid refresh_token w₁ in
              if text_eq refresh_token [] then ((false, none), w₁) else ((not failed, none), w₂)
        ]
