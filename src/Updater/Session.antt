-- ===== src/Updater/Session.antt =====
-- cmd/proton-updater/api.go and the rest of main.go: the requests of the account's API, and the
-- session that is kept from one run to the next. The HTTP client, the encodings, the random source
-- and the proofs of the password are parameters.
pub mod Messages
pub mod Refresh
pub mod Login
use tundler.Base.{
  ℕ, zero, suc, ◌+◌, ◌*◌, ◌⊎◌, inl, inr, Text, Bool, true, false, not, ◌&&◌, ◌||◌, Option, none,
  some, List, [], ◌∷◌, ◌++◌, codes, text_eq, has_prefix, ltb, ◌==◌, length, get_elem?,
  if◌then◌else◌,
}
use tundler.Base.Decimal.{decimal}
use tundler.Provider.Machine.{Machine, is_none}
use tundler.Updater.{LogicalServer, OutputServer, merge_logicals, emit_servers}
use tundler.Updater.Session.Messages.{
  Request, Response, CookieState, ProtonApiError, Failure, proton, other, CookieTokenRequest,
  UnauthSession, AuthInfo, AuthRequest, AuthResponse, Codec, set_headers, named, last_prefixed,
  refresh_from, is_human_verification, verify_url,
}

abbrev letters : Text
letters = codes "abcdefghijklmnopqrstuvwxyzABCDEFGHIJKLMNOPQRSTUVWXYZ0123456789"

abbrev pub base : Text
base = codes "https://account.proton.me/api"

module _ {W : Type 0} (m : Machine W) (send : Request → W → Option Response × W) (codec : Codec)
    (user_agent : Text) where
  -- `apiError`
  api_error : ℕ → Text → Failure
  api_error status body = elim (codec.error_of body) [
    | none ↦ other
    | some (code, message, token, methods) ↦
        if not (code == 0) || not (text_eq message [])
        then proton (record {
          status = status;
          code = code;
          message = message;
          hv_token = token;
          methods = methods;
        })
        else other
  ]

  -- The response where its status is 200; else an error.
  checked : Option Response → Failure ⊎ Response
  unfolding api_error
  checked none = inl other
  checked (some resp) =
      if resp.status_code == 200 then inr resp else inl (api_error resp.status_code resp.body)

  ok_response : Request → W → (Failure ⊎ Response) × W
  unfolding checked
  ok_response req w = let (r, w') = send req w in (checked r, w')

  abbrev before_letters : Option ℕ → Text → Text
  before_letters none rest = rest
  before_letters (some c) rest = c ∷ rest

  -- `randomState`, whose random source picks a letter.
  random_state : ℕ → W → Text × W
  random_state zero w = ([], w)
  random_state (suc n) w =
      let (i, w₁) = m.pick (length letters) w in
      let (rest, w₂) = random_state n w₁ in (before_letters (get_elem? letters i) rest, w₂)

  session_of : Option Response → Option Text
  unfolding named
  session_of none = none
  session_of (some resp) = named (codes "Session-Id") resp.cookies

  -- `fetchSessionID`, which looks at no status.
  pub fetch_session_id : W → Option Text × W
  unfolding session_of
  fetch_session_id w =
      let (r, w') =
        send
          (record {
            method = codes "GET";
            url = codes "https://account.proton.me/vpn";
            headers = (codes "User-Agent", user_agent) ∷ [];
            body = [];
          })
          w in
      (session_of r, w')

  -- The request of `exchangeForCookieToken`.
  exchange_request : CookieState → Text → Text → Text → Text → Request
  unfolding set_headers
  exchange_request cookie token_type access_token refresh_token state = record {
    method = codes "POST";
    url = base ++ codes "/core/v4/auth/cookies";
    headers =
        set_headers user_agent cookie
        ++ (if text_eq access_token []
            then []
            else (codes "Authorization", token_type ++ codes " " ++ access_token) ∷ [])
        ++ ((codes "Content-Type", codes "application/json") ∷ []);
    body = codec.cookie_request (record {
      grant_type = codes "refresh_token";
      persistent = 1;
      redirect_uri = codes "https://protonmail.com";
      refresh_token = refresh_token;
      response_type = codes "token";
      state = state;
      uid = cookie.uid;
    });
  }

  -- What it makes of a response: the cookie token and the rotated refresh token.
  exchanged : Response → Failure ⊎ (Text × Text)
  unfolding last_prefixed
  exchanged resp = elim (codec.code_of resp.body) [
    | none ↦ inl other
    | some code ↦
        let token = last_prefixed (codes "AUTH-") [] resp.cookies in
        if not (code == 1000) || text_eq token []
        then inl other
        else inr (token, last_prefixed (codes "REFRESH-") [] resp.cookies)
  ]

  exchange_of : Failure ⊎ Response → Failure ⊎ (Text × Text)
  unfolding exchanged
  exchange_of (inl e) = inl e
  exchange_of (inr resp) = exchanged resp

  -- `exchangeForCookieToken`
  pub exchange_for_cookie_token :
      CookieState → Text → Text → Text → W → (Failure ⊎ (Text × Text)) × W
  unfolding random_state exchange_request exchange_of
  exchange_for_cookie_token cookie token_type access_token refresh_token w =
      let (state, w₁) = random_state 24 w in
      let (r, w₂) =
        ok_response (exchange_request cookie token_type access_token refresh_token state) w₁ in
      (exchange_of r, w₂)

  -- `refreshSession`: the cookie, and the refresh token for the next time.
  pub refresh_session : Text → Text → W → (Failure ⊎ (CookieState × Text)) × W
  unfolding fetch_session_id exchange_for_cookie_token
  refresh_session uid refresh_token w =
      let (sid, w₁) = fetch_session_id w in
      elim sid [
        | none ↦ (inl other, w₁)
        | some session_id ↦
            let cs : CookieState = record { session_id = session_id; uid = uid; token = [] } in
            let (r, w₂) = exchange_for_cookie_token cs [] [] refresh_token w₁ in
            elim r [
              | inl e ↦ (inl e, w₂)
              | inr (token, rotated) ↦ (
                inr (
                  record cs { token = token },
                  if text_eq rotated [] then refresh_token else rotated,
                ),
                w₂,
              )
            ]
      ]

  -- The logicals of a body, with the code that is asked for.
  logicals_of : Text → Failure ⊎ List LogicalServer
  logicals_of body = elim (codec.logicals body) [
    | none ↦ inl other
    | some (code, ls) ↦ if code == 1000 then inr ls else inl other
  ]

  catalog_of : Failure ⊎ Response → Failure ⊎ List LogicalServer
  unfolding logicals_of
  catalog_of (inl e) = inl e
  catalog_of (inr resp) = logicals_of resp.body

  -- `fetchLogicalsForType`
  fetch_logicals_for_type : CookieState → ℕ → W → (Failure ⊎ List LogicalServer) × W
  unfolding set_headers catalog_of
  fetch_logicals_for_type cookie server_type w =
      let (r, w') =
        ok_response
          (record {
            method = codes "GET";
            url =
                base
                ++ codes "/vpn/v1/logicals"
                ++ (if ltb 0 server_type then codes "?Type=" ++ decimal server_type else []);
            headers = set_headers user_agent cookie;
            body = [];
          })
          w in
      (catalog_of r, w')

  abbrev with_secure_core : List LogicalServer → Failure ⊎ List LogicalServer → List LogicalServer
  with_secure_core standard (inl e) = standard
  with_secure_core standard (inr secure_core) = merge_logicals standard secure_core

  -- `fetchLogicals`, which does without the secure core where it fails.
  fetch_logicals : CookieState → W → (Failure ⊎ List LogicalServer) × W
  unfolding fetch_logicals_for_type
  fetch_logicals cookie w =
      let (r, w₁) = fetch_logicals_for_type cookie 0 w in
      let (r', w₂) = fetch_logicals_for_type cookie 2 w₁ in
      elim r [ inl e ↦ (inl e, w₁) | inr standard ↦ (inr (with_secure_core standard r'), w₂) ]

  module _ (print : Text → W → Option Text × W) where
    -- `writeSession`: whether there was an error.
    pub write_session : Text → Text → W → Bool × W
    write_session uid refresh_token w =
        let path = m.getenv (codes "PROTON_SESSION_OUT") in
        let text = codec.session uid refresh_token in
        let (err, w') =
          if text_eq path [] then print (text ++ (10 ∷ [])) w else m.write_file path text w in
        (not (is_none err), w')

    abbrev printed : Failure ⊎ List LogicalServer → Option (List OutputServer)
    printed (inl e) = none
    printed (inr logicals) = emit_servers logicals

    -- The rest of `runRefresh`, with the session written.
    emit : CookieState → W → Option (List OutputServer) × W
    unfolding fetch_logicals
    emit cookie w = let (r, w') = fetch_logicals cookie w in (printed r, w')

    -- `runRefresh`: the servers that are printed, or none where the process ends with an error.
    pub run_refresh : W → Option (List OutputServer) × W
    unfolding refresh_session write_session emit
    run_refresh w =
        let uid = m.getenv (codes "PROTON_SESSION_UID") in
        let refresh_token = m.getenv (codes "PROTON_SESSION_REFRESH_TOKEN") in
        let (r, w₁) = refresh_session uid refresh_token w in
        if text_eq uid [] || text_eq refresh_token [] then (none, w) else elim r [
          | inl e ↦ (none, w₁)
          | inr (cookie, rotated) ↦
              let (failed, w₂) = write_session uid rotated w₁ in
              let end = emit cookie w₂ in if failed then (none, w₂) else end
        ]
