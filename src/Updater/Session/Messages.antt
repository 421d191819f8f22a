-- ===== src/Updater/Session/Messages.antt =====
-- cmd/proton-updater/api.go: the requests and the answers of the account's API, with the headers and
-- the cookies that the code writes and reads.
use tundler.Base.{
  ℕ, Text, Bool, not, ◌&&◌, ◌||◌, Option, none, some, List, [], ◌∷◌, ◌++◌, codes, text_eq,
  has_prefix, ◌==◌, if◌then◌else◌,
}
use tundler.Updater.{LogicalServer}

-- A request, and what the code reads of a response.
pub record Request : Type 0 where
  pub method : Text
  pub url : Text
  pub headers : List (Text × Text)
  pub body : Text

pub record Response : Type 0 where
  pub status_code : ℕ
  pub cookies : List (Text × Text)
  pub body : Text

pub record CookieState : Type 0 where
  pub session_id : Text
  pub uid : Text
  pub token : Text

-- `protonAPIError`
pub record ProtonApiError : Type 0 where
  pub status : ℕ
  pub code : ℕ
  pub message : Text
  pub hv_token : Text
  pub methods : List Text

-- An error: that of the API, or another.
pub data Failure : Type 0 where
  proton : ProtonApiError → Failure
  other : Failure

pub record CookieTokenRequest : Type 0 where
  pub grant_type : Text
  pub persistent : ℕ
  pub redirect_uri : Text
  pub refresh_token : Text
  pub response_type : Text
  pub state : Text
  pub uid : Text

pub record UnauthSession : Type 0 where
  pub code : ℕ
  pub access_token : Text
  pub refresh_token : Text
  pub token_type : Text
  pub uid : Text

pub record AuthInfo : Type 0 where
  pub modulus : Text
  pub server_ephemeral : Text
  pub salt : Text
  pub srp_session : Text
  pub version : ℕ
  pub code : ℕ

pub record AuthRequest : Type 0 where
  pub username : Text
  pub client_ephemeral : Text
  pub client_proof : Text
  pub srp_session : Text

pub record AuthResponse : Type 0 where
  pub code : ℕ
  pub uid : Text
  pub access_token : Text
  pub refresh_token : Text
  pub token_type : Text
  pub server_proof : Text

-- The encodings of the bodies; an error's body gives the code, the message, the token and the
-- methods.
pub record Codec : Type 0 where
  pub cookie_request : CookieTokenRequest → Text
  pub code_of : Text → Option ℕ
  pub error_of : Text → Option (ℕ × Text × Text × List Text)
  pub unauth_session : Text → Option UnauthSession
  pub username : Text → Text
  pub auth_info : Text → Option AuthInfo
  pub auth_request : AuthRequest → Text
  pub auth_response : Text → Option AuthResponse
  pub logicals : Text → Option (ℕ × List LogicalServer)
  pub session : Text → Text → Text

abbrev join_with : Text → List Text → Text
join_with sep [] = []
join_with sep (p ∷ []) = p
join_with sep (p ∷ q ∷ ps) = p ++ sep ++ join_with sep (q ∷ ps)

-- `cookieState.header`
pub header : CookieState → Text
header c = join_with (codes "; ") (
    (if text_eq c.session_id [] then [] else (codes "Session-Id=" ++ c.session_id) ∷ [])
    ++ (if text_eq c.token [] then [] else (codes "AUTH-" ++ c.uid ++ codes "=" ++ c.token) ∷ []))

-- `setHeaders`, of a request without headers.
unfoldable pub set_headers : Text → CookieState → List (Text × Text)
unfolding header
set_headers user_agent cookie =
    (codes "User-Agent", user_agent)
    ∷ (codes "x-pm-appversion", codes "web-account@5.0.999.0")
    ∷ (codes "x-pm-locale", codes "en_US")
    ∷ ((if text_eq cookie.uid [] then [] else (codes "x-pm-uid", cookie.uid) ∷ [])
        ++ (if text_eq (header cookie) [] then [] else (codes "Cookie", header cookie) ∷ [])
        ++ ((codes "Accept", codes "application/json") ∷ []))

-- The value of the first cookie of a name.
unfoldable pub named : Text → List (Text × Text) → Option Text
named key [] = none
named key ((k, v) ∷ cookies) =
    let rest = named key cookies in if text_eq k key then some v else rest

-- The value of the last cookie whose name has a prefix, or what was there before.
unfoldable pub last_prefixed : Text → Text → List (Text × Text) → Text
last_prefixed pre found [] = found
last_prefixed pre found ((k, v) ∷ cookies) =
    last_prefixed pre (if has_prefix k pre then v else found) cookies

-- The refresh token after the cookies, of which the first that is not empty is taken where there was
-- none.
unfoldable pub refresh_from : Text → List (Text × Text) → Text
refresh_from found [] = found
refresh_from found ((k, v) ∷ cookies) =
    refresh_from (if has_prefix k (codes "REFRESH-") && text_eq found [] then v else found) cookies

-- `isHumanVerification`
unfoldable pub is_human_verification : ProtonApiError → Bool
is_human_verification e = e.code == 9001 || not (text_eq e.hv_token [])

-- `verifyURL`
unfoldable pub verify_url : ProtonApiError → Text
verify_url e =
    let methods = join_with (codes ",") e.methods in
    codes "https://verify.proton.me/?methods="
    ++ (if text_eq methods [] then codes "captcha" else methods)
    ++ codes "&token="
    ++ e.hv_token
