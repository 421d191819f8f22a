-- ===== src/Proxy/Impersonate.antt =====
-- internal/proxy/impersonate_server.go: the server that fetches a page for a client, and the headers
-- that it passes on. `net/http` keeps its headers in a map; a header here is the list of the map's
-- entries. `http.NewRequest`, which parses the target again, and the transport are parameters;
-- Impersonate/Transport.antt models the transport. Listening and the copy of the body are not
-- modelled.
pub mod Forward
pub mod Transport
use tundler.Base.{
  ℕ, ◌-◌, ◌+◌, ◌≡◌, refl, ◌⊎◌, inl, inr, Text, Bool, true, false, ◌||◌, ◌&&◌, Option, none, some,
  List, [], ◌∷◌, ◌++◌, codes, text_eq, elem, trim_space, contains_byte, to_lower, leb, ◌==◌,
  if◌then◌else◌,
}

-- `http.Header`: the entries of the map.
abbrev pub Header : Type 0
Header = List (Text × List Text)

-- The bytes of a header name (RFC 7230): letters, digits and some punctuation.
abbrev is_token_byte : ℕ → Bool
is_token_byte c =
    (leb 97 (to_lower c) && leb (to_lower c) 122)
    || (leb 48 c && leb c 57)
    || contains_byte c (codes "!#$%&'*+-.^_`|~")

abbrev all_token_bytes : Text → Bool
all_token_bytes [] = true
all_token_bytes (c ∷ s) = is_token_byte c && all_token_bytes s

abbrev to_upper : ℕ → ℕ
to_upper c = if leb 97 c && leb c 122 then c - 32 else c

-- The first letter, and the letters after a hyphen, are capitals; the others are small.
capitalise : Bool → Text → Text
capitalise upper [] = []
capitalise upper (c ∷ s) =
    let c' = if upper then to_upper c else to_lower c in c' ∷ capitalise (c == 45) s

-- `http.CanonicalHeaderKey`
unfoldable pub canonical_header_key : Text → Text
unfolding capitalise
canonical_header_key k = if all_token_bytes k then capitalise true k else k

-- `dst[k]`
pub values : Text → Header → List Text
values k [] = []
values k ((key, vs) ∷ h) = let rest = values k h in if text_eq k key then vs else rest

-- `Header.Add` and `Header.Del`, with a key that is in its canonical form.
pub append : Text → Text → Header → Header
append k v [] = (k, v ∷ []) ∷ []
append k v ((key, vs) ∷ h) =
    let rest = append k v h in if text_eq k key then (key, vs ++ (v ∷ [])) ∷ h else (key, vs) ∷ rest

pub remove : Text → Header → Header
remove k [] = []
remove k ((key, vs) ∷ h) = let rest = remove k h in if text_eq k key then rest else (key, vs) ∷ rest

-- `Header.Get`
abbrev first_value : List Text → Text
first_value [] = []
first_value (v ∷ vs) = v

pub get_header : Text → Header → Text
get_header k h = first_value (values (canonical_header_key k) h)

-- `hopByHop`
abbrev hop_by_hop : List Text
hop_by_hop =
    codes "Connection"
    ∷ codes "Proxy-Connection"
    ∷ codes "Keep-Alive"
    ∷ codes "Proxy-Authenticate"
    ∷ codes "Proxy-Authorization"
    ∷ codes "Te"
    ∷ codes "Trailer"
    ∷ codes "Transfer-Encoding"
    ∷ codes "Upgrade"
    ∷ []

unfoldable pub is_hop_by_hop : Text → Bool
is_hop_by_hop k = elem k hop_by_hop

abbrev pub add_all : Text → List Text → Header → Header
add_all k [] dst = dst
add_all k (v ∷ vs) dst = add_all k vs (append (canonical_header_key k) v dst)

-- `copyHeaders`
pub copy_headers : Header → Header → Header
copy_headers dst [] = dst
copy_headers dst ((k, vs) ∷ src) =
    let skipped = copy_headers dst src in
    let copied = copy_headers (add_all k vs dst) src in
    if is_hop_by_hop (canonical_header_key k) then skipped else copied

-- `TargetHostHeader`
abbrev pub target_host_header : Text
target_host_header = codes "X-Tundler-Target-Host"

pub record Url : Type 0 where
  pub scheme : Text
  pub host : Text
  pub path : Text
  pub raw_query : Text

pub record Request : Type 0 where
  pub method : Text
  pub url : Url
  pub header : Header
  pub host : Text
  pub body : Text

pub record Response : Type 0 where
  pub status_code : ℕ
  pub header : Header
  pub body : Text

-- `strings.ContainsAny(host, "/\\ :")`
abbrev pub is_not_bare : Text → Bool
is_not_bare host =
    contains_byte 47 host || contains_byte 92 host || contains_byte 32 host || contains_byte 58 host

-- `http.Error`
abbrev pub http_error : Text → ℕ → Response
http_error msg code = record {
  status_code = code;
  header =
      (codes "Content-Type", codes "text/plain; charset=utf-8" ∷ [])
      ∷ (codes "X-Content-Type-Options", codes "nosniff" ∷ [])
      ∷ [];
  body = msg ++ (10 ∷ []);
}

-- The request to the upstream, once `http.NewRequest` has accepted the target.
unfoldable pub outgoing : Text → Url → Request → Request
outgoing host u r = record {
  method = r.method;
  url = u;
  header = remove target_host_header (copy_headers [] r.header);
  host = host;
  body = r.body;
}

abbrev pub target : Text → Request → Url
target host r = record {
  scheme = codes "https";
  host = host;
  path = r.url.path;
  raw_query = r.url.raw_query;
}

unfoldable pub relayed : Response → Response
relayed resp = record resp { header = copy_headers [] resp.header }

-- A round trip ends with a response or with the text of an error.
pub data Fetched : Type 0 where
  response : Response → Fetched
  failed : Text → Fetched

unfoldable pub answer : Fetched → Response
answer (response resp) = relayed resp
answer (failed e) = http_error (codes "upstream error: " ++ e) 502

-- `ServeHTTP`. `new_request` is the parse of the target: the URL that the request gets, or the text
-- of the error.
pub serve_http :
    {W : Type 0} → (Url → Text ⊎ Url) → (Request → W → Fetched × W) → Request → W → Response × W
unfolding answer outgoing
serve_http new_request round_trip r w =
    let host = trim_space (get_header target_host_header r.header) in
    if text_eq host []
    then (
      http_error (target_host_header ++ codes " is required (names the upstream host to fetch)")
          400,
      w,
    )
    else if is_not_bare host
    then (http_error (target_host_header ++ codes " must be a bare host name") 400, w)
    else elim (new_request (target host r)) [
      | inl e ↦ (http_error (codes "bad target: " ++ e) 400, w)
      | inr u ↦ let (got, w') = round_trip (outgoing host u r) w in (answer got, w')
    ]

canonical_test : canonical_header_key (codes "x-tundler-TARGET-host") ≡ target_host_header
unfolding canonical_header_key
canonical_test = refl
