-- ===== src/Tests/Fetching.antt =====
-- The impersonating fetch proxy.
use tundler.Base.{ℕ, ◌+◌, ◌≡◌, true, sym, ap, ◌⊎◌, inl, inr, Text, none, some, [], ◌∷◌, codes}
use tundler.Proxy.Impersonate.{Url, Request, Fetched, response, failed, serve_http}
use tundler.Proxy.Impersonate.Forward.{IsForward, IsRefused, IsRelayed, serve_http-forwards}
use tundler.Proxy.Impersonate.Transport.{Net, firefox_120, new_impersonating_transport}
use tundler.Proxy.Impersonate.Transport.Owned.{IsRight, recorded, round_trips, round_trips-IsRight}

-- A parse that keeps the URL, and an upstream that answers with a hop-by-hop header.
abbrev new_request : Url → Text ⊎ Url
new_request u = inr u

abbrev upstream : Request → ℕ → Fetched × ℕ
upstream q w = (
  response (record {
    status_code = 200;
    header = (codes "Connection", codes "close" ∷ []) ∷ (codes "Etag", codes "x" ∷ []) ∷ [];
    body = codes "page";
  }),
  w + 1,
)

abbrev request : Request
request = record {
  method = codes "GET";
  url = record { scheme = []; host = codes "pod:8485"; path = codes "/p"; raw_query = [] };
  header =
      (codes "X-Tundler-Target-Host", codes " example.com" ∷ [])
      ∷ (codes "Keep-Alive", codes "5" ∷ [])
      ∷ (codes "Accept", codes "text/html" ∷ [])
      ∷ [];
  host = codes "pod:8485";
  body = [];
}

abbrev url_of : Text ⊎ Url → Url → Url
url_of (inl e) u = u
url_of (inr v) u = v

inr_url : (u v : Url) → new_request u ≡ inr v → u ≡ v
inr_url u v e = ap (λ s. url_of s u) e

serve_http-forwards_example :
    let (reply, w) = serve_http new_request upstream request 0 in
    (IsRefused new_request upstream request × (reply.status_code ≡ 400) × (w ≡ 0))
    ⊎ ((q : Request) × IsForward request q
        × IsRelayed (upstream q 0).0 reply
        × (w ≡ (upstream q 0).1))
serve_http-forwards_example =
    serve_http-forwards new_request upstream
      (λ u v e. (sym (ap (λ x. x.scheme) (inr_url u v e)), sym (ap (λ x. x.host) (inr_url u v e))))
      request 0

-- A network where every dial succeeds, all hosts speak HTTP/2, and a kept connection goes bad.
abbrev net : Net ℕ
net = record {
  dial = λ addr w. (inr (some w), w + 1);
  handshake = λ u w. (none, w);
  negotiated_protocol = λ u w. codes "h2";
  new_client_conn = λ u w. (inr w, w + 1);
  can_take_new_request = λ c w. true;
  h2_round_trip = λ c q w. (failed (codes "GOAWAY"), w + 1);
  h1_write = λ u q w. (none, w);
  h1_read = λ u q w. (failed (codes "EOF"), w);
  close = λ u w. w;
  close_h2 = λ c w. w;
}

abbrev fetch_of : Text → Request
fetch_of host = record request {
  url = record { scheme = codes "https"; host = host; path = codes "/p"; raw_query = [] };
}

round_trips-IsRight_example :
    IsRight firefox_120
      (round_trips
        (recorded net)
        (new_impersonating_transport firefox_120)
        (fetch_of (codes "example.com")
          ∷ fetch_of (codes "example.org")
          ∷ fetch_of (codes "example.com")
          ∷ [])
        (0, [])).1.1
round_trips-IsRight_example =
    round_trips-IsRight net firefox_120
      (fetch_of (codes "example.com")
        ∷ fetch_of (codes "example.org")
        ∷ fetch_of (codes "example.com")
        ∷ [])
      0
