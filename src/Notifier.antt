-- ===== src/Notifier.antt =====
-- internal/notifier/notifier.go: the event hook. URLs, IP addresses, DNS, JSON and integers in text
-- are other libraries': they are arguments. A map is the list of its assignments, the latest
-- first. A request is what the hook hands to the HTTP client, whose outcome is only logged.
pub mod Private
pub mod Setup
use tundler.Base.{
  ℕ, ◌*◌, Text, Bool, true, false, not, ◌||◌, Option, none, some, List, [], ◌∷◌, ◌++◌, codes,
  text_eq, trim_space, has_suffix, equal_fold, ltb, ◌&&◌, if◌then◌else◌,
}
use tundler.Timing.{second}

pub record Url : Type 0 where
  pub scheme : Text
  pub host : Text
  pub hostname : Text
  pub port : Text

pub record Ip : Type 0 where
  pub is_v4 : Bool
  pub is_loopback : Bool
  pub is_private : Bool

-- `url.Parse` and `String`, `net.ParseIP`, `net.LookupHost`, `net.JoinHostPort`, and the URL with
-- another Host.
pub record Net : Type 0 where
  pub parse_url : Text → Option Url
  pub parse_ip : Text → Option Ip
  pub lookup_host : Text → Option (List Text)
  pub join_host_port : Text → Text → Text
  pub with_host : Text → Text → Text

pub record Sink : Type 0 where
  pub url : Text
  pub token : Text
  pub fields : List Text

abbrev pub Fields : Type 0
Fields = List (Text × Text)

abbrev pub get_field : Text → Fields → Option Text
get_field k [] = none
get_field k ((f, v) ∷ m) = if text_eq k f then some v else get_field k m

-- The copy of the fields of a list that are there.
abbrev pub assign : Text → Option Text → Fields → Fields
assign f none out = out
assign f (some v) out = (f, v) ∷ out

pub copy_fields : List Text → Fields → Fields → Fields
copy_fields [] base out = out
copy_fields (f ∷ fs) base out = copy_fields fs base (assign f (get_field f base) out)

-- `project`
pub project : Fields → List Text → Fields
project base [] = base
project base (f ∷ fs) = copy_fields (f ∷ fs) base []

-- The posted request: its URL, the bearer token if there is one, and the fields of its body.
pub record Request : Type 0 where
  pub url : Text
  pub authorization : Option Text
  pub payload : Fields

module _ (net : Net) where
  -- `tokenAllowed`
  pub token_allowed : Text → Bool
  token_allowed raw_url = elim (net.parse_url raw_url) [
    | none ↦ false
    | some u ↦
        if equal_fold u.scheme (codes "https")
        then true
        else if text_eq u.hostname (codes "localhost")
        then true
        else elim (net.parse_ip u.hostname) [
          | some ip ↦ ip.is_loopback || ip.is_private
          | none ↦
              has_suffix u.hostname (codes ".svc")
              || has_suffix u.hostname (codes ".cluster.local")
              || has_suffix u.hostname (codes ".local")
        ]
  ]

  -- `post`, up to the call of the client: no request is built for a URL that does not parse.
  pub post : Sink → Fields → Option Request
  post sink payload = elim (net.parse_url sink.url) [
    | none ↦ none
    | some u ↦ some (record {
      url = sink.url;
      authorization =
          if text_eq sink.token []
          then none
          else if token_allowed sink.url
          then some sink.token
          else none;
      payload = payload;
    })
  ]

  abbrev add_request : Option Request → List Request → List Request
  add_request none rs = rs
  add_request (some r) rs = r ∷ rs

  -- The requests for the sinks, each with its own fields.
  pub post_all : List Sink → Fields → List Request
  post_all [] base = []
  post_all (s ∷ sinks) base = add_request (post s (project base s.fields)) (post_all sinks base)

  -- `emit`, from what the snapshot returns
  pub emit : List Sink → Text → Text → Option Fields → List Request
  emit sinks event_type timestamp none = []
  emit sinks event_type timestamp (some base) =
      post_all sinks ((codes "timestamp", timestamp) ∷ (codes "type", event_type) ∷ base)
