-- ===== src/Notifier/Private.antt =====
-- What an event may carry, and where to.
use tundler.Base.{
  ◌≡◌, refl, ◌⊎◌, Text, true, ◌||◌, Option, none, some, List, [], ◌∷◌, codes, text_eq, text_eq→eq,
  text_eq_refl, elem, has_suffix, equal_fold, All, if◌then◌else◌, arith,
}
use tundler.Notifier.{
  Url, Ip, Net, Sink, Fields, get_field, assign, copy_fields, project, Request, token_allowed, post,
  post_all, emit,
}

copy_fields_lem :
    (fs : List Text) (base out : Fields) (k : Text)
    → get_field k (copy_fields fs base out) ≡ (
        if elem k fs
        then (elim (get_field k base) [ none ↦ get_field k out | some v ↦ some v ])
        else get_field k out)
unfolding copy_fields
copy_fields_lem [] base out k = refl
copy_fields_lem (f ∷ fs) base out k = ground (
  arith,
  copy_fields_lem fs base (assign f (get_field f base) out) k,
  text_eq→eq k f,
  text_eq_refl k,
)

-- A destination with a list of fields gets exactly the fields of the event that are in the list,
-- with their values; one without a list gets all of them.
project_lem :
    (base : Fields) (fs : List Text) (k : Text)
    → get_field k (project base fs) ≡ (elim fs [
      | [] ↦ get_field k base
      | f ∷ fs' ↦ if elem k (f ∷ fs') then get_field k base else none
    ])
unfolding project
project_lem base [] k = refl
project_lem base (f ∷ fs) k = ground (arith, copy_fields_lem (f ∷ fs) base [] k)

module _ (net : Net) where
  -- A host that is this one, a private address, or a name inside the cluster.
  abbrev IsInternal : Text → Type 0
  IsInternal host =
      (text_eq host (codes "localhost") ≡ true)
      ⊎ (((ip : Ip) × (net.parse_ip host ≡ some ip) × ((ip.is_loopback || ip.is_private) ≡ true))
          ⊎ ((has_suffix host (codes ".svc")
                || has_suffix host (codes ".cluster.local")
                || has_suffix host (codes ".local"))
              ≡ true))

  abbrev IsSafe : Text → Type 0
  IsSafe raw_url =
      (u : Url) × (net.parse_url raw_url ≡ some u)
      × ((equal_fold u.scheme (codes "https") ≡ true) ⊎ IsInternal u.hostname)

  token_allowed-IsSafe : (raw_url : Text) → token_allowed net raw_url ≡ true → IsSafe raw_url
  unfolding token_allowed
  token_allowed-IsSafe raw_url e = ground arith

  abbrev pub KeepsToken : Request → Type 0
  KeepsToken r = (r.authorization ≡ none) ⊎ IsSafe r.url

  post_all-KeepsToken :
      (sinks : List Sink) (base : Fields) → All KeepsToken (post_all net sinks base)
  unfolding post_all post
  post_all-KeepsToken [] base = tt
  post_all-KeepsToken (s ∷ sinks) base =
      ground (arith, post_all-KeepsToken sinks base, token_allowed-IsSafe s.url)

  -- Whatever destinations are configured, a token is sent over https, or to this host, a private
  -- address or a name inside the cluster, and nowhere else.
  pub tokens_kept :
      (sinks : List Sink) (event_type timestamp : Text) (base : Option Fields)
      → All KeepsToken (emit net sinks event_type timestamp base)
  unfolding emit
  tokens_kept sinks event_type timestamp none = tt
  tokens_kept sinks event_type timestamp (some base) = post_all-KeepsToken sinks _
