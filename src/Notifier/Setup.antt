-- ===== src/Notifier/Setup.antt =====
-- internal/notifier/notifier.go, `FromEnv` and `pinHost`: the destinations and the interval of the
-- hook. JSON and integers in text are arguments; an int is its sign and its size, and the interval
-- is the bit pattern of an int64.
use tundler.Base.{
  ℕ, ◌*◌, ◌%◌, ◌^◌, ◌<◌, ◌≡◌, inl, inr, Text, Bool, true, false, not, ◌&&◌, Option, none, some,
  List, [], ◌∷◌, ◌++◌, codes, text_eq, trim_space, ltb, if◌then◌else◌, length, arith, Option-cases,
}
use tundler.Timing.{second, int64_mod}
use tundler.Notifier.{Net, Sink}

abbrev default_interval_sec : ℕ
default_interval_sec = 300

pub record Config : Type 0 where
  pub sinks : List Sink
  pub interval : ℕ

module _ (net : Net) where
  abbrev is_v4 : Text → Bool
  is_v4 a = elim (net.parse_ip a) [ none ↦ false | some ip ↦ ip.is_v4 ]

  -- An address of another kind than IPv4.
  abbrev is_v6 : Text → Bool
  is_v6 a = elim (net.parse_ip a) [ none ↦ false | some ip ↦ not ip.is_v4 ]

  -- The first IPv4 address, or else the first of all.
  unfoldable first_v4 : Text → List Text → Text
  first_v4 default [] = default
  first_v4 default (a ∷ rest) = if is_v4 a then a else first_v4 default rest

  -- The new Host of a URL with a resolved address.
  unfoldable pinned_host : Text → Text → Text
  pinned_host port picked =
      if not (text_eq port [])
      then net.join_host_port picked port
      else if is_v6 picked
      then codes "[" ++ (picked ++ codes "]")
      else picked

  abbrev resolved : Text → Text → Option (List Text) → Text
  resolved raw_url port none = raw_url
  resolved raw_url port (some []) = raw_url
  resolved raw_url port (some (a ∷ rest)) =
      net.with_host raw_url (pinned_host port (first_v4 a (a ∷ rest)))

  -- `pinHost`
  unfoldable pin_host : Text → Text
  pin_host raw_url = elim (net.parse_url raw_url) [
    | none ↦ raw_url
    | some u ↦ if text_eq u.hostname [] then raw_url else elim (net.parse_ip u.hostname) [
      | some ip ↦ raw_url
      | none ↦ resolved raw_url u.port (net.lookup_host u.hostname)
    ]
  ]

  -- The destinations with a URL, pinned.
  unfoldable valid_sinks : List Sink → List Sink
  valid_sinks [] = []
  valid_sinks (s ∷ sinks) =
      if text_eq (trim_space s.url) []
      then valid_sinks sinks
      else record s { url = pin_host s.url } ∷ valid_sinks sinks

  module _ (unmarshal : Text → Option (List Sink)) (atoi : Text → Option (Bool × ℕ)) where
    -- The interval from the value of the environment, empty where it is not set.
    interval_of : Text → ℕ
    interval_of v = if text_eq v [] then default_interval_sec * second else elim (atoi v) [
      | none ↦ default_interval_sec * second
      | some n ↦
          if not n.0 && ltb 0 n.1 then n.1 * second % int64_mod else default_interval_sec * second
    ]

    abbrev enabled : List Sink → Text → Option Config
    enabled [] v = none
    enabled (s ∷ sinks) v = some (record { sinks = s ∷ sinks; interval = interval_of v })

    -- `FromEnv`
    pub from_env : Text → Text → Option Config
    from_env sinks_value interval_value =
        if text_eq (trim_space sinks_value) []
        then none
        else elim (unmarshal (trim_space sinks_value)) [
          | none ↦ none
          | some sinks ↦ enabled (valid_sinks sinks) interval_value
        ]

    interval_positive :
        (v : Text)
        → ((n : ℕ) → atoi v ≡ some (false, n) → n * second < 2 ^ 63)
        → (0 < interval_of v) × (interval_of v < 2 ^ 63)
    unfolding interval_of
    interval_positive v small = elim (Option-cases (atoi v)) [
      | inl e ↦ ground (arith, e)
      | inr ((true, n), e) ↦ ground (arith, e)
      | inr ((false, n), e) ↦ ground (arith, e, small n e)
    ]

    -- The hook is absent, or has a destination at least and an interval that a ticker accepts.
    abbrev pub IsUsable : Option Config → Type 0
    IsUsable none = Unit
    IsUsable (some c) = (0 < length c.sinks) × (0 < c.interval) × (c.interval < 2 ^ 63)

    -- If the configured number of seconds fits in a Duration, the hook is off, or it has a
    -- destination at least and a positive interval.
    from_env-IsUsable :
        (sinks_value interval_value : Text)
        → ((n : ℕ) → atoi interval_value ≡ some (false, n) → n * second < 2 ^ 63)
        → IsUsable (from_env sinks_value interval_value)
    unfolding from_env
    from_env-IsUsable sinks_value interval_value small =
        ground (arith, interval_positive interval_value small)
