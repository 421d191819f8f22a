-- ===== src/Tests/Hooks.antt =====
-- The event hook, the capture of output, and the settings of the environment.
use tundler.Base.{true, false, none, some, List, [], ◌∷◌, ◌++◌, codes, text_eq, All, if◌then◌else◌}
use tundler.Notifier.{Net, Sink, Fields, emit}
use tundler.Notifier.Private.{KeepsToken, tokens_kept}

-- A URL is its host name, over http; one name is a private address.
abbrev net : Net
net = record {
  parse_url = λ s. some (record { scheme = codes "http"; host = s; hostname = s; port = [] });
  parse_ip = λ s.
      if text_eq s (codes "192.0.2.9")
      then some (record { is_v4 = true; is_loopback = false; is_private = true })
      else none;
  lookup_host = λ s. some (codes "192.0.2.9" ∷ []);
  join_host_port = λ h p. h ++ p;
  with_host = λ u h. h;
}

abbrev sinks : List Sink
sinks =
    record { url = codes "hook.svc"; token = codes "secret"; fields = codes "exit_ip" ∷ [] }
    ∷ record { url = codes "hook.example"; token = codes "secret"; fields = [] }
    ∷ []

abbrev event : Fields
event = (codes "exit_ip", codes "198.51.100.7") ∷ (codes "node_ip", codes "192.0.2.1") ∷ []

tokens_kept_example :
    All (KeepsToken net) (emit net sinks (codes "heartbeat") (codes "now") (some event))
tokens_kept_example = tokens_kept net sinks (codes "heartbeat") (codes "now") (some event)
