-- ===== src/Connect/Retry/Trace.antt =====
-- A provider that keeps a record of the calls that change its session, the latest first. It is the
-- provider in all else, so a theorem about the record is one about the calls that the code makes.
use tundler.Base.{ℕ, ◌+◌, Text, List, [], ◌∷◌}
use tundler.System.{Host}

pub data Call : Type 0 where
  logs_in disconnects : Call
  connects_to : Text → Call

-- The locations that Connect was called with, the latest first.
abbrev pub dialled : List Call → List Text
dialled [] = []
dialled (connects_to x ∷ cs) = x ∷ dialled cs
dialled (logs_in ∷ cs) = dialled cs
dialled (disconnects ∷ cs) = dialled cs

-- How often Login was called.
abbrev pub logins : List Call → ℕ
logins [] = 0
logins (logs_in ∷ cs) = logins cs + 1
logins (connects_to x ∷ cs) = logins cs
logins (disconnects ∷ cs) = logins cs

abbrev pub silent : {W A : Type 0} → (W → A × W) → W × List Call → A × (W × List Call)
silent f (w, log) = let (a, w') = f w in (a, (w', log))

abbrev noted : {W A : Type 0} → Call → (W → A × W) → W × List Call → A × (W × List Call)
noted c f (w, log) = let (a, w') = f w in (a, (w', c ∷ log))

abbrev pub traced : {W : Type 0} → Host W → Host (W × List Call)
traced h = record {
  provider = record {
    active_location = silent h.provider.active_location;
    connect = λ x. noted (connects_to x) (h.provider.connect x);
    connected = silent h.provider.connected;
    disconnect = noted disconnects h.provider.disconnect;
    locations = silent h.provider.locations;
    logged_in = silent h.provider.logged_in;
    login = noted logs_in h.provider.login;
    logout = silent h.provider.logout;
    status = silent h.provider.status;
    version = silent h.provider.version;
  };
  clock = silent h.clock;
  pick = λ n. silent (h.pick n);
  http_get = λ path. silent (h.http_get path);
  sleep = λ d x. (h.sleep d x.0, x.1);
  cancelled = silent h.cancelled;
  post_tunnel_up = λ x. (h.post_tunnel_up x.0, x.1);
  wait = λ d. silent (h.wait d);
  systemctl_exit = λ x. (h.systemctl_exit x.0, x.1);
}
