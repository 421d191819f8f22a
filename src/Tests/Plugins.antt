-- ===== src/Tests/Plugins.antt =====
-- The plugins for Private Internet Access and OVPN.
use tundler.Base.{
  ℕ, ◌+◌, ◌≤◌, ◌≡◌, refl, inl, Text, true, false, Option, none, some, List, [], ◌∷◌, codes, elem,
  length, All, IsDistinct, arith, if◌then◌else◌,
}
use tundler.Provider.Machine.{Machine}
use tundler.Provider.Pia.{Pia, boot, Feed, LoginError, login, connect, provider}
use tundler.Provider.Pia.Restarts.{
  connects, logs_in, recorded, beside, run_ops, AllApart, run_ops-AreApart,
}
use tundler.Provider.Pia.Cooldown.{Means, login-Means}
use tundler.Provider.Pia.Returns.{Returns, connect-Returns}
use tundler.Provider.Pia.Lists.{connect_with_retry-provider}
use tundler.Provider.Pia.Monitor.Fallback.{failures, gives_up, failures-gives_up}
use tundler.Connect.Retry.{connect_with_retry}
use tundler.Connect.Retry.Trace.{Call, traced}
use tundler.Connect.Retry.Iteration.{dialled_in}
use tundler.System.{Host, System}
use tundler.Tests.Fixture.{server, ready_tracker, home, exit}

-- A machine that is its own clock, in nanoseconds; `piactl` answers that it timed out, but lists two
-- regions, and its login is throttled.
abbrev answers : List Text → List Text × Option Text
answers args =
    if elem (codes "login") args
    then (codes "ApiRateLimitedError" ∷ [], some (codes "exit status 1"))
    else if elem (codes "regions") args
    then (codes "# regions\n de \nfr\n" ∷ [], none)
    else if elem (codes "restart") args
    then ([], none)
    else (codes "Timed out after 5 sec" ∷ [], some (codes "exit status 2"))

abbrev machine : Machine ℕ
machine = record {
  run = λ name args w. (answers args, w + 5000000000);
  getenv = λ name. codes "set";
  clock = λ w. (w, w);
  sleep = λ d w. w + d;
  wait = λ d w. (false, w + d);
  read_file = λ p w. (inl (codes "none"), w);
  mkdir_all = λ p w. (none, w);
  write_file = λ p t w. (none, w);
  remove = λ p w. w;
  pick = λ n w. (0, w);
}

abbrev feed : Feed ℕ
feed = record {
  state = λ w. codes "Connecting";
  ip = λ w. [];
  in_fallback = λ w. false;
  start = λ w. w;
}

run_ops-AreApart_example : AllApart machine feed 241 (
    run_ops
      (recorded machine)
      (beside feed)
      241
      (logs_in ∷ connects (codes "de") ∷ logs_in ∷ [])
      (boot, (200000000000, (0, []))))
run_ops-AreApart_example =
    run_ops-AreApart machine feed 241 (logs_in ∷ connects (codes "de") ∷ logs_in ∷ []) 200000000000

login-Means_example : Means machine feed boot 200000000000 (login machine feed (boot, 200000000000))
login-Means_example = login-Means machine feed boot 200000000000

connect-Returns_example :
    Returns machine feed (connect machine feed 242 (codes "de") (boot, 200000000000))
connect-Returns_example =
    connect-Returns machine feed 241 (codes "de") (boot, 200000000000)
      (record {
        reads = λ w. omega arith;
        runs = λ cmd args w. omega arith;
        sleeps = λ d w. omega arith;
      })
      (omega arith)

abbrev message : LoginError → Text
message e = codes "login"

abbrev host : Host (Pia × ℕ)
host = record {
  provider = provider machine feed 242 message;
  clock = λ x. (x.1, x);
  pick = λ n x. (0, x);
  http_get = λ path x. (some (record { status = 200; body = some exit }), x);
  sleep = λ d x. (x.0, x.1 + d);
  cancelled = λ x. (false, x);
  post_tunnel_up = λ x. x;
  wait = λ d x. (false, (x.0, x.1 + d));
  systemctl_exit = λ x. x;
}

abbrev process : System ((Pia × ℕ) × List Call)
process = record {
  world = ((boot, 200000000000), []);
  tracker = ready_tracker;
  proxy = server;
  last_relogin_unix = 0;
  contract_dialer = true;
  notif_enabled = false;
  has_shutdown_prov = true;
  shutdown_done = false;
}

connect_with_retry-provider_example :
    let dials =
      dialled_in host (connect_with_retry (traced host) (codes "fr" ∷ []) 3 home process).1 in
    IsDistinct dials × All (λ x. elem x (codes "fr" ∷ []) ≡ false) dials × (length dials ≤ 3)
connect_with_retry-provider_example =
    connect_with_retry-provider machine feed 242 message host (codes "fr" ∷ []) 3 home process refl
      refl

abbrev times : List ℕ
times = 9000000000 ∷ 7000000000 ∷ 5000000000 ∷ 3000000000 ∷ 1000000000 ∷ []

failures-gives_up_example : (failures times).fallback_active ≡ gives_up times
failures-gives_up_example = failures-gives_up times (
  (omega arith, (omega arith, (omega arith, (omega arith, tt)))),
  (
    (omega arith, (omega arith, (omega arith, tt))),
    ((omega arith, (omega arith, tt)), ((omega arith, tt), (tt, tt))),
  ),
)
