-- ===== src/Tests/Express.antt =====
-- The plugin for ExpressVPN, with a daemon whose tunnel is up at times, and never shows its address.
use tundler.Base.{
  ℕ, ◌+◌, ◌≡◌, refl, inl, Text, Bool, false, ◌&&◌, none, some, List, [], ◌∷◌, codes, elem, leb, ltb,
  contains, trim_space, trim_left, fields, fields_from, if◌then◌else◌,
}
use tundler.Exec.{run_cmd, write, writes, first_ipv4, first_dotted}
use tundler.Provider.{Status}
use tundler.Provider.Machine.{Machine}
use tundler.Provider.Express.{
  told, ensure_daemon_responsive, connect, get, daemon_responsive, connected, active_location,
  status, start_connect,
}
use tundler.Provider.Express.Window.{window, answered, connect-verdict}

abbrev output_at : List Text → ℕ → List Text
output_at args w =
    if elem (codes "connectionstate") args && ltb w 25000000000
    then codes "Connected\n" ∷ []
    else if elem (codes "regions") args
    then (if ltb w 15000000000
        then codes "smart\n" ∷ []
        else codes "smart\n" ∷ codes "iceland\n" ∷ [])
    else []

-- A machine that is its own clock, in nanoseconds; a process takes five seconds.
abbrev machine : Machine ℕ
machine = record {
  run = λ name args w. ((output_at args w, none), w + 5000000000);
  getenv = λ name. codes "set";
  clock = λ w. (w, w);
  sleep = λ d w. w + d;
  wait = λ d w. (false, w + d);
  read_file = λ p w. (inl (codes "none"), w);
  mkdir_all = λ p w. (none, w);
  write_file = λ p t w. (none, w);
  remove = λ p w. w;
  pick = λ n w. (0, w);
}

abbrev next : ℕ → ℕ → Bool × ℕ
next until w = (leb until w, w + 2000000000)

abbrev up : Status
up = told [] []

abbrev off : Status
off = record { connected = false; ip = []; location = []; region = []; provider = [] }

connect-verdict_example :
    answered machine next (connect machine next 5 (codes "iceland") (0, 0))
    ≡ some (told (codes "iceland") [])
unfolding ensure_daemon_responsive daemon_responsive start_connect window status connected
    active_location get run_cmd write writes contains trim_space trim_left first_ipv4 first_dotted
    fields fields_from
connect-verdict_example =
    connect-verdict machine next 5 (codes "iceland") 0 0 up (off ∷ off ∷ []) refl
