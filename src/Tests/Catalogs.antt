-- ===== src/Tests/Catalogs.antt =====
-- The lists of servers: the updater's, and the plugins for OVPN and ProtonVPN.
use tundler.Base.{
  ℕ, ◌+◌, ◌≡◌, refl, inr, String, Text, true, false, Option, none, some, List, [], ◌∷◌, codes,
  text_eq, IsDistinct, if◌then◌else◌, trim_space, trim_left,
}
use tundler.Base.Sorting.{insert, sort, sort_strings}
use tundler.Provider.Machine.{Machine}
use tundler.Provider.OpenVpn.{distinct, matching}
use tundler.Provider.Ovpn.{
  Server, Ovpn, usable, cache_parsed, load_servers, locations, choose, connect,
}
use tundler.Provider.Ovpn.Offers.{connect-locations}
use tundler.Provider.Proton.{fetch_servers}
use tundler.Provider.Proton.Emitted.{fresh, has_hostname, no_servers, fetch_servers-emit_servers}
use tundler.Updater.{LogicalServer, OutputServer, physical, transform, emit_servers, merge_logicals}
use tundler.Updater.Merge.{names, first, last, or, merge_logicals-first}

-- A machine with the credentials of OVPN and a list of servers, where `openvpn` comes up at once.
abbrev pub machine : Machine ℕ
machine = record {
  run = λ name args w. ((codes "8.8.8.8 via 10.8.0.1 dev tun0 src 10.8.0.2" ∷ [], none), w + 1);
  getenv = λ name. if text_eq name (codes "PROTON_FEATURE_FILTER") then [] else codes "set";
  clock = λ w. (w, w);
  sleep = λ d w. w + d;
  wait = λ d w. (false, w + d);
  read_file = λ p w. (inr (codes "json"), w);
  mkdir_all = λ p w. (none, w);
  write_file = λ p t w. (none, w);
  remove = λ p w. w;
  pick = λ n w. (0, w);
}

abbrev datacenter : String → String → String → Server
datacenter slug city country = record {
  slug = codes slug;
  city = codes city;
  country = codes country;
  ip = [];
}

abbrev parse : Text → Option (List Server)
parse text = some (
    datacenter "vienna" "Vienna" "AT"
    ∷ datacenter "" "Nowhere" "XX"
    ∷ datacenter "frankfurt" "Frankfurt" "DE"
    ∷ [])

abbrev fresh_ovpn : Ovpn
fresh_ovpn = record {
  server_cache = [];
  active_server = none;
  active_location = [];
  logged_in = false;
}

connect-locations_example :
    let (names, (s, w)) = locations machine parse [] [] (fresh_ovpn, 0) in
    (server : Server) × (rest : List Server) × (connect machine parse [] [] (codes "AT") (s, 9)
      ≡ choose machine parse [] [] (server ∷ rest) (codes "set") (codes "set") (codes "AT") (s, 9))
unfolding locations load_servers cache_parsed usable sort insert sort_strings distinct matching
connect-locations_example =
    connect-locations machine parse [] [] fresh_ovpn 0 9 (codes "AT") (codes "set") (codes "set")
      refl refl

abbrev logical : String → String → ℕ → LogicalServer
logical name country features = record {
  name = codes name;
  entry_country = [];
  exit_country = codes country;
  country = [];
  region = [];
  city = [];
  tier = none;
  features = features;
  servers =
      record {
        id = [];
        domain = codes name;
        entry_ip = codes "192.0.2.7";
        status = 1;
        generation = 0;
      }
      ∷ record { id = []; domain = []; entry_ip = codes "192.0.2.8"; status = 1; generation = 0 }
      ∷ [];
  status = 1;
}

abbrev standard : List LogicalServer
standard = logical "SE#1" "SE" 0 ∷ logical "IS#1" "IS" 0 ∷ []

abbrev secure_core : List LogicalServer
secure_core = logical "IS#1" "IS" 1 ∷ logical "CH#1" "CH" 1 ∷ []

merge_logicals-first_example :
    let merged = merge_logicals standard secure_core in
    IsDistinct (names merged)
    × ((n : Text) → first n merged ≡ or (last n secure_core) (first n standard))
merge_logicals-first_example = merge_logicals-first standard secure_core (refl, (refl, tt))

abbrev output : String → String → String → OutputServer
output country hostname ip = record {
  vpn = codes "openvpn";
  country = codes country;
  region = [];
  city = [];
  server_name = codes country;
  hostname = codes hostname;
  tcp = true;
  udp = true;
  ips = codes ip ∷ [];
  features = 0;
  tier = 0;
}

abbrev pub file : List OutputServer
file =
    output "IS" "" "192.0.2.8"
    ∷ output "IS" "IS" "192.0.2.7"
    ∷ output "SE" "" "192.0.2.8"
    ∷ output "SE" "SE" "192.0.2.7"
    ∷ []

abbrev printed : List LogicalServer
printed = logical "SE" "SE" 0 ∷ logical "IS" "IS" 0 ∷ []

fetch_servers-emit_servers_example :
    let ((servers, failed), cw) = fetch_servers machine (λ text. some file) (fresh, 0) in
    (servers ≡ matching has_hostname file) × (failed ≡ no_servers (matching has_hostname file))
unfolding emit_servers transform physical sort insert trim_space trim_left
fetch_servers-emit_servers_example =
    fetch_servers-emit_servers machine (λ text. some file) printed file (codes "json") 0 refl refl
      refl refl
