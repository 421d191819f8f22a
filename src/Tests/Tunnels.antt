-- ===== src/Tests/Tunnels.antt =====
-- The plugins for IPVanish, CyberGhost, FastVPN and VeePN, whose tunnel is one of `openvpn`, and for Mullvad,
-- whose tunnel is one of WireGuard.
use tundler.Base.{
  ℕ, ◌||◌, has_suffix, arith, ◌+◌, ◌≡◌, refl, inr, Text, Bool, true, false, Option, none, some,
  List, [], ◌∷◌, ◌++◌, codes, trim_space, trim_left, split, fields, fields_from, contains, text_eq,
  elem, All, if◌then◌else◌,
}
use tundler.Provider.Machine.{Machine}
use tundler.Provider.Direct.{Direct, down, fresh, dial, connect}
use tundler.Provider.Direct.Outcome.{IsOutcome, connect-IsOutcome}
use tundler.Provider.CyberGhost.Isolation.{reads, reads-apart}
use tundler.Provider.FastVpn.{FastvpnServer}
use tundler.Provider.FastVpn as FastVpn
use tundler.Provider.FastVpn.Diverted.{counting, host, connects, dial-connects}
use tundler.Provider.FastVpn.Names.{file_name, parse_filename-file_name}
use tundler.Provider.FastVpn.Warp.{
  shows_warp, after_word, table_of, add_ips, warp_on, gateway_of, orig_default_gateway,
  resolve_hosts, resolve_remotes, warp_table_num, flush_remote_via_warp_rules, route_remotes,
  divert, set_routes, setup_nested_routing,
}
use tundler.Provider.OvpnFiles.{after_prefix, with_credentials, remote_hosts}
use tundler.Exec.{run_cmd, write, writes, first_ipv4, first_dotted}
use tundler.Provider.IpVanish as IpVanish
use tundler.Provider.VeePn.{VeepnServer}
use tundler.Provider.VeePn as VeePn
use tundler.Provider.VeePn.Told.{IsTold, connect-IsTold}
use tundler.Provider.WireGuard.Collision.{Link}
use tundler.Provider.Mullvad.{RelaysResponse}
use tundler.Provider.Mullvad.Restarts.{
  Call, connecting, disconnecting, asking, run_calls, run_calls-collided,
}

-- A process prints what `ip` and `getent` do; WARP's trace and the removal of a rule fail.
abbrev output : Text
output = codes "default via 10.0.0.1 dev eth0 fwmark 0x1 lookup 65743 8.8.8.8 dev tun0 src 10.8.0.2"

abbrev machine : Machine ℕ
machine = record {
  run = λ name args w. (
    (
      output ∷ [],
      if text_eq name (codes "curl") || elem (codes "del") args
          then some (codes "exit status 1")
          else none,
    ),
    w + 1,
  );
  getenv = λ name. codes "set";
  clock = λ w. (w, w);
  sleep = λ d w. w + d;
  wait = λ d w. (false, w + d);
  read_file = λ p w. (inr (codes "dev tun\nremote par.example 1194\nauth-user-pass\n"), w);
  mkdir_all = λ p w. (none, w);
  write_file = λ p t w. (none, w);
  remove = λ p w. w;
  pick = λ n w. (0, w);
}

abbrev join : Text → Text → Text
join dir name = dir ++ codes "/" ++ name

abbrev entries : Text → ℕ → Option (List (Text × Bool)) × ℕ
entries dir w = (
  some
      ((codes "ca.ipvanish.com.crt", false) ∷ (codes "ipvanish-FR-Paris-par-a01.ovpn", false) ∷ []),
  w,
)

abbrev before : Direct IpVanish.IpvanishServer
before = fresh

connect-IsOutcome_example :
    IsOutcome machine
      (IpVanish.plugin machine join entries)
      (codes "France")
      before
      (connect machine (IpVanish.plugin machine join entries) (codes "France") (before, 0))
connect-IsOutcome_example =
    connect-IsOutcome machine (IpVanish.plugin machine join entries) (codes "France") before 0

reads-apart_example :
    All
      (λ file. elem file (reads machine (codes "ghost") 1 7) ≡ false)
      (reads machine (codes "ghost") 11 0)
reads-apart_example =
    reads-apart machine (codes "ghost") (codes "ghost") 11 1 0 7 (omega arith) (omega arith)
      (omega arith)

parse_filename-file_name_example :
    FastVpn.parse_filename (file_name 85 83 (codes "New York") true)
    ≡ some (codes "US", codes "New York", true)
unfolding has_suffix
parse_filename-file_name_example =
    parse_filename-file_name 85 83 (codes "New York") true refl refl refl refl refl

abbrev no_entries : Text → (ℕ × ℕ) × Bool → Option (List (Text × Bool)) × ((ℕ × ℕ) × Bool)
no_entries dir x = (some [], x)

abbrev paris : FastvpnServer
paris = record {
  country = codes "France";
  cc = codes "FR";
  city = codes "Paris";
  virtual = false;
  filename = codes "NCVPN-FR-Paris-UDP.ovpn";
}

-- A machine where WARP is used as long as no rule hides it.
abbrev warped : Machine ℕ
warped = record machine {
  run = λ name args w.
      if text_eq name (codes "curl")
      then ((codes "warp=on" ∷ [], none), w + 1)
      else machine.run name args w;
}

abbrev clear : (ℕ × ℕ) × Bool
clear = ((0, 0), false)

dial-connects_example :
    let k = host warped join no_entries in
    let (st, sw) =
      dial k
        (FastVpn.plugin k join no_entries)
        paris
        (codes "France")
        (fresh, (FastVpn.prepare k join no_entries (codes "user", codes "pass") paris clear).1) in
    let (sts, sw') = connects warped join no_entries (codes "France" ∷ codes "Spain" ∷ []) sw in
    let (s', x') = FastVpn.disconnect k join no_entries sw' in
    All (λ st'. st' ≡ down (codes "fastvpn") []) sts
    × (sw'.1.0.1 ≡ sw.1.0.1)
    × (sw'.1.1 ≡ true)
    × (x'.1 ≡ false)
    × ((warp_on k x').0 ≡ (warp_on (counting warped) x'.0).0)
unfolding FastVpn.prepare FastVpn.write_credentials FastVpn.write_active_config FastVpn.route
    FastVpn.config_dir with_credentials remote_hosts after_prefix shows_warp after_word table_of
    add_ips warp_on gateway_of orig_default_gateway resolve_hosts resolve_remotes warp_table_num
    flush_remote_via_warp_rules route_remotes divert set_routes setup_nested_routing run_cmd write
    writes trim_space trim_left split fields fields_from contains first_ipv4 first_dotted
dial-connects_example =
    dial-connects warped join no_entries (codes "user", codes "pass") paris (codes "France")
      (codes "France" ∷ codes "Spain" ∷ []) fresh clear refl

-- A machine where every process works.
abbrev willing : Machine ℕ
willing = record machine { run = λ name args w. ((output ∷ [], none), w + 1) }

abbrev gothenburg : Text → Option RelaysResponse
gothenburg text = some (record {
  places = (codes "se-got", (codes "Sweden", codes "Gothenburg")) ∷ [];
  relays =
      record {
        hostname = codes "se-got-wg-001";
        active = true;
        location = codes "se-got";
        ipv4_addr_in = codes "192.0.2.9";
        public_key = codes "key";
      }
      ∷ [];
})

abbrev calls : List Call
calls = connecting (codes "Sweden") ∷ asking ∷ connecting (codes "se-got") ∷ disconnecting ∷ []

-- The interface of an earlier process.
abbrev left_over : Link
left_over = record { present = true; collided = false }

run_calls-collided_example :
    (run_calls willing gothenburg calls (fresh, (0, left_over))).1.1.collided ≡ false
run_calls-collided_example =
    run_calls-collided willing gothenburg calls fresh (0, left_over) (λ w. refl) refl

-- The file of a directory, and a plugin with a tunnel to another place.
abbrev ovpn_files : Text → ℕ → Option (List (Text × Bool)) × ℕ
ovpn_files dir w = (some ((codes "fr.udp.veepn.com.ovpn", false) ∷ []), w)

abbrev in_albania : Direct VeepnServer
in_albania = record {
  server_cache = [];
  active_server = some (record {
    location = codes "al";
    proto = codes "udp";
    filename = codes "al.udp.veepn.com.ovpn";
  });
  active_location = codes "al";
  logged_in = true;
}

connect-IsTold_example :
    IsTold machine join ovpn_files
      (codes "FR")
      in_albania
      (VeePn.connect machine join ovpn_files (codes "FR") (in_albania, 0))
connect-IsTold_example = connect-IsTold machine join ovpn_files (codes "FR") in_albania 0
