-- ===== src/Provider/FastVpn/Warp.antt =====
-- fastvpn.go: the transport of Cloudflare WARP, and the rules and routes that make the traffic of
-- `openvpn` take it and the rest of the traffic take the tunnel.
pub mod Stuck
pub mod Rule
use tundler.Base.{
  ℕ, zero, suc, inl, inr, Text, Bool, true, false, not, ◌&&◌, ◌||◌, Option, none, some, List, [],
  ◌∷◌, ◌++◌, codes, text_eq, elem, trim_space, split, fields, contains, if◌then◌else◌,
}
use tundler.Exec.{first_ipv4}
use tundler.Provider.Machine.{Machine, is_none, milliseconds, command}
use tundler.Provider.OpenVpn.{lower}
use tundler.Provider.OvpnFiles.{remote_hosts}

-- A line that says that the tunnel is used.
unfoldable pub shows_warp : List Text → Bool
shows_warp [] = false
shows_warp (l ∷ ls) = text_eq (trim_space l) (codes "warp=on") || shows_warp ls

-- The text that follows a word.
unfoldable pub after_word : Text → List Text → Option Text
after_word word [] = none
after_word word (f ∷ []) = none
after_word word (f ∷ g ∷ fs) = if text_eq f word then some g else after_word word (g ∷ fs)

-- The table of the rule of WARP in the list of the rules.
unfoldable pub table_of : List Text → Option Text
unfolding after_word
table_of [] = none
table_of (l ∷ ls) =
    let rest = table_of ls in
    if not (contains l (codes "fwmark")) || not (contains l (codes "lookup"))
    then rest
    else elim (after_word (codes "lookup") (fields l)) [ some table ↦ some table | none ↦ rest ]

-- The addresses with those of more lines, each once.
unfoldable pub add_ips : List Text → List Text → List Text
add_ips ips [] = ips
add_ips ips (l ∷ ls) =
    let ip = first_ipv4 l in
    add_ips (if text_eq ip [] || elem ip ips then ips else ips ++ (ip ∷ [])) ls

abbrev pub trace_args : List Text
trace_args =
    codes "-s"
    ∷ codes "--max-time"
    ∷ codes "3"
    ∷ codes "https://www.cloudflare.com/cdn-cgi/trace"
    ∷ []

abbrev pub main_beat_warp_pref : Text
main_beat_warp_pref = codes "32763"

abbrev remote_via_warp_pref : Text
remote_via_warp_pref = codes "100"

abbrev pub del_rule : Text → List Text
del_rule pref = codes "rule" ∷ codes "del" ∷ codes "pref" ∷ pref ∷ []

abbrev pub add_main_rule : List Text
add_main_rule =
    codes "rule"
    ∷ codes "add"
    ∷ codes "from"
    ∷ codes "all"
    ∷ codes "lookup"
    ∷ codes "main"
    ∷ codes "pref"
    ∷ main_beat_warp_pref
    ∷ []

module _ {W : Type 0} (m : Machine W) where
  abbrev run_ip : List Text → W → (Text × Option Text) × W
  run_ip args w = command m (codes "ip") args w

  warp_run : List Text → W → (Text × Option Text) × W
  warp_run args w = command m (codes "warp-cli") (codes "--accept-tos" ∷ args) w

  unfoldable pub warp_on : W → Bool × W
  unfolding shows_warp
  warp_on w =
      let ((out, err), w') = command m (codes "curl") trace_args w in
      (is_none err && shows_warp (split 10 out), w')

  -- The wait for the transport, in rounds of half a second: whether it failed.
  pub await_warp : ℕ → W → Bool × W
  await_warp zero w = (true, w)
  await_warp (suc rounds) w =
      let (up, w') = warp_on w in
      let later = await_warp rounds (m.sleep (milliseconds 500) w') in
      if up then (false, w') else later

  -- The rest of `warpUp`, with a registration.
  pub warp_connect : W → Bool × W
  unfolding warp_run await_warp
  warp_connect w =
      let (r, w₁) = warp_run (codes "mode" ∷ codes "warp" ∷ []) w in
      let ((out, err), w₂) = warp_run (codes "connect" ∷ []) w₁ in
      let end = await_warp 60 w₂ in if is_none err then end else (true, w₂)

  -- `warpUp`: whether there was an error.
  pub warp_up : W → Bool × W
  unfolding warp_run warp_connect
  warp_up w =
      let (on, w₁) = warp_on w in
      let ((reg, err), w₂) = warp_run (codes "registration" ∷ codes "show" ∷ []) w₁ in
      let low = lower reg in
      let ((out, err'), w₃) = warp_run (codes "registration" ∷ codes "new" ∷ []) w₂ in
      let known = contains low (codes "device id") || contains low (codes "account") in
      if on
      then (false, w₁)
      else if known
      then warp_connect w₂
      else if is_none err'
      then warp_connect w₃
      else (true, w₃)

  unfoldable pub gateway_of : Text → Option Text
  unfolding after_word
  gateway_of out = after_word (codes "via") (fields out)

  -- `origDefaultGateway`
  unfoldable pub orig_default_gateway : W → Option Text × W
  unfolding gateway_of
  orig_default_gateway w =
      let ((out, err), w₁) =
        run_ip (codes "route" ∷ codes "show" ∷ codes "default" ∷ codes "dev" ∷ codes "eth0" ∷ [])
          w in
      let ((out', err'), w₂) = run_ip (codes "route" ∷ codes "show" ∷ codes "default" ∷ []) w₁ in
      if not (is_none err) || text_eq (trim_space out) []
      then (if is_none err' then gateway_of out' else none, w₂)
      else (gateway_of out, w₁)

  -- The addresses of the hosts, after those that were found before.
  unfoldable pub resolve_hosts : List Text → List Text → W → List Text × W
  unfolding add_ips
  resolve_hosts [] ips w = (ips, w)
  resolve_hosts (host ∷ hosts) ips w =
      let ((out, err), w') = command m (codes "getent") (codes "ahostsv4" ∷ host ∷ []) w in
      resolve_hosts hosts (if is_none err then add_ips ips (split 10 out) else ips) w'

  abbrev some_ips : List Text → Option (List Text)
  some_ips [] = none
  some_ips (ip ∷ ips) = some (ip ∷ ips)

  -- `resolveRemotes`
  unfoldable pub resolve_remotes : Text → W → Option (List Text) × W
  unfolding resolve_hosts
  resolve_remotes config_path w =
      let (file, w') = m.read_file config_path w in
      elim file [
        | inl err ↦ (none, w')
        | inr raw ↦ let (ips, w'') = resolve_hosts (remote_hosts raw) [] w' in (some_ips ips, w'')
      ]

  -- `warpTableNum`
  unfoldable pub warp_table_num : W → Option Text × W
  unfolding table_of
  warp_table_num w =
      let ((out, err), w') = run_ip (codes "rule" ∷ codes "show" ∷ []) w in
      (if is_none err then table_of (split 10 out) else none, w')

  -- `flushRemoteViaWarpRules`, with the rounds that are left.
  unfoldable pub flush_remote_via_warp_rules : ℕ → W → W
  flush_remote_via_warp_rules zero w = w
  flush_remote_via_warp_rules (suc rounds) w =
      let ((out, err), w') = run_ip (del_rule remote_via_warp_pref) w in
      let later = flush_remote_via_warp_rules rounds w' in if is_none err then later else w'

  -- A rule for each remote: whether there was an error.
  unfoldable pub route_remotes : Text → List Text → W → Bool × W
  route_remotes warp_table [] w = (false, w)
  route_remotes warp_table (remote ∷ remotes) w =
      let ((out, err), w') =
        run_ip
          (codes "rule"
            ∷ codes "add"
            ∷ codes "to"
            ∷ (remote ++ codes "/32")
            ∷ codes "lookup"
            ∷ warp_table
            ∷ codes "pref"
            ∷ remote_via_warp_pref
            ∷ [])
          w in
      let later = route_remotes warp_table remotes w' in if is_none err then later else (true, w')

  -- The rule that makes the main table come before WARP's.
  unfoldable pub divert : W → Bool × W
  divert w =
      let (r, w₁) = run_ip (del_rule main_beat_warp_pref) w in
      let ((out, err), w₂) = run_ip add_main_rule w₁ in (not (is_none err), w₂)

  -- `setupNestedRouting`, with the gateway and the table.
  unfoldable pub set_routes : Text → Text → List Text → W → Bool × W
  unfolding flush_remote_via_warp_rules route_remotes divert
  set_routes gw warp_table remote_ips w =
      let ((out, err), w₁) =
        run_ip
          (codes "route"
            ∷ codes "replace"
            ∷ codes "162.159.0.0/16"
            ∷ codes "via"
            ∷ gw
            ∷ codes "dev"
            ∷ codes "eth0"
            ∷ [])
          w in
      let (failed, w₂) = route_remotes warp_table remote_ips (flush_remote_via_warp_rules 64 w₁) in
      let end = divert w₂ in
      if not (is_none err) then (true, w₁) else if failed then (true, w₂) else end

  unfoldable pub setup_nested_routing : List Text → W → Bool × W
  unfolding orig_default_gateway warp_table_num set_routes
  setup_nested_routing remote_ips w =
      let (gw, w₁) = orig_default_gateway w in
      elim gw [
        | none ↦ (true, w₁)
        | some g ↦
            let (table, w₂) = warp_table_num w₁ in
            elim table [ none ↦ (true, w₂) | some t ↦ set_routes g t remote_ips w₂ ]
      ]

  unfoldable pub teardown_nested_routing : W → W
  unfolding flush_remote_via_warp_rules
  teardown_nested_routing w =
      let (r, w') = run_ip (del_rule main_beat_warp_pref) w in flush_remote_via_warp_rules 64 w'
