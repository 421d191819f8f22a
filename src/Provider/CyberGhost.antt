-- ===== src/Provider/CyberGhost.antt =====
-- internal/provider/cyberghost/cyberghost.go: the plugin for CyberGhost. The parse of a list of
-- servers, the embedded list and certificate, and `filepath.Join` are parameters, the last but for
-- the credentials, whose directory and file names are plain.
pub mod Isolation
use tundler.Base.{
  ℕ, ◌⊎◌, inl, inr, Text, Bool, true, false, not, ◌||◌, Option, none, some, List, [], ◌∷◌, ◌++◌,
  codes, text_eq, trim_space, has_suffix, join_lines, if◌then◌else◌,
}
use tundler.Base.Decimal.{decimal}
use tundler.Provider.{Status}
use tundler.Provider.Machine.{Machine, is_none}
use tundler.Provider.OpenVpn.{lower, is_open_vpn_connected}
use tundler.Provider.Pods.{pod_ordinal}
use tundler.Provider.Direct.{Direct, Plugin, region, write_files}
use tundler.Provider.Direct as Shape

pub record CyberghostServer : Type 0 where
  pub country : Text
  pub city : Text
  pub hostname : Text

-- A certificate, its key, a user and a password.
pub record Credentials : Type 0 where
  pub cert : Text
  pub key : Text
  pub user : Text
  pub pass : Text

abbrev creds_dir : Text
creds_dir = codes "/etc/cyberghost/creds"

abbrev runtime_servers_path : Text
runtime_servers_path = codes "/etc/cyberghost/servers.json"

-- The file of a credential of a pod.
pub credential_file : ℕ → Text → Text
credential_file ord name = creds_dir ++ (codes "/POD_" ++ (decimal ord ++ (codes "_" ++ name)))

-- `ensurePEMTerminator`
pub ensure_pem_terminator : Text → Text
ensure_pem_terminator s = if has_suffix s (10 ∷ []) then s else s ++ (10 ∷ [])

abbrev matches : Text → CyberghostServer → Bool
matches location s =
    text_eq (lower s.country) (lower location) || text_eq (lower s.city) (lower location)

-- `buildOpenVPNConfig`
build_open_vpn_config : CyberghostServer → Text → Text → Text → Text → Text
build_open_vpn_config server ca_path cert_path key_path auth_path = join_lines (
    codes "client"
    ∷ (codes "remote " ++ server.hostname ++ codes " 443")
    ∷ codes "dev tun"
    ∷ codes "proto udp"
    ∷ (codes "auth-user-pass " ++ auth_path)
    ∷ codes "resolv-retry infinite"
    ∷ codes "redirect-gateway def1"
    ∷ codes "persist-key"
    ∷ codes "persist-tun"
    ∷ codes "nobind"
    ∷ codes "data-ciphers AES-256-GCM:AES-128-GCM:AES-256-CBC"
    ∷ codes "data-ciphers-fallback AES-256-CBC"
    ∷ codes "auth SHA256"
    ∷ codes "ping 5"
    ∷ codes "explicit-exit-notify 2"
    ∷ codes "script-security 2"
    ∷ codes "remote-cert-tls server"
    ∷ codes "route-delay 5"
    ∷ codes "verb 3"
    ∷ (codes "ca " ++ ca_path)
    ∷ (codes "cert " ++ cert_path)
    ∷ (codes "key " ++ key_path)
    ∷ []
    ∷ [])

-- The text of a file that was read, and an error's place.
abbrev all_read : Text ⊎ Text → Text ⊎ Text → Text ⊎ Text → Text ⊎ Text → Option Credentials
all_read (inr c) (inr k) (inr u) (inr p) =
    some (record { cert = c; key = k; user = trim_space u; pass = trim_space p })
all_read c k u p = none

module _ {W : Type 0} (m : Machine W) where
  -- `getCredentials`
  pub get_credentials : W → Option Credentials × W
  unfolding pod_ordinal
  get_credentials w = elim (pod_ordinal (m.getenv (codes "POD_NAME"))) [
    | none ↦ (none, w)
    | some ord ↦
        let (c, w₁) = m.read_file (credential_file ord (codes "CERTIFICATE")) w in
        let (k, w₂) = m.read_file (credential_file ord (codes "KEY")) w₁ in
        let (u, w₃) = m.read_file (credential_file ord (codes "USERNAME")) w₂ in
        let (p, w₄) = m.read_file (credential_file ord (codes "PASSWORD")) w₃ in
        (all_read c k u p, w₄)
  ]

  config_dir : Text
  config_dir =
      let dir = m.getenv (codes "CYBERGHOST_CONFIG_DIR") in
      if text_eq dir [] then codes "/etc/cyberghost/openvpn" else dir

module _ {W : Type 0} (m : Machine W) (join : Text → Text → Text)
    (parse : Text → Option (List CyberghostServer)) (embedded_servers embedded_ca_cert : Text) where
  abbrev parsed : Text ⊎ Text → Option (List CyberghostServer)
  parsed (inl err) = none
  parsed (inr text) = parse text

  -- The embedded list, where the file gave no server.
  abbrev or_embedded : Option (List CyberghostServer) → Option (List CyberghostServer)
  or_embedded none = parse embedded_servers
  or_embedded (some []) = parse embedded_servers
  or_embedded (some (s ∷ ss)) = some (s ∷ ss)

  pub read_servers : W → Option (List CyberghostServer) × W
  read_servers w =
      let (file, w') = m.read_file runtime_servers_path w in (or_embedded (parsed file), w')

  -- `writeAuthArtifacts` and `writeActiveConfig`: whether there was an error.
  write_auth_artifacts : Credentials → W → Bool × W
  unfolding config_dir ensure_pem_terminator
  write_auth_artifacts c w =
      let dir = config_dir m in
      let (err, w') = m.mkdir_all dir w in
      if is_none err
      then write_files m
          ((join dir (codes "ca.crt"), embedded_ca_cert)
            ∷ (join dir (codes "client.crt"), ensure_pem_terminator c.cert)
            ∷ (join dir (codes "client.key"), ensure_pem_terminator c.key)
            ∷ (join dir (codes "auth.txt"), c.user ++ (10 ∷ []) ++ c.pass ++ (10 ∷ []))
            ∷ [])
          w'
      else (true, w')

  write_active_config : CyberghostServer → W → Bool × W
  unfolding config_dir build_open_vpn_config
  write_active_config server w =
      let dir = config_dir m in
      let config =
        build_open_vpn_config server (join dir (codes "ca.crt")) (join dir (codes "client.crt"))
          (join dir (codes "client.key")) (join dir (codes "auth.txt")) in
      let (err, w') = m.write_file (join dir (codes "active.ovpn")) config w in
      (not (is_none err), w')

  prepare : Credentials → CyberghostServer → W → Bool × W
  unfolding write_auth_artifacts write_active_config
  prepare c server w =
      let (failed, w') = write_auth_artifacts c w in
      let end = write_active_config server w' in if failed then (true, w') else end

  -- What Connect and the other operations do of themselves.
  pub plugin : Plugin CyberghostServer Credentials W
  unfolding get_credentials read_servers prepare config_dir
  plugin = record {
    name = codes "cyberghost";
    country = λ s. s.country;
    region_of = λ s. region s.country s.city;
    matches = matches;
    read_servers = read_servers;
    ready = get_credentials m;
    prepare = prepare;
    openvpn_args =
        codes "--cd"
        ∷ config_dir m
        ∷ codes "--config"
        ∷ codes "active.ovpn"
        ∷ codes "--tun-mtu"
        ∷ codes "1320"
        ∷ codes "--mssfix"
        ∷ codes "1280"
        ∷ codes "--daemon"
        ∷ [];
    on_up = λ w. w;
  }

  load_servers :
      Direct CyberghostServer × W → Option (List CyberghostServer) × (Direct CyberghostServer × W)
  unfolding plugin
  load_servers = Shape.load_servers m plugin

  active_location : Direct CyberghostServer → Text
  unfolding plugin
  active_location = Shape.active_location m plugin

  connect : Text → Direct CyberghostServer × W → Status × (Direct CyberghostServer × W)
  unfolding plugin
  connect = Shape.connect m plugin

  connected : W → Bool × W
  connected = is_open_vpn_connected m

  disconnect : Direct CyberghostServer × W → Direct CyberghostServer × W
  unfolding plugin
  disconnect = Shape.disconnect m plugin

  locations : Direct CyberghostServer × W → List Text × (Direct CyberghostServer × W)
  unfolding plugin
  locations = Shape.locations m plugin

  status : Direct CyberghostServer × W → Status × (Direct CyberghostServer × W)
  unfolding plugin
  status = Shape.status m plugin

  -- `Login`, whose result is whether there was an error.
  login : Direct CyberghostServer × W → Bool × (Direct CyberghostServer × W)
  unfolding plugin
  login (s, w) =
      let (creds, w') = get_credentials m w in
      elim creds [ none ↦ (true, (s, w')) | some c ↦ Shape.login m plugin (s, w') ]

  public_ip : W → Text × W
  public_ip = Shape.public_ip m

  logout : Direct CyberghostServer × W → Direct CyberghostServer × W
  logout = Shape.logout m

  version : W → Option Text × W
  version = Shape.version m
