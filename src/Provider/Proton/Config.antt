-- ===== src/Provider/Proton/Config.antt =====
-- internal/provider/protonvpn/openvpn_config.go: the file that `openvpn` reads, and `getPort`. The
-- certificate and the key are parameters.
use tundler.Base.{
  Text, Bool, not, ◌&&◌, List, [], ◌∷◌, ◌++◌, codes, join_lines, text_eq, trim_space, if◌then◌else◌,
}
use tundler.Updater.{OutputServer}

-- `getPort`; `is_number` tells whether `strconv.Atoi` reads a text.
pub get_port : (Text → Bool) → Text → Text → Text
get_port is_number value protocol =
    if not (text_eq value []) && is_number value
    then value
    else if text_eq protocol (codes "tcp")
    then codes "443"
    else codes "1194"

remote_lines : Text → List Text → List Text
remote_lines port [] = []
remote_lines port (r ∷ rs) =
    let rest = remote_lines port rs in
    if text_eq (trim_space r) [] then rest else (codes "remote " ++ r ++ codes " " ++ port) ∷ rest

abbrev remotes_of : OutputServer → List Text
remotes_of server = elim server.ips [ [] ↦ server.hostname ∷ [] | ◌∷◌ ip ips ↦ ip ∷ ips ]

-- `buildOpenVPNConfig`
pub build_open_vpn_config : Text → Text → Text → Text → OutputServer → Text → Text
unfolding remote_lines
build_open_vpn_config proton_ca proton_tls_crypt proto port server credentials_file =
    let exit_lines =
      if text_eq proto (codes "udp")
      then codes "explicit-exit-notify" ∷ codes "fast-io" ∷ []
      else [] in
    join_lines (
      (codes "client" ∷ codes "dev tun" ∷ (codes "proto " ++ proto) ∷ [])
      ++ remote_lines port (remotes_of server)
      ++ (codes "remote-random"
          ∷ codes "resolv-retry infinite"
          ∷ codes "nobind"
          ∷ codes "cipher AES-256-GCM"
          ∷ codes "data-ciphers AES-256-GCM:AES-128-GCM"
          ∷ codes "data-ciphers-fallback AES-256-GCM"
          ∷ codes "auth SHA512"
          ∷ codes "verb 3"
          ∷ codes "setenv CLIENT_CERT 0"
          ∷ codes "tun-mtu 1500"
          ∷ codes "tun-mtu-extra 32"
          ∷ codes "mssfix 1450"
          ∷ codes "persist-key"
          ∷ codes "persist-tun"
          ∷ codes "reneg-sec 0"
          ∷ codes "remote-cert-tls server"
          ∷ (codes "auth-user-pass " ++ credentials_file)
          ∷ codes "pull"
          ∷ codes "auth-nocache"
          ∷ codes "auth-retry nointeract"
          ∷ codes "pull-filter ignore \"auth-token\""
          ∷ codes "pull-filter ignore \"tun-ipv6\""
          ∷ codes "pull-filter ignore \"route-ipv6\""
          ∷ codes "pull-filter ignore \"ifconfig-ipv6\""
          ∷ [])
      ++ exit_lines
      ++ (codes "<ca>"
          ∷ codes "-----BEGIN CERTIFICATE-----"
          ∷ proton_ca
          ∷ codes "-----END CERTIFICATE-----"
          ∷ codes "</ca>"
          ∷ codes "<tls-crypt>"
          ∷ codes "-----BEGIN OpenVPN Static key V1-----"
          ∷ proton_tls_crypt
          ∷ codes "-----END OpenVPN Static key V1-----"
          ∷ codes "</tls-crypt>"
          ∷ []
          ∷ []))
