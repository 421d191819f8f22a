-- ===== src/Provider/Surfshark/Files.antt =====
-- internal/provider/surfshark/surfshark.go: the servers of Surfshark, and the two files of a tunnel.
use tundler.Base.{
  ℕ, Text, Bool, List, [], ◌∷◌, ◌++◌, codes, text_eq, elem, trim_space, join_lines, if◌then◌else◌,
}
use tundler.Provider.OpenVpn.{lower}

pub record Server : Type 0 where
  pub country : Text
  pub country_code : Text
  pub region : Text
  pub location : Text
  pub connection_name : Text
  pub pub_key : Text
  pub load : ℕ

-- The test of `findServers`.
abbrev pub matches : Text → Server → Bool
matches location s = text_eq (lower s.country) (lower location)

-- The keys of a list of texts that are not empty.
pub keys_of : List Text → List Text
keys_of [] = []
keys_of (k ∷ ks) =
    let rest = keys_of ks in if text_eq (trim_space k) [] then rest else trim_space k ∷ rest

-- The countries, each once.
pub countries : List Text → List Server → List Text
countries seen [] = []
countries seen (s ∷ ss) =
    let rest = countries seen ss in
    let more = countries (s.country ∷ seen) ss in
    if elem s.country seen then rest else s.country ∷ more

-- The two files of a tunnel.
pub open_vpn_config : Server → Text → Text
open_vpn_config server cred_file = join_lines (
    codes "client"
    ∷ codes "dev tun"
    ∷ codes "proto udp"
    ∷ (codes "remote " ++ server.connection_name ++ codes " 1194")
    ∷ codes "remote-random"
    ∷ codes "nobind"
    ∷ codes "tun-mtu 1500"
    ∷ codes "mssfix 1450"
    ∷ codes "ping 15"
    ∷ codes "ping-restart 0"
    ∷ codes "reneg-sec 0"
    ∷ codes "remote-cert-tls server"
    ∷ (codes "auth-user-pass " ++ cred_file)
    ∷ codes "cipher AES-256-CBC"
    ∷ codes "auth SHA512"
    ∷ codes "fast-io"
    ∷ codes "verb 3"
    ∷ codes "ca /etc/surfshark/ca.crt"
    ∷ codes "tls-auth /etc/surfshark/ta.key 1"
    ∷ []
    ∷ [])

pub wire_guard_config : Text → Server → Text
wire_guard_config private_key server = join_lines (
    codes "[Interface]"
    ∷ (codes "PrivateKey = " ++ private_key)
    ∷ codes "Address = 10.14.0.2/16"
    ∷ codes "DNS = 162.252.172.57, 149.154.159.92"
    ∷ []
    ∷ codes "[Peer]"
    ∷ (codes "PublicKey = " ++ server.pub_key)
    ∷ codes "AllowedIPs = 0.0.0.0/0"
    ∷ (codes "Endpoint = " ++ server.connection_name ++ codes ":51820")
    ∷ codes "PersistentKeepalive = 25"
    ∷ []
    ∷ [])
