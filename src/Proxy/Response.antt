-- ===== src/Proxy/Response.antt =====
-- proxy.go, `writeConnectResponse`, `writeError` and `itoa`: the text that is written.
use tundler.Base.{
  ℕ, ◌+◌, ◌-◌, ◌*◌, ◌/◌, ◌%◌, ◌^◌, ◌<◌, ◌≡◌, Text, Bool, [], ◌∷◌, ◌++◌, codes, text_eq, length,
  arith, leb, ◌&&◌, if◌then◌else◌,
}

abbrev crlf : Text
crlf = 13 ∷ 10 ∷ []

-- A header line, written only if its value is not empty.
abbrev header : Text → Text → Text
header name value = if text_eq value [] then [] else name ++ (codes ": " ++ (value ++ crlf))

-- `writeConnectResponse`
unfoldable pub connect_response : Text → Text → Text → Text
connect_response pod_name node_ip exit_ip =
    codes "HTTP/1.1 200 Connection established"
    ++ (crlf
        ++ (header (codes "x-tundler-tunnel-id") pod_name
            ++ (header (codes "x-tundler-node-ip") node_ip
                ++ (header (codes "x-tundler-exit-ip") exit_ip ++ crlf))))

-- `itoa`, with the conversion to a byte
itoa : ℕ → Text
itoa n = (48 + n / 100) % 256 ∷ (48 + n / 10 % 10) % 256 ∷ (48 + n % 10) % 256 ∷ []

-- `writeError`
unfoldable pub error_response : ℕ → Text → Text
unfolding itoa
error_response code msg =
    codes "HTTP/1.1 "
    ++ (itoa code
        ++ (codes " " ++ (msg ++ codes "\r\nContent-Length: 0\r\nConnection: close\r\n\r\n")))

-- The number that a text of three decimal digits names.
abbrev is_digit : ℕ → Bool
is_digit c = leb 48 c && leb c 57

abbrev number : Text → ℕ
number [] = 0
number (c ∷ s) = (c - 48) * 10 ^ length s + number s

-- A three-digit code is written as its three decimal digits, and read back from them.
itoa_digits : (n : ℕ) → n < 1000 → (number (itoa n) ≡ n) × (length (itoa n) ≡ 3)
unfolding itoa
itoa_digits n h = omega arith
