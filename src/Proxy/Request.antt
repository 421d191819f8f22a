-- ===== src/Proxy/Request.antt =====
-- proxy.go, `parseConnect`. The reader is the text that the client sends before it stops; a read
-- past its end is the error of `ReadString`. What is left of it is forwarded to the upstream.
pub mod Sound
use tundler.Base.{
  ℕ, zero, suc, ◌+◌, ◌<◌, ◌≤◌, ◌≡◌, refl, Text, Bool, true, false, not, ◌||◌, ◌&&◌, Option, none,
  some, List, [], ◌∷◌, codes, text_eq, trim_space, trim_left, fields, equal_fold, contains_byte,
  length, arith, ◌==◌, if◌then◌else◌,
}

abbrev pub newline : ℕ
newline = 10

abbrev pub colon : ℕ
colon = 58

-- `br.ReadString('\n')`: the line with its end, and the rest.
abbrev pub push_line : ℕ → Option (Text × Text) → Option (Text × Text)
push_line c none = none
push_line c (some (line, rest)) = some (c ∷ line, rest)

pub read_line : Text → Option (Text × Text)
read_line [] = none
read_line (c ∷ s) = if c == newline then some (newline ∷ [], s) else push_line c (read_line s)

-- The request line, split into its fields: the target of a CONNECT with a port.
pub request_target : List Text → Option Text
request_target (method ∷ target ∷ version ∷ []) =
    if not (equal_fold method (codes "CONNECT"))
    then none
    else if not (contains_byte colon target)
    then none
    else some target
request_target _ = none

-- The loop over the headers, with fuel: it returns what follows the blank line.
pub skip_headers : ℕ → Text → Option Text
skip_headers zero s = none
skip_headers (suc fuel) s = elim (read_line s) [
  | none ↦ none
  | some (h, rest) ↦
      let more = skip_headers fuel rest in if text_eq (trim_space h) [] then some rest else more
]

abbrev with_target : Text → Option Text → Option (Text × Text)
with_target target none = none
with_target target (some rest) = some (target, rest)

-- `parseConnect`: the target, and what is left in the reader. A header takes a byte at least, so
-- the length of the text is fuel enough.
pub parse_connect : Text → Option (Text × Text)
unfolding request_target
parse_connect s = elim (read_line s) [
  | none ↦ none
  | some (line, rest) ↦ elim (request_target (fields (trim_space line))) [
    | none ↦ none
    | some target ↦ with_target target (skip_headers (suc (length rest)) rest)
  ]
]

parse_test :
    parse_connect (codes "connect a:443 HTTP/1.1\r\nHost: a\r\n\r\n\u{16}z")
    ≡ some (codes "a:443", codes "\u{16}z")
unfolding parse_connect fields trim_space read_line skip_headers
parse_test = refl

parse_errors :
    (parse_connect (codes "GET a:443 HTTP/1.1\r\n\r\n") ≡ none)
    × (parse_connect (codes "CONNECT a HTTP/1.1\r\n\r\n") ≡ none)
    × (parse_connect (codes "CONNECT a:443 HTTP/1.1\r\nHost: a\r\n") ≡ none)
unfolding parse_connect fields trim_space read_line skip_headers
parse_errors = (refl, refl, refl)
