-- ===== src/Desktop/Server/Http.antt =====
-- src-tauri/src/monitor_server.rs, `read_http_request_head`: the loop that reads a request's head, and what
-- is read out of it.
pub mod Limits
use chat_x.Prelude.{
  ℕ, zero, suc, ◌-◌, ◌+◌, ◌*◌, Bool, true, false, ◌&&◌, ◌||◌, not, Option, none, some, List, [],
  ◌∷◌, ◌++◌, Str, codes, ◌==◌, str_eq, leb, ltb, nat_beq, if◌then◌else◌, length, map, Result, ok,
  err, is_some,
}
use chat_x.Text.{
  strip_prefix, trim, blank_width, trim_start, attach, to_ascii_uppercase, eq_ignore_ascii_case,
}
use chat_x.Text.Utf8.{from_utf8_lossy}
use chat_x.Desktop.Server.Query.{split_once}

abbrev pub max_http_header_bytes : ℕ
max_http_header_bytes = 16 * 1024

abbrev pub hello_timeout_ms : ℕ
hello_timeout_ms = 5_000

pub record HttpRequestHead : Type 0 where
  pub method : Str
  pub path : Str
  pub bearer_token : Option Str
  pub websocket_upgrade : Bool

pub data HeadError : Type 0 where
  too_large timed_out closed failed bad_line : HeadError

-- What `stream.read` returns: bytes, of which there are none at the stream's end, a time-out of the
-- socket, or another error.
pub data Reading : Type 0 where
  bytes : Str → Reading
  waits broken : Reading

-- The bytes up to `\r\n\r\n`, which is included.
push_front : ℕ → Option Str → Option Str
push_front b none = none
push_front b (some s) = some (b ∷ s)

unfoldable pub header_of : Str → Option Str
unfolding push_front
header_of [] = none
header_of (a ∷ s) =
    let rest = header_of s in
    elim (strip_prefix (13 ∷ 10 ∷ 13 ∷ 10 ∷ []) (a ∷ s)) [
      | some _ ↦ some (13 ∷ 10 ∷ 13 ∷ 10 ∷ [])
      | none ↦ push_front a rest
    ]

took : Str → Reading → Result HeadError Str
took s (bytes []) = err closed
took s (bytes (b ∷ more)) = ok (s ++ b ∷ more)
took s waits = ok s
took s broken = err failed

-- Each reading has the time since the start at which the loop tests the clock before it. `none`: the
-- readings end while the loop still waits.
unfoldable pub read_loop : Str → List (ℕ × Reading) → Option (Result HeadError Str)
unfolding took
read_loop s [] =
    if is_some (header_of s)
    then some (ok s)
    else if leb max_http_header_bytes (length s)
    then some (err too_large)
    else none
read_loop s ((elapsed, reading) ∷ readings) =
    let rest = λ (t : Str). read_loop t readings in
    if is_some (header_of s)
    then some (ok s)
    else if leb max_http_header_bytes (length s)
    then some (err too_large)
    else if ltb hello_timeout_ms elapsed
    then some (err timed_out)
    else elim (took s reading) [ ok t ↦ rest t | err e ↦ some (err e) ]

-- `split("\r\n")`.
unfoldable pub split_crlf : Str → List Str
split_crlf [] = [] ∷ []
split_crlf (a ∷ []) = (a ∷ []) ∷ []
split_crlf (a ∷ b ∷ s) =
    let after = split_crlf s in
    let later = split_crlf (b ∷ s) in
    if nat_beq a 13 && nat_beq b 10 then [] ∷ after else attach a later

-- The first word, and what is behind it: `split_whitespace` gives the words one by one.
take_word : Str → Str
take_word [] = []
take_word (c ∷ s) =
    let rest = take_word s in if nat_beq (blank_width (c ∷ s)) 0 then c ∷ rest else []

drop_word : Str → Str
drop_word [] = []
drop_word (c ∷ s) =
    let rest = drop_word s in if nat_beq (blank_width (c ∷ s)) 0 then rest else c ∷ s

unfoldable pub first_words : Str → Str × Str
unfolding take_word drop_word
first_words line =
    let behind = drop_word (trim_start line) in
    (take_word (trim_start line), take_word (trim_start behind))

-- `strip_prefix("Bearer ")`, `trim` and the filter.
filled : Str → Option Str
filled [] = none
filled (b ∷ s) = some (b ∷ s)

unfoldable pub bearer_of : Option Str → Option Str
unfolding filled
bearer_of none = none
bearer_of (some token) = filled (trim token)

set_header : Str → Str → HttpRequestHead → HttpRequestHead
set_header name value head =
    if eq_ignore_ascii_case name (codes "authorization")
    then record head { bearer_token = bearer_of (strip_prefix (codes "Bearer ") value) }
    else if eq_ignore_ascii_case name (codes "upgrade")
        && eq_ignore_ascii_case value (codes "websocket")
    then record head { websocket_upgrade = true }
    else head

add_line : Option (Str × Str) → HttpRequestHead → HttpRequestHead
unfolding set_header bearer_of
add_line none head = head
add_line (some (name, value)) head = set_header (trim name) (trim value) head

unfoldable pub headers_loop : HttpRequestHead → List Str → HttpRequestHead
unfolding add_line
headers_loop head [] = head
headers_loop head (line ∷ lines) = headers_loop (add_line (split_once b':' line) head) lines

request_of : Str × Str → List Str → Result HeadError HttpRequestHead
unfolding headers_loop
request_of ([], path) lines = err bad_line
request_of (method, []) lines = err bad_line
request_of (m ∷ method, p ∷ path) lines = ok (
    headers_loop
      (record {
        method = to_ascii_uppercase (m ∷ method);
        path = p ∷ path;
        bearer_token = none;
        websocket_upgrade = false;
      })
      lines)

head_of_lines : List Str → Result HeadError HttpRequestHead
unfolding request_of
head_of_lines [] = err bad_line
head_of_lines (request_line ∷ lines) = request_of (first_words request_line) lines

-- What is made of the bytes that were read, up to the head's end.
parse_head : Option Str → Result HeadError HttpRequestHead
unfolding head_of_lines
parse_head none = err bad_line
parse_head (some header) = head_of_lines (split_crlf (from_utf8_lossy header))

with_head : Str → Result HeadError HttpRequestHead → Result HeadError (Str × HttpRequestHead)
with_head s (ok head) = ok (s, head)
with_head s (err e) = err e

unfoldable pub read_http_request_head :
    List (ℕ × Reading) → Option (Result HeadError (Str × HttpRequestHead))
unfolding read_loop parse_head with_head
read_http_request_head readings = elim (read_loop [] readings) [
  | none ↦ none
  | some (err e) ↦ some (err e)
  | some (ok s) ↦ some (with_head s (parse_head (header_of s)))
]
