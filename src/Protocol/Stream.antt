-- ===== src/Protocol/Stream.antt =====
-- relay-protocol/src/mcp_stream.rs: binary frames of the MCP websocket, a byte for the kind, 16 raw
-- bytes of the request id, and the body.
use chat_x.Prelude.{
  ℕ, zero, suc, ◌+◌, ◌*◌, ◌≤◌, ◌≡◌, ap, ◌∙◌, true, not, ◌||◌, Option, none, some, [], ◌∷◌, ◌++◌,
  Str, ltb, nat_beq, if◌then◌else◌, length, take, drop, All, all, arith, take_append, drop_append,
  length-append, length-take, length-drop, take-append-drop,
}
use chat_x.Text.{is_ascii_hexdigit, to_ascii_lowercase}
use chat_x.Text.Hex.{
  to_hex, from_pairs, IsByte, from_pairs-hexdigits, from_pairs-to_hex, length-to_hex,
}

abbrev pub max_frame_body : ℕ
max_frame_body = 64 * 1024

abbrev pub max_request_bytes : ℕ
max_request_bytes = 64 * 1024 * 1024

abbrev pub max_response_bytes : ℕ
max_response_bytes = 128 * 1024 * 1024

abbrev pub max_inflight : ℕ
max_inflight = 64

pub data Kind : Type 0 where
  request_body response_body : Kind

kind_byte : Kind → ℕ
kind_byte request_body = 1
kind_byte response_body = 2

-- The header is built only if every pair of the id parses.
frame_of : Kind → Option Str → Str → Option Str
unfolding kind_byte
frame_of kind none body = none
frame_of kind (some raw) body = some (kind_byte kind ∷ raw ++ body)

unfoldable pub encode : Kind → Str → Str → Option Str
unfolding frame_of
encode kind request_id body =
    if not (nat_beq (length request_id) 32) || ltb max_frame_body (length body)
    then none
    else frame_of kind (from_pairs request_id) body

unfoldable pub decode : Str → Option (Kind × Str × Str)
decode [] = none
decode (k ∷ rest) =
    if ltb (length rest) 16 || ltb (16 + max_frame_body) (length rest)
    then none
    else if nat_beq k 1
    then some (request_body, to_hex (take 16 rest), drop 16 rest)
    else if nat_beq k 2
    then some (response_body, to_hex (take 16 rest), drop 16 rest)
    else none

decode_frame :
    (kind : Kind) (raw body : Str)
    → length raw ≡ 16
    → length body ≤ max_frame_body
    → decode (kind_byte kind ∷ raw ++ body) ≡ some (kind, to_hex raw, body)
unfolding decode kind_byte
decode_frame request_body raw body len fits = ground (
  arith,
  length-append raw body,
  ap (λ n. take n (raw ++ body)) len,
  ap (λ n. drop n (raw ++ body)) len,
  take_append raw body,
  drop_append raw body,
)
decode_frame response_body raw body len fits = ground (
  arith,
  length-append raw body,
  ap (λ n. take n (raw ++ body)) len,
  ap (λ n. drop n (raw ++ body)) len,
  take_append raw body,
  drop_append raw body,
)

-- An id of 32 hexadecimal digits and a body within the limit make a frame of 17 bytes more than the
-- body, which decodes to the kind, the id in lower case and the body.
pub decode-encode :
    (kind : Kind) (id body : Str)
    → length id ≡ 32
    → all is_ascii_hexdigit id ≡ true
    → length body ≤ max_frame_body
    → (frame : Str) × (encode kind id body ≡ some frame)
      × (length frame ≡ 17 + length body)
      × (decode frame ≡ some (kind, to_ascii_lowercase id, body))
unfolding encode
decode-encode kind id body len digits fits =
    let (raw, parsed, bytes, n, text) = from_pairs-hexdigits 16 id len digits in
    (
      kind_byte kind ∷ raw ++ body,
      rw parsed (ground arith),
      omega (arith, length-append raw body),
      decode_frame kind raw body n fits ∙ ap (λ s. some (kind, s, body)) text,
    )

All-take : (n : ℕ) (s : Str) → All IsByte s → All IsByte (take n s)
All-take zero s h = tt
All-take (suc n) [] h = tt
All-take (suc n) (c ∷ s) h = (h.0, All-take n s h.1)

encode_frame :
    (kind : Kind) (rest : Str)
    → All IsByte rest
    → 16 ≤ length rest
    → length rest ≤ 16 + max_frame_body
    → encode kind (to_hex (take 16 rest)) (drop 16 rest) ≡ some (kind_byte kind ∷ rest)
unfolding encode
encode_frame kind rest bytes long short =
    rw (from_pairs-to_hex (take 16 rest) (All-take 16 rest bytes), take-append-drop 16 rest)
      (ground (arith, length-to_hex (take 16 rest), length-take 16 rest, length-drop 16 rest))

-- A frame of bytes that decodes is the encoding of what it decodes to.
pub encode-decode :
    (frame : Str) (kind : Kind) (id body : Str)
    → All IsByte frame
    → decode frame ≡ some (kind, id, body)
    → encode kind id body ≡ some frame
unfolding decode kind_byte
encode-decode [] kind id body bytes h = cc
encode-decode (k ∷ rest) kind id body bytes h =
    ground (arith, encode_frame request_body rest bytes.1, encode_frame response_body rest bytes.1)
