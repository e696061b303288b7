-- ===== src/Tests/Wire.antt =====
-- Frames, enrollment codes and the desktop's own switches.
use chat_x.Prelude.{
  ltb, ◌≡◌, refl, some, true, false, Bool, Str, codes, ok, [], ◌∷◌, ◌++◌, All, arith, all, length,
  str_beq,
}
use chat_x.Text.{
  is_ascii_hexdigit, to_ascii_lowercase, trim, split, strip_prefix, starts_with, ends_with_byte,
  is_ascii_alphanumeric,
}
use chat_x.Text.Hex.{IsByte, to_hex, from_pairs}
use chat_x.Protocol.Stream.{
  encode, decode, request_body, response_body, decode-encode, encode-decode,
}
use chat_x.Protocol.Registration.{parse_code, signing_context}
use chat_x.Protocol.Registration.Codes.{IsParsed, parse_code_sound}
use chat_x.Desktop.Intent.{done}
use chat_x.Desktop.Coordinator.{Connections, DiskFaults}
use chat_x.Tests.Fixtures.{request_id, platform, code, invite}

id_digits : all is_ascii_hexdigit request_id ≡ true
unfolding is_ascii_hexdigit
id_digits = refl

decode-encode_example :
    (frame : Str) × (encode response_body request_id (codes "ab") ≡ some frame)
    × (length frame ≡ 19)
    × (decode frame ≡ some (response_body, to_ascii_lowercase request_id, codes "ab"))
decode-encode_example =
    decode-encode response_body request_id (codes "ab") refl id_digits (omega arith)

abbrev frame : Str
frame = 1 ∷ codes "0123456789abcdefbody"

all-IsByte : (s : Str) → all (λ b. ltb b 256) s ≡ true → All IsByte s
all-IsByte [] h = tt
all-IsByte (b ∷ s) h = ground (arith, all-IsByte s)

frame_decodes : decode frame ≡ some (request_body, to_hex (codes "0123456789abcdef"), codes "body")
unfolding decode
frame_decodes = refl

encode-decode_example :
    encode request_body (to_hex (codes "0123456789abcdef")) (codes "body") ≡ some frame
encode-decode_example =
    encode-decode frame request_body (to_hex (codes "0123456789abcdef")) (codes "body")
      (all-IsByte frame refl) frame_decodes

abbrev raw_signature : Str
raw_signature =
    0x00 ∷ 0x11 ∷ 0x22 ∷ 0x33 ∷ 0x44 ∷ 0x55 ∷ 0x66 ∷ 0x77 ∷ 0x88 ∷ 0x99 ∷ 0xaa ∷ 0xbb ∷ 0xcc ∷ 0xdd
    ∷ 0xee ∷ 0xff ∷ 0x00 ∷ 0x11 ∷ 0x22 ∷ 0x33 ∷ 0x44 ∷ 0x55 ∷ 0x66 ∷ 0x77 ∷ 0x88 ∷ 0x99 ∷ 0xaa
    ∷ 0xbb ∷ 0xcc ∷ 0xdd ∷ 0xee ∷ 0xff ∷ []

code_parses :
    parse_code platform.invite_from_json code
    ≡ ok (invite, signing_context ++ codes "7b7d", raw_signature)
unfolding parse_code trim split str_beq is_ascii_hexdigit from_pairs strip_prefix starts_with
    ends_with_byte is_ascii_alphanumeric
code_parses = refl

parse_code_sound_example :
    IsParsed platform.invite_from_json code invite (signing_context ++ codes "7b7d") raw_signature
parse_code_sound_example =
    parse_code_sound platform.invite_from_json code invite (signing_context ++ codes "7b7d")
      raw_signature code_parses

-- The transports' state is whether they run.
abbrev running : Connections Bool
running = record {
  markers = record { tunnel_marked = false; https_marked = false };
  connection_intent = true;
  https_enabled = true;
  workers = true;
  tray_stop_error = true;
}

abbrev disk : Bool → DiskFaults
disk saved = record { marking = λ mode. done; saved = saved }
