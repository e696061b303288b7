-- ===== src/Protocol/Registration/Codes.antt =====
-- Accepted enrollment codes, and `decode_hex`, of relay-protocol/src/registration.rs.
use chat_x.Prelude.{
  ℕ, ◌*◌, ◌/◌, ◌%◌, ◌≤◌, ◌<◌, ◌≡◌, ◌≢◌, refl, ap, ◌∙◌, sym, ◌⊎◌, inl, inr, Bool, true, false, not,
  ◌||◌, Option, some, List, [], ◌∷◌, ◌++◌, Str, codes, str_eq, str_beq, str_beq_iff, ltb, nat_beq,
  length, All, all, arith, ok, err, Bool-cases, Result-cases, Option-cases,
}
use chat_x.Text.{
  is_ascii_hexdigit, is_ascii_alphanumeric, split, trim, to_ascii_lowercase, strip_prefix,
  starts_with, ends_with_byte,
}
use chat_x.Text.Hex.{
  to_hex, IsByte, from_pairs-hexdigits, from_pairs-to_hex, length-to_hex, hexdigits-to_hex,
}
use chat_x.Protocol.Registration.{
  RegistrationInvite, bad_format, decode_hex, code_prefix, signing_context, parse_code, parse_parts,
  bad_host, bad_label, bad_nonce, is_dash,
}
use chat_x.Protocol.Registration.Split.{join, join-split, strip_prefix_lem}

-- `decode_hex` returns the bytes that print, in lower case, as its input does, or refuses the
-- format, which it does just for an odd length or a character that is no hexadecimal digit: its
-- second error never comes.
pub decode_hex_total :
    (s : Str)
    → ((bs : Str) × (decode_hex s ≡ ok bs)
        × All IsByte bs
        × (length bs * 2 ≡ length s)
        × (to_hex bs ≡ to_ascii_lowercase s))
      ⊎ ((decode_hex s ≡ err bad_format) × ((length s % 2 ≡ 1) ⊎ (all is_ascii_hexdigit s ≡ false)))
unfolding decode_hex
decode_hex_total s = elim (Bool-cases (nat_beq (length s % 2) 0)) [
  | inl even ↦ elim (Bool-cases (all is_ascii_hexdigit s)) [
    | inl digits ↦
        let (bs, parsed, bytes, n, text) =
          from_pairs-hexdigits (length s / 2) s (ground arith) digits in
        inl (bs, rw (even, digits, parsed) refl, bytes, ground arith, text)
    | inr other ↦ inr (rw (even, other) refl, inr other)
  ]
  | inr odd ↦ inr (rw odd refl, inl (ground arith))
]

-- Bytes that are printed are read back.
pub decode_hex-to_hex : (bs : Str) → All IsByte bs → decode_hex (to_hex bs) ≡ ok bs
unfolding decode_hex
decode_hex-to_hex bs h =
    rw (hexdigits-to_hex bs h, from_pairs-to_hex bs h) (ground (arith, length-to_hex bs))

abbrev host_byte : ℕ → Bool
host_byte b = is_ascii_alphanumeric b || nat_beq b b'-'

-- A label of a host, told apart from the test of the code: 1 to 63 letters, digits and dashes, of which
-- neither the first nor the last is a dash.
pub record IsLabel (label : Str) : Type 0 where
  pub nonempty : 0 < length label
  pub short : length label ≤ 63
  pub plain : all host_byte label ≡ true
  pub no_dash_before : (rest : Str) → label ≢ b'-' ∷ rest
  pub no_dash_behind : (rest : Str) → label ≢ rest ++ b'-' ∷ []

-- The labels of a host, joined by dots.
pub record IsHost (host : Str) : Type 0 where
  pub short : length host ≤ 253
  pub nonempty : 0 < length host
  pub labels : List Str
  pub joined : host ≡ join b'.' labels
  pub every : All IsLabel labels

ends_with_byte-append : (b : ℕ) (s : Str) → ends_with_byte b (s ++ b ∷ []) ≡ true
unfolding ends_with_byte
ends_with_byte-append b [] = ground arith
ends_with_byte-append b (c ∷ []) = ends_with_byte-append b []
ends_with_byte-append b (c ∷ d ∷ s) = ends_with_byte-append b (d ∷ s)

starts_with-dash : (s : Str) → starts_with (codes "-") (b'-' ∷ s) ≡ true
unfolding starts_with
starts_with-dash s = ground arith

bad_label-IsLabel : (w : Str) → bad_label w ≡ false → IsLabel w
unfolding bad_label is_dash
bad_label-IsLabel w h = record {
  nonempty = ground arith;
  short = ground arith;
  plain = ground arith;
  no_dash_before = λ rest e. ground (arith, h, e, starts_with-dash rest);
  no_dash_behind = λ rest e. ground (arith, h, e, ends_with_byte-append b'-' rest);
}

every-IsLabel : (ws : List Str) → all (λ w. not (bad_label w)) ws ≡ true → All IsLabel ws
every-IsLabel [] h = tt
every-IsLabel (w ∷ ws) h = (bad_label-IsLabel w (ground arith), every-IsLabel ws (ground arith))

bad_host-IsHost : (host : Str) → bad_host host ≡ false → IsHost host
unfolding bad_host
bad_host-IsHost host h = record {
  short = ground arith;
  nonempty = ground arith;
  labels = split b'.' host;
  joined = sym (join-split b'.' host);
  every = every-IsLabel (split b'.' host) (ground arith);
}

-- What `parse_code` promises of the three values that it returns.
pub record IsParsed (from_json : Str → Option RegistrationInvite) (code : Str)
    (invite : RegistrationInvite) (signed raw : Str) : Type 0 where
  pub body : Str
  pub signature : Str
  pub host : Str
  pub bytes : Str
  pub text : trim code ≡ join b'.' (code_prefix ∷ body ∷ signature ∷ [])
  pub covers : signed ≡ signing_context ++ body
  pub signature_text : to_hex raw ≡ to_ascii_lowercase signature
  pub signature_length : length raw ≡ 32
  pub body_text : to_hex bytes ≡ to_ascii_lowercase body
  pub content : from_json bytes ≡ some invite
  pub origin : invite.base_url ≡ codes "https://" ++ host
  pub host_is_plain : IsHost host
  pub nonce_length : length invite.nonce ≡ 32
  pub nonce_digits : all is_ascii_hexdigit invite.nonce ≡ true

decode_hex-eq-ok :
    (s bs : Str)
    → decode_hex s ≡ ok bs
    → (to_hex bs ≡ to_ascii_lowercase s) × (length bs * 2 ≡ length s)
decode_hex-eq-ok s bs h = ground (arith, decode_hex_total s)

bad_nonce-eq_false :
    (n : Str) → bad_nonce n ≡ false → (length n ≡ 32) × (all is_ascii_hexdigit n ≡ true)
unfolding bad_nonce
bad_nonce-eq_false n h = ground arith

module _ (from_json : Str → Option RegistrationInvite) (invite : RegistrationInvite)
    (prefix body signature signed raw : Str) where
  parse_parts_steps :
      parse_parts from_json (prefix ∷ body ∷ signature ∷ []) ≡ ok (invite, signed, raw)
      → (bytes : Str) × (host : Str) × (str_beq prefix code_prefix ≡ true)
        × (length signature ≡ 64)
        × (decode_hex body ≡ ok bytes)
        × (from_json bytes ≡ some invite)
        × (strip_prefix (codes "https://") invite.base_url ≡ some host)
        × (bad_host host ≡ false)
        × (bad_nonce invite.nonce ≡ false)
        × (signed ≡ signing_context ++ body)
        × (decode_hex signature ≡ ok raw)
  unfolding parse_parts
  parse_parts_steps h = elim (Result-cases (decode_hex body)) [
    | inl (e, bad) ↦ absurd (ground arith)
    | inr (bytes, good) ↦ elim (Option-cases (strip_prefix (codes "https://") invite.base_url)) [
      | inl bad ↦ absurd (ground arith)
      | inr (host, origin) ↦ (
        bytes,
        host,
        ground arith,
        ground arith,
        good,
        ground arith,
        origin,
        ground arith,
        ground arith,
        ground arith,
        ground arith,
      )
    ]
  ]

parts_lem :
    (from_json : Str → Option RegistrationInvite) (code : Str) (parts : List Str)
    (invite : RegistrationInvite) (signed raw : Str)
    → trim code ≡ join b'.' parts
    → parse_parts from_json parts ≡ ok (invite, signed, raw)
    → IsParsed from_json code invite signed raw
unfolding parse_parts
parts_lem from_json code [] invite signed raw text h = cc
parts_lem from_json code (a ∷ []) invite signed raw text h = cc
parts_lem from_json code (a ∷ b ∷ []) invite signed raw text h = cc
parts_lem from_json code (prefix ∷ body ∷ signature ∷ []) invite signed raw text h =
    let (bytes, host, start, size, decoded, content, origin, address, nonce, covers, last) =
      parse_parts_steps from_json invite prefix body signature signed raw h in
    let (signature_text, double) = decode_hex-eq-ok signature raw last in
    record {
      body = body;
      signature = signature;
      host = host;
      bytes = bytes;
      text =
          text
          ∙ ap (λ p. join b'.' (p ∷ body ∷ signature ∷ []))
              ((str_beq_iff prefix code_prefix).0 start);
      covers = covers;
      signature_text = signature_text;
      signature_length = omega arith;
      body_text = (decode_hex-eq-ok body bytes decoded).0;
      content = content;
      origin = strip_prefix_lem (codes "https://") invite.base_url host origin;
      host_is_plain = bad_host-IsHost host address;
      nonce_length = (bad_nonce-eq_false invite.nonce nonce).0;
      nonce_digits = (bad_nonce-eq_false invite.nonce nonce).1;
    }
parts_lem from_json code (a ∷ b ∷ c ∷ d ∷ parts) invite signed raw text h = cc

-- A code that is accepted is, trimmed, `cxr1`, a body and a signature of 64 characters joined by
-- dots; the signed text is the signing context before that same body; the invitation is what the
-- body's bytes hold, its address `https://` before a host of at most 253 bytes, which is labels joined
-- by dots, each of 1 to 63 letters, digits and dashes with no dash at its start or end, and its nonce 32
-- hexadecimal digits.
pub parse_code_sound :
    (from_json : Str → Option RegistrationInvite) (code : Str) (invite : RegistrationInvite)
    (signed raw : Str)
    → parse_code from_json code ≡ ok (invite, signed, raw)
    → IsParsed from_json code invite signed raw
unfolding parse_code
parse_code_sound from_json code invite signed raw h =
    parts_lem from_json code (split b'.' (trim code)) invite signed raw
      (sym (join-split b'.' (trim code)))
      (elim (Bool-cases (ltb 2048 (length (trim code)))) [
        | inl long ↦ absurd (ground arith)
        | inr short ↦ ground arith
      ])
