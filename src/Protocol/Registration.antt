-- ===== src/Protocol/Registration.antt =====
-- relay-protocol/src/registration.rs: enrollment codes. The JSON text of an invitation is read by
-- serde_json, which is the parameter `from_json`.
mod Split
pub mod Codes
use chat_x.Prelude.{
  ℕ, ◌+◌, ◌*◌, ◌%◌, ◌≤◌, ◌≡◌, refl, ap, ◌∙◌, Bool, true, false, not, ◌&&◌, ◌||◌, Option, none, some,
  List, [], ◌∷◌, ◌++◌, Str, codes, ◌==◌, str_eq, str_beq, str_beq_iff, leb, ltb, nat_beq,
  if◌then◌else◌, length, All, all, arith, Result, ok, err, ◌>>=◌, ◌>>◌, fail_if, ok_or,
}
use chat_x.Text.{
  is_ascii_hexdigit, is_ascii_alphanumeric, strip_prefix, starts_with, ends_with_byte, split, trim,
  to_ascii_lowercase,
}
use chat_x.Text.Hex.{from_pairs, to_hex, IsByte, from_pairs-hexdigits}

abbrev pub code_prefix : Str
code_prefix = codes "cxr1"

abbrev pub signing_context : Str
signing_context = codes "chatx-registration-v1:"

abbrev pub max_invite_lifetime_ms : ℕ
max_invite_lifetime_ms = 10 * 60 * 1000

pub record RegistrationInvite : Type 0 where
  pub base_url : Str
  pub expires_at : ℕ
  pub nonce : Str

-- One constructor for each message of the source.
pub data CodeError : Type 0 where
  bad_format bad_encoding too_long bad_content not_https bad_address : CodeError

unfoldable pub decode_hex : Str → Result CodeError Str
decode_hex value = do
  fail_if (not (nat_beq (length value % 2) 0) || not (all is_ascii_hexdigit value)) bad_format
  ok_or (from_pairs value) bad_encoding

is_dash : ℕ → Bool
is_dash b = nat_beq b b'-'

bad_label : Str → Bool
unfolding is_dash
bad_label label =
    nat_beq (length label) 0
    || (ltb 63 (length label)
        || (starts_with (codes "-") label
            || (ends_with_byte b'-' label
                || not (all (λ b. is_ascii_alphanumeric b || is_dash b) label))))

bad_host : Str → Bool
unfolding bad_label
bad_host host =
    nat_beq (length host) 0
    || (ltb 253 (length host) || not (all (λ label. not (bad_label label)) (split b'.' host)))

bad_nonce : Str → Bool
bad_nonce nonce = not (nat_beq (length nonce) 32) || not (all is_ascii_hexdigit nonce)

module _ (from_json : Str → Option RegistrationInvite) where
  parse_parts : List Str → Result CodeError (RegistrationInvite × Str × Str)
  parse_parts (prefix ∷ body ∷ signature ∷ []) = do
    fail_if (not (prefix == code_prefix) || not (nat_beq (length signature) 64)) bad_format
    bytes ← decode_hex body
    invite ← ok_or (from_json bytes) bad_content
    host ← ok_or (strip_prefix (codes "https://") invite.base_url) not_https
    fail_if (bad_host host || bad_nonce invite.nonce) bad_address
    raw ← decode_hex signature
    ok (invite, signing_context ++ body, raw)
  parse_parts _ = err bad_format

  unfoldable pub parse_code : Str → Result CodeError (RegistrationInvite × Str × Str)
  unfolding decode_hex bad_host bad_nonce parse_parts
  parse_code code = do
    let code = trim code
    fail_if (ltb 2048 (length code)) too_long
    parse_parts (split b'.' code)
