-- ===== src/Desktop/Server/Query/Encoded.antt =====
-- The query of an address that a phone builds from two ids, percent-encoded, as `parse_query` reads it.
use chat_x.Prelude.{
  ℕ, ◌/◌, ◌%◌, ◌<◌, ◌≡◌, refl, ap, Bool, true, false, ◌||◌, some, [], ◌∷◌, ◌++◌, Str, Dict, codes,
  insert, str_eq, nat_beq, if◌then◌else◌, all, All, arith, Bool-cases, inl, inr, not,
}
use chat_x.Text.{split, attach, is_ascii_alphanumeric}
use chat_x.Text.Hex.{hex_digit, from_pair-hex, IsByte}
use chat_x.Text.Utf8.{from_utf8_lossy}
use chat_x.Desktop.Server.Query.{
  decode_loop, percent_decode, split_once, parts_loop, parse_query, push_byte, cuts_character,
  push_first, query_of, add_part,
}

-- RFC 3986: the bytes that stand for themselves.
unfoldable pub is_unreserved : ℕ → Bool
unfolding is_ascii_alphanumeric
is_unreserved b =
    is_ascii_alphanumeric b
    || (nat_beq b b'-' || (nat_beq b b'.' || (nat_beq b b'_' || nat_beq b b'~')))

unfoldable pub percent_encode : Str → Str
unfolding is_unreserved
percent_encode [] = []
percent_encode (b ∷ s) =
    let rest = percent_encode s in
    if is_unreserved b then b ∷ rest else b'%' ∷ hex_digit (b / 16) ∷ hex_digit (b % 16) ∷ rest

-- A text of Rust: bytes that are UTF-8.
abbrev pub IsText : Str → Type 0
IsText s = All IsByte s × (from_utf8_lossy s ≡ s)

decode_loop-plain :
    (b : ℕ) (s : Str) → is_unreserved b ≡ true → decode_loop (b ∷ s) ≡ push_byte b (decode_loop s)
unfolding decode_loop is_unreserved
decode_loop-plain b [] h = ground arith
decode_loop-plain b (c ∷ []) h = ground arith
decode_loop-plain b (c ∷ d ∷ s) h = ground arith

percent_encode-whole : (s : Str) → cuts_character (percent_encode s) ≡ false
unfolding percent_encode cuts_character
percent_encode-whole [] = refl
percent_encode-whole (b ∷ s) = ground arith

decode_loop-escaped :
    (b : ℕ) (s t : Str)
    → b < 256
    → cuts_character s ≡ false
    → decode_loop s ≡ some t
    → decode_loop (b'%' ∷ hex_digit (b / 16) ∷ hex_digit (b % 16) ∷ s) ≡ some (b ∷ t)
unfolding decode_loop
decode_loop-escaped b s t small whole e = rw (whole, from_pair-hex b small, e) refl

decode_loop-encode : (s : Str) → All IsByte s → decode_loop (percent_encode s) ≡ some s
unfolding percent_encode
decode_loop-encode [] h = unfold decode_loop in refl
decode_loop-encode (b ∷ s) h = elim (Bool-cases (is_unreserved b)) [
  | inl plain ↦
      rw (plain, decode_loop-plain b (percent_encode s) plain, decode_loop-encode s h.1)
        (unfold push_byte in refl)
  | inr escaped ↦ rw escaped (
      decode_loop-escaped b (percent_encode s) s h.0 (percent_encode-whole s)
        (decode_loop-encode s h.1))
]

-- Decoding takes encoding back.
pub percent_decode-encode : (s : Str) → IsText s → percent_decode (percent_encode s) ≡ some s
unfolding percent_decode
percent_decode-encode s h = rw (decode_loop-encode s h.0, h.1) refl

is_encoded : ℕ → Bool
unfolding is_unreserved
is_encoded b = is_unreserved b || nat_beq b b'%'

abbrev lacks : ℕ → Str → Bool
lacks sep = all (λ b. not (nat_beq b sep))

hex_digit-alphanumeric : (n : ℕ) → n < 16 → is_ascii_alphanumeric (hex_digit n) ≡ true
unfolding is_ascii_alphanumeric hex_digit
hex_digit-alphanumeric n h = ground arith

hex_digit-encoded : (n : ℕ) → n < 16 → is_encoded (hex_digit n) ≡ true
unfolding is_encoded is_unreserved
hex_digit-encoded n h = rw (hex_digit-alphanumeric n h) refl

unreserved-encoded : (b : ℕ) → is_unreserved b ≡ true → is_encoded b ≡ true
unfolding is_encoded
unreserved-encoded b h = rw h refl

percent-encoded : is_encoded b'%' ≡ true
unfolding is_encoded is_unreserved is_ascii_alphanumeric
percent-encoded = refl

percent_encode-encoded : (s : Str) → All IsByte s → all is_encoded (percent_encode s) ≡ true
unfolding percent_encode
percent_encode-encoded [] h = refl
percent_encode-encoded (b ∷ s) h = elim (Bool-cases (is_unreserved b)) [
  | inl plain ↦ rw (plain, unreserved-encoded b plain, percent_encode-encoded s h.1) refl
  | inr escaped ↦
      rw
        (
          escaped,
          percent-encoded,
          hex_digit-encoded (b / 16) (omega arith),
          hex_digit-encoded (b % 16) (omega arith),
          percent_encode-encoded s h.1,
        )
        refl
]

lacks-encoded :
    (sep : ℕ) (s : Str) → is_encoded sep ≡ false → all is_encoded s ≡ true → lacks sep s ≡ true
lacks-encoded sep [] out h = refl
lacks-encoded sep (b ∷ s) out h =
    ground (arith, lacks-encoded sep s out, ap is_encoded {x = b} {y = sep})

split_once-lacks :
    (sep : ℕ) (w s : Str) → lacks sep w ≡ true → split_once sep (w ++ sep ∷ s) ≡ some (w, s)
unfolding split_once push_first
split_once-lacks sep [] s h = ground arith
split_once-lacks sep (b ∷ w) s h = ground (arith, split_once-lacks sep w s)

split-lacks : (sep : ℕ) (w : Str) → lacks sep w ≡ true → split sep w ≡ w ∷ []
unfolding split attach
split-lacks sep [] h = refl
split-lacks sep (b ∷ w) h = ground (arith, split-lacks sep w)

split-first :
    (sep : ℕ) (w s : Str) → lacks sep w ≡ true → split sep (w ++ sep ∷ s) ≡ w ∷ split sep s
unfolding split attach
split-first sep [] s h = ground arith
split-first sep (b ∷ w) s h = ground (arith, split-first sep w s)

lacks-percent_encode :
    (sep : ℕ) (s : Str)
    → is_encoded sep ≡ false
    → All IsByte s
    → lacks sep (percent_encode s) ≡ true
lacks-percent_encode sep s out h =
    lacks-encoded sep (percent_encode s) out (percent_encode-encoded s h)

-- `name=value` with an encoded value.
abbrev parameter : Str → Str → Str
parameter name value = name ++ b'=' ∷ percent_encode value

add_part-parameter :
    (name value : Str) (output : Dict Str Str)
    → lacks b'=' name ≡ true
    → percent_decode name ≡ some name
    → IsText value
    → add_part (split_once b'=' (parameter name value)) output ≡ some (insert name value output)
unfolding add_part
add_part-parameter name value output clean same h =
    rw
      (split_once-lacks b'=' name (percent_encode value) clean, same, percent_decode-encode value h)
      refl

-- The address that a phone asks for, of a route and two ids.
unfoldable pub address_of : Str → Str → Str → Str
address_of route desktop_id device_id =
    route
    ++ (b'?'
        ∷ (parameter (codes "desktopId") desktop_id
            ++ (b'&' ∷ parameter (codes "deviceId") device_id)))

lacks-append :
    (sep : ℕ) (s t : Str) → lacks sep s ≡ true → lacks sep t ≡ true → lacks sep (s ++ t) ≡ true
lacks-append sep [] t h k = k
lacks-append sep (b ∷ s) t h k = ground (arith, lacks-append sep s t)

ampersand-encoded : is_encoded b'&' ≡ false
unfolding is_encoded is_unreserved is_ascii_alphanumeric
ampersand-encoded = refl

lacks-parameter :
    (name value : Str)
    → lacks b'&' name ≡ true
    → All IsByte value
    → lacks b'&' (parameter name value) ≡ true
lacks-parameter name value clean h =
    lacks-append b'&' name (b'=' ∷ percent_encode value) clean
      (lacks-percent_encode b'&' value ampersand-encoded h)

desktop_id-same : percent_decode (codes "desktopId") ≡ some (codes "desktopId")
unfolding percent_decode decode_loop from_utf8_lossy
desktop_id-same = refl

device_id-same : percent_decode (codes "deviceId") ≡ some (codes "deviceId")
unfolding percent_decode decode_loop from_utf8_lossy
device_id-same = refl

-- Whatever two texts the ids are, the query of the address that is made of them reads as them.
pub parse_query-address_of :
    (route desktop_id device_id : Str)
    → lacks b'?' route ≡ true
    → IsText desktop_id
    → IsText device_id
    → parse_query (address_of route desktop_id device_id)
      ≡ some (insert (codes "deviceId") device_id (insert (codes "desktopId") desktop_id []))
unfolding parse_query query_of address_of parts_loop
parse_query-address_of route desktop_id device_id clean hd hv =
    rw
      (
        split_once-lacks b'?' route
            (parameter (codes "desktopId") desktop_id
              ++ b'&' ∷ parameter (codes "deviceId") device_id)
            clean,
        split-first b'&' (parameter (codes "desktopId") desktop_id)
            (parameter (codes "deviceId") device_id)
            (lacks-parameter (codes "desktopId") desktop_id refl hd.0),
        split-lacks b'&' (parameter (codes "deviceId") device_id)
            (lacks-parameter (codes "deviceId") device_id refl hv.0),
        add_part-parameter (codes "desktopId") desktop_id [] refl desktop_id-same hd,
        add_part-parameter (codes "deviceId") device_id (insert (codes "desktopId") desktop_id [])
            refl device_id-same hv,
      )
      refl
