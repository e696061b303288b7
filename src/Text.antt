-- ===== src/Text.antt =====
-- The methods of Rust's `str` and `u8` that the program calls, over the bytes of a text: tests and
-- prefixes, hexadecimal digits, `trim`, `split`, and `chars().take(n)`.
use chat_x.Prelude.{
  ℕ, zero, suc, ◌+◌, ◌-◌, ◌*◌, ◌/◌, ◌%◌, Bool, true, false, ◌&&◌, ◌||◌, Option, none, some, List,
  [], ◌∷◌, ◌++◌, Str, leb, ltb, nat_beq, if◌then◌else◌, length, drop, map, str_beq,
}
pub mod Hex
pub mod Utf8

-- `u8::is_ascii_hexdigit`, `u8::is_ascii_alphanumeric`, `u8::to_ascii_lowercase`.
unfoldable pub is_ascii_hexdigit : ℕ → Bool
is_ascii_hexdigit c =
    (leb b'0' c && leb c b'9') || ((leb b'a' c && leb c b'f') || (leb b'A' c && leb c b'F'))

unfoldable pub is_ascii_uppercase : ℕ → Bool
is_ascii_uppercase c = leb b'A' c && leb c b'Z'

unfoldable pub is_ascii_alphanumeric : ℕ → Bool
is_ascii_alphanumeric c =
    (leb b'0' c && leb c b'9') || ((leb b'a' c && leb c b'z') || (leb b'A' c && leb c b'Z'))

unfoldable pub to_lower : ℕ → ℕ
unfolding is_ascii_uppercase
to_lower c = if is_ascii_uppercase c then c + 32 else c

unfoldable pub to_ascii_lowercase : Str → Str
unfolding to_lower
to_ascii_lowercase = map to_lower

to_upper : ℕ → ℕ
to_upper c = if leb b'a' c && leb c b'z' then c - 32 else c

unfoldable pub to_ascii_uppercase : Str → Str
unfolding to_upper
to_ascii_uppercase = map to_upper

-- `str::eq_ignore_ascii_case`.
unfoldable pub eq_ignore_ascii_case : Str → Str → Bool
unfolding to_ascii_lowercase
eq_ignore_ascii_case s t = str_beq (to_ascii_lowercase s) (to_ascii_lowercase t)

-- `str::strip_prefix`; `starts_with` is its test.
unfoldable pub strip_prefix : Str → Str → Option Str
strip_prefix [] s = some s
strip_prefix (p ∷ ps) [] = none
strip_prefix (p ∷ ps) (c ∷ s) = if nat_beq p c then strip_prefix ps s else none

unfoldable pub starts_with : Str → Str → Bool
starts_with [] s = true
starts_with (p ∷ ps) [] = false
starts_with (p ∷ ps) (c ∷ s) = nat_beq p c && starts_with ps s

unfoldable pub ends_with_byte : ℕ → Str → Bool
ends_with_byte b [] = false
ends_with_byte b (c ∷ []) = nat_beq b c
ends_with_byte b (c ∷ d ∷ s) = ends_with_byte b (d ∷ s)

-- `str::split(c)` at an ASCII character: one part more than there are separators.
unfoldable pub attach : ℕ → List Str → List Str
attach c [] = (c ∷ []) ∷ []
attach c (w ∷ ws) = (c ∷ w) ∷ ws

unfoldable pub split : ℕ → Str → List Str
unfolding attach
split sep [] = [] ∷ []
split sep (c ∷ s) = let rest = split sep s in if nat_beq c sep then [] ∷ rest else attach c rest

-- A byte that continues a character of UTF-8.
is_continuation : ℕ → Bool
is_continuation b = leb 128 b && ltb b 192

-- `chars().take(n).collect()`.
unfoldable pub take_chars : ℕ → Str → Str
unfolding is_continuation
take_chars n [] = []
take_chars zero (b ∷ s) = let rest = take_chars zero s in if is_continuation b then b ∷ rest else []
take_chars (suc n) (b ∷ s) = b ∷ take_chars (if is_continuation b then suc n else n) s

-- The number of bytes of the white space character that a text begins with, or 0.
three_blank : ℕ → ℕ → ℕ → Bool
three_blank a b c =
    (nat_beq a 0xe1 && (nat_beq b 0x9a && nat_beq c 0x80))
    || ((nat_beq a 0xe2
          && (nat_beq b 0x80
              && ((leb 0x80 c && leb c 0x8a)
                  || (nat_beq c 0xa8 || (nat_beq c 0xa9 || nat_beq c 0xaf)))))
        || ((nat_beq a 0xe2 && (nat_beq b 0x81 && nat_beq c 0x9f))
            || (nat_beq a 0xe3 && (nat_beq b 0x80 && nat_beq c 0x80))))

unfoldable pub blank_width : Str → ℕ
unfolding three_blank
blank_width [] = 0
blank_width (a ∷ []) = if nat_beq a 32 || (leb 9 a && leb a 13) then 1 else 0
blank_width (a ∷ b ∷ []) =
    if nat_beq a 32 || (leb 9 a && leb a 13)
    then 1
    else if nat_beq a 0xc2 && (nat_beq b 0x85 || nat_beq b 0xa0)
    then 2
    else 0
blank_width (a ∷ b ∷ c ∷ s) =
    if nat_beq a 32 || (leb 9 a && leb a 13)
    then 1
    else if nat_beq a 0xc2 && (nat_beq b 0x85 || nat_beq b 0xa0)
    then 2
    else if three_blank a b c
    then 3
    else 0

trim_front : ℕ → Str → Str
unfolding blank_width
trim_front zero s = s
trim_front (suc fuel) s =
    let width = blank_width s in
    let rest = trim_front fuel (drop width s) in if nat_beq width 0 then s else rest

-- Every round drops a byte, so the length is fuel enough.
unfoldable pub trim_start : Str → Str
unfolding trim_front
trim_start s = trim_front (length s) s

is_empty : Str → Bool
is_empty [] = true
is_empty (c ∷ s) = false

unfoldable pub trim_end : Str → Str
unfolding trim_start is_empty
trim_end [] = []
trim_end (c ∷ s) = let rest = trim_end s in if is_empty (trim_start (c ∷ s)) then [] else c ∷ rest

-- `str::trim`.
unfoldable pub trim : Str → Str
unfolding trim_end
trim s = trim_end (trim_start s)
