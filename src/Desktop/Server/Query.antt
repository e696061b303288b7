-- ===== src/Desktop/Server/Query.antt =====
-- src-tauri/src/monitor_server.rs, `parse_query` and `percent_decode`. A slice of a `str` that would cut a
-- character panics: `none`.

pub mod Encoded
use chat_x.Prelude.{
  ℕ, Bool, true, false, ◌&&◌, Option, none, some, List, [], ◌∷◌, Str, Dict, insert, str_eq, leb,
  ltb, nat_beq, if◌then◌else◌,
}
use chat_x.Text.{split}
use chat_x.Text.Hex.{from_pair}
use chat_x.Text.Utf8.{from_utf8_lossy}

infixl 5 ◌>>=◌
abbrev pub ◌>>=◌ {ℓ κ} : {A : Type ℓ} {B : Type κ} → Option A → (A → Option B) → Option B
none >>= f = none
some a >>= f = f a

-- Whether a text is cut inside a character if it is cut before these bytes.
cuts_character : Str → Bool
cuts_character [] = false
cuts_character (b ∷ s) = leb 0x80 b && ltb b 0xc0

plus_to_space : ℕ → ℕ
plus_to_space b = if nat_beq b b'+' then b' ' else b

push_byte : ℕ → Option Str → Option Str
push_byte b none = none
push_byte b (some s) = some (b ∷ s)

-- At a `%` with two bytes behind it: those bytes, what they decode to, and what decoding goes on to.
escape : ℕ → ℕ → Str → Option Str → Option Str → Option Str
unfolding cuts_character push_byte
escape h l s after_escape after_percent = if cuts_character s then none else elim (from_pair h l) [
  | some byte ↦ push_byte byte after_escape
  | none ↦ push_byte b'%' after_percent
]

-- The loop of `percent_decode`: the bytes that it pushes.
unfoldable pub decode_loop : Str → Option Str
unfolding escape plus_to_space push_byte
decode_loop [] = some []
decode_loop (b ∷ []) = some (plus_to_space b ∷ [])
decode_loop (b ∷ h ∷ []) = push_byte (plus_to_space b) (decode_loop (h ∷ []))
decode_loop (b ∷ h ∷ l ∷ s) =
    let after_escape = decode_loop s in
    let after_byte = decode_loop (h ∷ l ∷ s) in
    if nat_beq b b'%'
    then escape h l s after_escape after_byte
    else push_byte (plus_to_space b) after_byte

unfoldable pub percent_decode : Str → Option Str
percent_decode value = do bytes ← decode_loop value; some (from_utf8_lossy bytes)

-- `split_once(c)` at an ASCII character.
push_first : ℕ → Option (Str × Str) → Option (Str × Str)
push_first b none = none
push_first b (some (before, after)) = some (b ∷ before, after)

unfoldable pub split_once : ℕ → Str → Option (Str × Str)
unfolding push_first
split_once sep [] = none
split_once sep (b ∷ s) =
    let rest = split_once sep s in if nat_beq b sep then some ([], s) else push_first b rest

-- A part of the query with no `=` is skipped.
add_part : Option (Str × Str) → Dict Str Str → Option (Dict Str Str)
add_part none output = some output
add_part (some (key, value)) output = do
  k ← percent_decode key
  v ← percent_decode value
  some (insert k v output)

unfoldable pub parts_loop : Dict Str Str → List Str → Option (Dict Str Str)
unfolding add_part
parts_loop output [] = some output
parts_loop output (part ∷ parts) = do
  more ← add_part (split_once b'=' part) output
  parts_loop more parts

query_of : Option (Str × Str) → Option (Dict Str Str)
query_of none = some []
query_of (some (before, query)) = parts_loop [] (split b'&' query)

unfoldable pub parse_query : Str → Option (Dict Str Str)
unfolding query_of
parse_query uri = query_of (split_once b'?' uri)

-- `path.split('?').next().unwrap_or("")`
unfoldable pub route_of : Str → Str
route_of [] = []
route_of (b ∷ s) = let rest = route_of s in if nat_beq b b'?' then [] else b ∷ rest
