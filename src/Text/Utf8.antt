-- ===== src/Text/Utf8.antt =====
-- `String::from_utf8_lossy` of Rust: every maximal part that is not UTF-8 becomes U+FFFD. The widths and
-- ranges are those of the standard library's decoder.
use chat_x.Prelude.{
  ℕ, zero, suc, ◌≡◌, refl, Bool, true, false, ◌&&◌, [], ◌∷◌, ◌++◌, Str, leb, ltb, nat_beq,
  if◌then◌else◌, length, take, drop, all, arith,
}

abbrev within : ℕ → ℕ → ℕ → Bool
within low high b = leb low b && leb b high

abbrev replacement : Str
replacement = 0xef ∷ 0xbf ∷ 0xbd ∷ []

-- Whether `second` may follow the first byte of a character of three or four bytes.
second_of_three : ℕ → ℕ → Bool
second_of_three first second =
    if nat_beq first 0xe0
    then within 0xa0 0xbf second
    else if nat_beq first 0xed
    then within 0x80 0x9f second
    else within 0x80 0xbf second

second_of_four : ℕ → ℕ → Bool
second_of_four first second =
    if nat_beq first 0xf0
    then within 0x90 0xbf second
    else if nat_beq first 0xf4
    then within 0x80 0x8f second
    else within 0x80 0xbf second

-- The length of a character's first part that is well formed, from its second byte on, and whether it is
-- whole: of `n` bytes that continue it.
continued : ℕ → ℕ → Str → ℕ × Bool
continued zero width s = (width, true)
continued (suc n) width [] = (width, false)
continued (suc n) width (b ∷ s) =
    let rest = continued n (suc width) s in if within 0x80 0xbf b then rest else (width, false)

after_second : Bool → ℕ → Str → ℕ × Bool
unfolding continued
after_second fits n s = if fits then continued n 2 s else (1, false)

-- The bytes of the first character, and whether they are one.
first_char : Str → ℕ × Bool
unfolding after_second second_of_three second_of_four continued
first_char [] = (1, false)
first_char (a ∷ []) = (1, ltb a 0x80)
first_char (a ∷ b ∷ s) =
    if ltb a 0x80
    then (1, true)
    else if within 0xc2 0xdf a
    then after_second (within 0x80 0xbf b) 0 s
    else if within 0xe0 0xef a
    then after_second (second_of_three a b) 1 s
    else if within 0xf0 0xf4 a
    then after_second (second_of_four a b) 2 s
    else (1, false)

lossy_loop : ℕ → Str → Str
unfolding first_char
lossy_loop zero s = []
lossy_loop (suc fuel) [] = []
lossy_loop (suc fuel) (b ∷ s) =
    let first = first_char (b ∷ s) in
    let rest = lossy_loop fuel (drop first.0 (b ∷ s)) in
    (if first.1 then take first.0 (b ∷ s) else replacement) ++ rest

-- A round takes a byte at least, so the length is fuel enough.
unfoldable pub from_utf8_lossy : Str → Str
unfolding lossy_loop
from_utf8_lossy s = lossy_loop (length s) s

lossy_loop-ascii : (s : Str) → all (λ b. ltb b 0x80) s ≡ true → lossy_loop (length s) s ≡ s
unfolding lossy_loop first_char
lossy_loop-ascii [] h = refl
lossy_loop-ascii (a ∷ []) h = ground arith
lossy_loop-ascii (a ∷ b ∷ s) h = ground (arith, lossy_loop-ascii (b ∷ s))

-- ASCII is left as it is.
pub from_utf8_lossy-ascii : (s : Str) → all (λ b. ltb b 0x80) s ≡ true → from_utf8_lossy s ≡ s
unfolding from_utf8_lossy
from_utf8_lossy-ascii = lossy_loop-ascii
