-- ===== src/Text/Hex.antt =====
-- Hexadecimal digits: `format!("{byte:02x}")` over bytes, `u8::from_str_radix(_, 16)` of a chunk of
-- two bytes, and the round trips between them.
use chat_x.Prelude.{
  ℕ, ◌+◌, ◌-◌, ◌*◌, ◌/◌, ◌%◌, ◌<◌, ◌≡◌, refl, ap, ◌∙◌, zero, suc, true, false, Option, none, some,
  [], ◌∷◌, Str, leb, ltb, nat_beq, if◌then◌else◌, length, All, arith, all, &&-split,
}
use chat_x.Text.{is_ascii_hexdigit, to_lower, to_ascii_lowercase}

infixl 5 ◌>>=◌
abbrev ◌>>=◌ {ℓ κ} : {A : Type ℓ} {B : Type κ} → Option A → (A → Option B) → Option B
none >>= f = none
some a >>= f = f a

unfoldable pub hex_digit : ℕ → ℕ
hex_digit n = if ltb n 10 then n + 48 else n + 87

unfoldable pub to_hex : Str → Str
unfolding hex_digit
to_hex [] = []
to_hex (b ∷ bs) = hex_digit (b / 16) ∷ hex_digit (b % 16) ∷ to_hex bs

digit_value : ℕ → ℕ
digit_value c = if leb c b'9' then c - 48 else if leb c b'F' then c - 55 else c - 87

hex_value : ℕ → Option ℕ
unfolding is_ascii_hexdigit digit_value
hex_value c = if is_ascii_hexdigit c then some (digit_value c) else none

-- A leading `+` is a sign that `from_str_radix` skips.
unfoldable pub from_pair : ℕ → ℕ → Option ℕ
unfolding hex_value
from_pair a b =
    if nat_beq a b'+'
    then hex_value b
    else (do high ← hex_value a; low ← hex_value b; some (high * 16 + low))

-- `chunks_exact(2)`, each chunk parsed; a last odd byte is ignored.
unfoldable pub from_pairs : Str → Option Str
unfolding from_pair
from_pairs [] = some []
from_pairs (a ∷ []) = some []
from_pairs (a ∷ b ∷ s) = do byte ← from_pair a b; bytes ← from_pairs s; some (byte ∷ bytes)

abbrev pub IsByte : ℕ → Type 0
IsByte b = b < 256

pub from_pair-hex : (b : ℕ) → b < 256 → from_pair (hex_digit (b / 16)) (hex_digit (b % 16)) ≡ some b
unfolding from_pair hex_digit
from_pair-hex b h = ground arith

pub from_pairs-to_hex : (bs : Str) → All IsByte bs → from_pairs (to_hex bs) ≡ some bs
unfolding from_pairs to_hex
from_pairs-to_hex [] h = refl
from_pairs-to_hex (b ∷ bs) h = rw (from_pair-hex b h.0, from_pairs-to_hex bs h.1) refl

pub length-to_hex : (bs : Str) → length (to_hex bs) ≡ length bs * 2
unfolding to_hex
length-to_hex [] = omega arith
length-to_hex (b ∷ bs) = omega (arith, length-to_hex bs)

pub hexdigit-hex_digit : (n : ℕ) → n < 16 → is_ascii_hexdigit (hex_digit n) ≡ true
unfolding is_ascii_hexdigit hex_digit
hexdigit-hex_digit n h = ground arith

pub hexdigits-to_hex : (bs : Str) → All IsByte bs → all is_ascii_hexdigit (to_hex bs) ≡ true
unfolding to_hex
hexdigits-to_hex [] h = refl
hexdigits-to_hex (b ∷ bs) h =
    rw
      (
        hexdigit-hex_digit (b / 16) (omega arith),
        hexdigit-hex_digit (b % 16) (omega arith),
        hexdigits-to_hex bs h.1,
      )
      refl

hex_digit-digit_value :
    (c : ℕ)
    → is_ascii_hexdigit c ≡ true
    → (digit_value c < 16)
      × (hex_digit (digit_value c) ≡ to_lower c)
      × (nat_beq c b'+' ≡ false)
      × (hex_value c ≡ some (digit_value c))
unfolding hex_value hex_digit to_lower
hex_digit-digit_value c h = ground arith

-- Two digits are a byte, which prints as they do in lower case.
pub from_pair-hexdigits :
    (a b : ℕ)
    → is_ascii_hexdigit a ≡ true
    → is_ascii_hexdigit b ≡ true
    → (v : ℕ) × (from_pair a b ≡ some v)
      × (v < 256)
      × (hex_digit (v / 16) ≡ to_lower a)
      × (hex_digit (v % 16) ≡ to_lower b)
unfolding from_pair
from_pair-hexdigits a b ha hb =
    let (la, da, na, va) = hex_digit-digit_value a ha in
    let (lb, db, nb, vb) = hex_digit-digit_value b hb in
    (
      digit_value a * 16 + digit_value b,
      rw (na, va, vb) refl,
      omega arith,
      ap hex_digit (omega arith) ∙ da,
      ap hex_digit (omega arith) ∙ db,
    )

-- A text of digits and of even length is a list of bytes, which prints as it does in lower case.
pub from_pairs-hexdigits :
    (n : ℕ) (s : Str)
    → length s ≡ n * 2
    → all is_ascii_hexdigit s ≡ true
    → (bs : Str) × (from_pairs s ≡ some bs)
      × All IsByte bs
      × (length bs ≡ n)
      × (to_hex bs ≡ to_ascii_lowercase s)
unfolding from_pairs to_hex to_ascii_lowercase
from_pairs-hexdigits zero [] e h = ([], refl, tt, refl, refl)
from_pairs-hexdigits zero (a ∷ s) e h = absurd (omega arith)
from_pairs-hexdigits (suc n) [] e h = absurd (omega arith)
from_pairs-hexdigits (suc n) (a ∷ []) e h = absurd (omega arith)
from_pairs-hexdigits (suc n) (a ∷ b ∷ s) e h =
    let (ha, hs) = &&-split _ _ h in
    let (hb, ht) = &&-split _ _ hs in
    let (v, pv, lv, high, low) = from_pair-hexdigits a b ha hb in
    let (bs, ps, ls, len, text) = from_pairs-hexdigits n s (omega arith) ht in
    (v ∷ bs, rw (pv, ps) refl, (lv, ls), omega arith, cc)
