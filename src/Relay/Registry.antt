-- ===== src/Relay/Registry.antt =====
-- relay-server/src/registry.rs: the durable records of desktops and devices, and token hashes. The
-- digest (ring's SHA-256) is the parameter `digest`; `Files` is the part that reads and writes.
pub mod Files
use Prim.Native.Nat.{bit_or, bit_xor}
use chat_x.Prelude.{
  ℕ, zero, suc, ◌≡◌, refl, ap, ◌↔◌, Bool, true, false, not, List, [], ◌∷◌, Str, Dict, nat_beq,
  if◌then◌else◌, length, arith, Bool-cases, inl, inr,
}
use chat_x.Prelude.Bits.{bit_or-eq_zero, bit_xor-eq_zero, bit_xor_self, bit_or_zero}
use chat_x.Text.Hex.{to_hex}

pub record DeviceRecord : Type 0 where
  pub token_hash : Str
  pub created_at : ℕ

pub record DesktopRecord : Type 0 where
  pub token_hash : Str
  pub device_name : Str
  pub app_version : Str
  pub platform : Str
  pub created_at : ℕ
  pub devices : Dict Str DeviceRecord

pub record Registry : Type 0 where
  pub desktops : Dict Str DesktopRecord
  pub used_registration_invites : Dict Str ℕ

-- `Registry::default()`.
abbrev pub empty : Registry
empty = record { desktops = []; used_registration_invites = [] }

-- The loop over the zipped bytes.
diff_loop : ℕ → Str → Str → ℕ
diff_loop diff [] right = diff
diff_loop diff (a ∷ left) [] = diff
diff_loop diff (a ∷ left) (b ∷ right) = diff_loop (bit_or diff (bit_xor a b)) left right

unfoldable pub constant_time_hex_eq : Str → Str → Bool
unfolding diff_loop
constant_time_hex_eq left right =
    if not (nat_beq (length left) (length right)) then false else nat_beq (diff_loop 0 left right) 0

diff_loop-eq_zero :
    (diff : ℕ) (left right : Str)
    → length left ≡ length right
    → diff_loop diff left right ≡ 0
    → (diff ≡ 0) × (left ≡ right)
unfolding diff_loop
diff_loop-eq_zero diff [] [] n h = (h, refl)
diff_loop-eq_zero diff [] (b ∷ right) n h = absurd (omega arith)
diff_loop-eq_zero diff (a ∷ left) [] n h = absurd (omega arith)
diff_loop-eq_zero diff (a ∷ left) (b ∷ right) n h =
    let (low, rest) = diff_loop-eq_zero (bit_or diff (bit_xor a b)) left right (omega arith) h in
    let (clear, same) = bit_or-eq_zero diff (bit_xor a b) low in
    (clear, cc (bit_xor-eq_zero a b same))

diff_loop_self : (s : Str) → diff_loop 0 s s ≡ 0
unfolding diff_loop
diff_loop_self [] = refl
diff_loop_self (a ∷ s) = rw (bit_xor_self a, bit_or_zero) (diff_loop_self s)

-- The comparison without early exit decides equality.
pub constant_time_hex_eq_iff :
    (left right : Str) → (constant_time_hex_eq left right ≡ true) ↔ (left ≡ right)
unfolding constant_time_hex_eq
constant_time_hex_eq_iff left right = (
  λ h. (diff_loop-eq_zero 0 left right (ground arith) (ground arith)).1,
  λ e. rw e (ground (arith, diff_loop_self right)),
)

module _ (digest : Str → Str) where
  unfoldable pub token_hash : Str → Str
  token_hash token = to_hex (digest token)

  unfoldable pub hash_matches : Str → Str → Bool
  hash_matches token expected_hex = constant_time_hex_eq (token_hash token) expected_hex

  -- A token matches exactly its own hash.
  pub hash_matches_iff :
      (token expected : Str) → (hash_matches token expected ≡ true) ↔ (token_hash token ≡ expected)
  unfolding hash_matches
  hash_matches_iff token expected = constant_time_hex_eq_iff (token_hash token) expected
