-- ===== src/Prelude/Words.antt =====
-- `u64` arithmetic that saturates.
use Prim.Native.Nat.{ℕ, ◌+◌, ◌-◌, ◌^◌}
use chat_x.Prelude.Tests.{ltb, if◌then◌else◌}

abbrev pub u64_max : ℕ
u64_max = 2 ^ 64 - 1

-- `a.saturating_add(b)`; `a.saturating_sub(b)` is `a - b` on ℕ.
abbrev pub saturating_add : ℕ → ℕ → ℕ
saturating_add a b = if ltb u64_max (a + b) then u64_max else a + b
