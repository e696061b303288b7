-- ===== src/Prelude/Keys.antt =====
-- Keys of dictionaries: the interface of a decided equality, and its instances for byte strings
-- and for the pairs and triples of them that the relay's routes go by.
use Prim.Native.Nat.{ℕ}
use Prim.Native.Char.{code}
use Prim.Native.String.{String}
use mathlib.Core.Path.{◌≡◌}
use mathlib.Core.Logic.{◌↔◌}
use mathlib.Core.Bool.{Bool, true, false, ◌&&◌}
use mathlib.Core.List.{List, [], ◌∷◌}
use native.Mathlib.Omega.{arith}
use chat_x.Prelude.Tests.{nat_beq, nat_beq_iff}

pub record Eq {ℓ} (A : Type ℓ) : Type ℓ where
  pub is_equal : A → A → Bool
  pub is_equal_iff : (x y : A) → (is_equal x y ≡ true) ↔ (x ≡ y)

-- A Rust `str` or `[u8]`: its bytes, in UTF-8 where it is a text.
abbrev pub Str : Type 0
Str = List ℕ

-- An ASCII literal.
abbrev pub codes : String → Str
codes String.[] = []
codes (String.◌∷◌ c s) = code c ∷ codes s

infix 50 ◌==◌
abbrev pub ◌==◌ {ℓ} : {A : Type ℓ} ⦃e : Eq A⦄ → A → A → Bool
◌==◌ ⦃e⦄ = e.is_equal

unfoldable pub str_beq : Str → Str → Bool
str_beq [] [] = true
str_beq [] (b ∷ bs) = false
str_beq (a ∷ as') [] = false
str_beq (a ∷ as') (b ∷ bs) = nat_beq a b && str_beq as' bs

pub str_beq_iff : (a b : Str) → (str_beq a b ≡ true) ↔ (a ≡ b)
unfolding str_beq
str_beq_iff [] [] = ground arith
str_beq_iff [] (b ∷ bs) = ground arith
str_beq_iff (a ∷ as') [] = ground arith
str_beq_iff (a ∷ as') (b ∷ bs) = ground (arith, str_beq_iff as' bs)

instance abbrev pub nat_eq : Eq ℕ
nat_eq = record { is_equal = nat_beq; is_equal_iff = nat_beq_iff }

instance abbrev pub str_eq : Eq Str
str_eq = record { is_equal = str_beq; is_equal_iff = str_beq_iff }

-- `RouteKey` and `ControlRouteKey` of relay-server/src/main.rs.
abbrev pub RouteKey : Type 0
RouteKey = Str × Str

abbrev pub ControlRouteKey : Type 0
ControlRouteKey = Str × Str × Str

unfoldable pub pair_beq : RouteKey → RouteKey → Bool
pair_beq (a, b) (c, d) = str_beq a c && str_beq b d

pub pair_beq_iff : (p q : RouteKey) → (pair_beq p q ≡ true) ↔ (p ≡ q)
unfolding pair_beq
pair_beq_iff (a, b) (c, d) = ground (arith, str_beq_iff a c, str_beq_iff b d)

unfoldable pub triple_beq : ControlRouteKey → ControlRouteKey → Bool
triple_beq (a, b, c) (d, e, f) = str_beq a d && (str_beq b e && str_beq c f)

pub triple_beq_iff : (p q : ControlRouteKey) → (triple_beq p q ≡ true) ↔ (p ≡ q)
unfolding triple_beq
triple_beq_iff (a, b, c) (d, e, f) =
    ground (arith, str_beq_iff a d, str_beq_iff b e, str_beq_iff c f)

instance abbrev pub pair_eq : Eq RouteKey
pair_eq = record { is_equal = pair_beq; is_equal_iff = pair_beq_iff }

instance abbrev pub triple_eq : Eq ControlRouteKey
triple_eq = record { is_equal = triple_beq; is_equal_iff = triple_beq_iff }
