-- ===== src/Prelude/Dicts.antt =====
-- `HashMap` as an association list: lookups, the operations that the program calls, and their laws
-- in conditional form. The order of entries stands for the map's unspecified order of iteration.
use Prim.Native.Nat.{◌+◌, ◌≤◌}
use mathlib.Core.Path.{◌≡◌, ap}
use mathlib.Core.Bool.{Bool, true}
use mathlib.Core.Option.{Option, none, some}
use mathlib.Core.List.{List, [], ◌∷◌}
use native.Mathlib.Omega.{arith}
use chat_x.Prelude.Tests.{if◌then◌else◌, is_some}
use chat_x.Prelude.Lists.{length}
use chat_x.Prelude.Keys.{Eq, ◌==◌}

abbrev pub Dict {ℓ κ} : Type ℓ → Type κ → Type (ℓ ⊔ κ)
Dict K V = List (K × V)

module _ {ℓ κ} {K : Type ℓ} {V : Type κ} ⦃e : Eq K⦄ where
  unfoldable pub get : K → Dict K V → Option V
  get k [] = none
  get k ((j, v) ∷ m) = if j == k then some v else get k m

  unfoldable pub remove : K → Dict K V → Dict K V
  remove k [] = []
  remove k ((j, v) ∷ m) = let rest = remove k m in if j == k then rest else (j, v) ∷ rest

  unfoldable pub insert : K → V → Dict K V → Dict K V
  unfolding remove
  insert k v m = (k, v) ∷ remove k m

  abbrev pub contains_key : K → Dict K V → Bool
  contains_key k m = is_some (get k m)

  pub get-remove :
      (k j : K) (m : Dict K V) → get j (remove k m) ≡ (if k == j then none else get j m)
  unfolding get remove
  get-remove k j [] = ground arith
  get-remove k j ((i, v) ∷ m) =
      ground (arith, get-remove k j m, e.is_equal_iff i k, e.is_equal_iff i j, e.is_equal_iff k j)

  pub get-insert :
      (k j : K) (v : V) (m : Dict K V) → get j (insert k v m) ≡ (if k == j then some v else get j m)
  unfolding get insert
  get-insert k j v m = ground (arith, get-remove k j m)

  pub length-remove : (k : K) (m : Dict K V) → length (remove k m) ≤ length m
  unfolding remove
  length-remove k [] = omega arith
  length-remove k ((j, v) ∷ m) = ground (arith, length-remove k m)

  pub length-insert : (k : K) (v : V) (m : Dict K V) → length (insert k v m) ≤ length m + 1
  unfolding insert
  length-insert k v m = omega (arith, length-remove k m)

  length-remove_present :
      (k : K) (v : V) (m : Dict K V) → get k m ≡ some v → length (remove k m) + 1 ≤ length m
  unfolding get remove
  length-remove_present k v [] h = cc
  length-remove_present k v ((j, w) ∷ m) h =
      ground (arith, length-remove k m, length-remove_present k v m)

  -- A key that is there keeps its place.
  pub length-insert_present :
      (k : K) (v w : V) (m : Dict K V) → get k m ≡ some v → length (insert k w m) ≤ length m
  unfolding insert
  length-insert_present k v w m h = omega (arith, length-remove_present k v m h)

module _ {ℓ κ} {K : Type ℓ} {V : Type κ} where
  unfoldable pub retain : (K → V → Bool) → Dict K V → Dict K V
  retain keep [] = []
  retain keep ((k, v) ∷ m) = let rest = retain keep m in if keep k v then (k, v) ∷ rest else rest

  pub length-retain : (keep : K → V → Bool) (m : Dict K V) → length (retain keep m) ≤ length m
  unfolding retain
  length-retain keep [] = omega arith
  length-retain keep ((k, v) ∷ m) = ground (arith, length-retain keep m)

module _ {ℓ κ} {K : Type ℓ} {V : Type κ} ⦃e : Eq K⦄ (keep : K → V → Bool) where
  -- What `retain` keeps is found as before, and it adds no key.
  pub get-retain_kept :
      (k : K) (v : V) (m : Dict K V)
      → get k m ≡ some v
      → keep k v ≡ true
      → get k (retain keep m) ≡ some v
  unfolding get retain
  get-retain_kept k v [] h p = h
  get-retain_kept k v ((j, w) ∷ m) h p =
      ground (arith, e.is_equal_iff j k, get-retain_kept k v m, ap (λ i. keep i v) {x = j} {y = k})

  pub get-retain_absent : (k : K) (m : Dict K V) → get k m ≡ none → get k (retain keep m) ≡ none
  unfolding get retain
  get-retain_absent k [] h = h
  get-retain_absent k ((j, w) ∷ m) h = ground (arith, get-retain_absent k m)
