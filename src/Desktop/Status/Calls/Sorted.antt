-- ===== src/Desktop/Status/Calls/Sorted.antt =====
-- The order of the recent calls, as `sort_recent_by_time` makes it and `truncate` keeps it.
use chat_x.Prelude.{
  ℕ, zero, suc, ◌≤◌, All, ◌≡◌, refl, true, false, List, [], ◌∷◌, Str, str_eq, take, arith,
  Bool-cases, inl, inr,
}
use chat_x.Desktop.Status.Calls.{
  RecentCall, or_zero, or_empty, str_le, stays_before, insert_call, sort_calls,
}

-- Neighbours are in order: the newest start first.
abbrev pub IsSorted : List RecentCall → Type 0
IsSorted [] = Unit
IsSorted (a ∷ []) = Unit
IsSorted (a ∷ b ∷ calls) = (stays_before a b ≡ true) × IsSorted (b ∷ calls)

str_le-total : (s t : Str) → str_le s t ≡ false → str_le t s ≡ true
unfolding str_le
str_le-total [] t h = cc
str_le-total (a ∷ s) [] h = refl
str_le-total (a ∷ s) (b ∷ t) h = ground (arith, str_le-total s t)

stays_before-total : (a b : RecentCall) → stays_before a b ≡ false → stays_before b a ≡ true
unfolding stays_before
stays_before-total a b h =
    ground (arith, str_le-total (or_empty b.timestamp) (or_empty a.timestamp))

insert_call-IsSorted :
    (a : RecentCall) (calls : List RecentCall) → IsSorted calls → IsSorted (insert_call a calls)
unfolding insert_call
insert_call-IsSorted a [] h = tt
insert_call-IsSorted a (b ∷ []) h = elim (Bool-cases (stays_before a b)) [
  | inl first ↦ rw first (first, tt)
  | inr later ↦ rw later (stays_before-total a b later, tt)
]
insert_call-IsSorted a (b ∷ c ∷ calls) h =
    let rest = insert_call-IsSorted a (c ∷ calls) h.1 in
    elim (Bool-cases (stays_before a b)) [
      | inl first ↦ rw first (first, h)
      | inr later ↦ elim (Bool-cases (stays_before a c)) [
        | inl second ↦ rw (later, second) (stays_before-total a b later, (second, h.1))
        | inr last ↦ rw (later, last) (h.0, rw last at rest)
      ]
    ]

pub sort_calls-IsSorted : (calls : List RecentCall) → IsSorted (sort_calls calls)
unfolding sort_calls
sort_calls-IsSorted [] = tt
sort_calls-IsSorted (a ∷ calls) =
    insert_call-IsSorted a (sort_calls calls) (sort_calls-IsSorted calls)

pub take-IsSorted : (n : ℕ) (calls : List RecentCall) → IsSorted calls → IsSorted (take n calls)
take-IsSorted zero calls h = tt
take-IsSorted (suc n) [] h = tt
take-IsSorted (suc zero) (a ∷ []) h = tt
take-IsSorted (suc (suc n)) (a ∷ []) h = tt
take-IsSorted (suc zero) (a ∷ b ∷ calls) h = tt
take-IsSorted (suc (suc n)) (a ∷ b ∷ calls) h = (h.0, take-IsSorted (suc n) (b ∷ calls) h.1)

-- The start of the later row is not after that of the one before it.
abbrev pub IsNewestFirst : List RecentCall → Type 0
IsNewestFirst [] = Unit
IsNewestFirst (a ∷ calls) =
    All (λ b. or_zero b.started_at ≤ or_zero a.started_at) calls × IsNewestFirst calls

stays_before-le :
    (a b : RecentCall) → stays_before a b ≡ true → or_zero b.started_at ≤ or_zero a.started_at
unfolding stays_before
stays_before-le a b h = ground (arith, h)

All-le :
    (m n : ℕ) (calls : List RecentCall)
    → m ≤ n
    → All (λ c. or_zero c.started_at ≤ m) calls
    → All (λ c. or_zero c.started_at ≤ n) calls
All-le m n [] less h = tt
All-le m n (c ∷ calls) less h = (omega (arith, less, h.0), All-le m n calls less h.1)

pub sorted-IsNewestFirst : (calls : List RecentCall) → IsSorted calls → IsNewestFirst calls
sorted-IsNewestFirst [] h = tt
sorted-IsNewestFirst (a ∷ []) h = (tt, tt)
sorted-IsNewestFirst (a ∷ b ∷ calls) h =
    let rest = sorted-IsNewestFirst (b ∷ calls) h.1 in
    let less = stays_before-le a b h.0 in
    ((less, All-le (or_zero b.started_at) (or_zero a.started_at) calls less rest.0), rest)
