-- ===== src/Desktop/Status/History/Percentile.antt =====
-- The 95th percentile of the durations.
use chat_x.Prelude.{
  ℕ, zero, suc, ◌+◌, ◌*◌, ◌≤◌, ◌<◌, ◌≡◌, ◌≢◌, refl, some, List, [], ◌∷◌, if◌then◌else◌, leb, ltb,
  length, All, arith, Bool-cases, inl, inr,
}
use chat_x.Desktop.Status.History.{
  insert_number, sort_numbers, get_elem?, p95_index, p95_duration_ms,
}

-- How many numbers are at most, or below, a bound.
unfoldable pub count_le : ℕ → List ℕ → ℕ
count_le d [] = 0
count_le d (n ∷ ns) = let rest = count_le d ns in if leb n d then rest + 1 else rest

unfoldable pub count_lt : ℕ → List ℕ → ℕ
count_lt d [] = 0
count_lt d (n ∷ ns) = let rest = count_lt d ns in if ltb n d then rest + 1 else rest

abbrev Ascends : List ℕ → Type 0
Ascends [] = Unit
Ascends (n ∷ ns) = All (λ m. n ≤ m) ns × Ascends ns

All-le : (k n : ℕ) (ns : List ℕ) → k ≤ n → All (λ m. n ≤ m) ns → All (λ m. k ≤ m) ns
All-le k n [] h a = tt
All-le k n (m ∷ ns) h a = (omega arith, All-le k n ns h a.1)

All-insert_number :
    (k n : ℕ) (ns : List ℕ) → k ≤ n → All (λ m. k ≤ m) ns → All (λ m. k ≤ m) (insert_number n ns)
unfolding insert_number
All-insert_number k n [] h a = (h, tt)
All-insert_number k n (m ∷ ns) h a = elim (Bool-cases (leb n m)) [
  | inl first ↦ rw first (h, a)
  | inr later ↦ rw later (a.0, All-insert_number k n ns h a.1)
]

insert_number-Ascends : (n : ℕ) (ns : List ℕ) → Ascends ns → Ascends (insert_number n ns)
unfolding insert_number
insert_number-Ascends n [] a = (tt, tt)
insert_number-Ascends n (m ∷ ns) a = elim (Bool-cases (leb n m)) [
  | inl first ↦ rw first ((ground arith, All-le n m ns (ground arith) a.0), a)
  | inr later ↦
      rw later (All-insert_number m n ns (ground arith) a.0, insert_number-Ascends n ns a.1)
]

sort_numbers-Ascends : (ns : List ℕ) → Ascends (sort_numbers ns)
unfolding sort_numbers
sort_numbers-Ascends [] = tt
sort_numbers-Ascends (n ∷ ns) = insert_number-Ascends n (sort_numbers ns) (sort_numbers-Ascends ns)

insert_number-counts :
    (d n : ℕ) (ns : List ℕ)
    → (count_le d (insert_number n ns) ≡ count_le d (n ∷ ns))
      × (count_lt d (insert_number n ns) ≡ count_lt d (n ∷ ns))
      × (length (insert_number n ns) ≡ suc (length ns))
unfolding insert_number count_le count_lt
insert_number-counts d n [] = (refl, refl, refl)
insert_number-counts d n (m ∷ ns) =
    let rest = insert_number-counts d n ns in
    (ground (arith, rest.0), ground (arith, rest.1), ground (arith, rest.2))

sort_numbers-counts :
    (d : ℕ) (ns : List ℕ)
    → (count_le d (sort_numbers ns) ≡ count_le d ns)
      × (count_lt d (sort_numbers ns) ≡ count_lt d ns)
      × (length (sort_numbers ns) ≡ length ns)
unfolding sort_numbers count_le count_lt
sort_numbers-counts d [] = (refl, refl, refl)
sort_numbers-counts d (n ∷ ns) =
    let rest = sort_numbers-counts d ns in
    let here = insert_number-counts d n (sort_numbers ns) in
    (ground (arith, rest.0, here.0), ground (arith, rest.1, here.1), omega (arith, rest.2, here.2))

count_lt_none : (d : ℕ) (ns : List ℕ) → All (λ m. d ≤ m) ns → count_lt d ns ≡ 0
unfolding count_lt
count_lt_none d [] a = refl
count_lt_none d (n ∷ ns) a = ground (arith, count_lt_none d ns a.1)

-- At place `i` of an ascending list: more than `i` numbers are at most as great, and at most `i` are less.
rank :
    (ns : List ℕ) (i : ℕ)
    → i < length ns
    → Ascends ns
    → (d : ℕ) × (get_elem? ns i ≡ some d)
      × (i < count_le d ns)
      × (count_lt d ns ≤ i)
      × ((k : ℕ) → All (λ m. k ≤ m) ns → k ≤ d)
unfolding count_le count_lt
rank [] i h a = absurd (omega arith)
rank (n ∷ ns) zero h a = (n, refl, ground arith, ground (arith, count_lt_none n ns a.0), λ k b. b.0)
rank (n ∷ ns) (suc i) h a =
    let (d, at, more, less, above) = rank ns i (omega arith) a.1 in
    let great : n ≤ d = above n a.0 in
    (d, at, ground (arith, more, great), ground (arith, less, great), λ k b. above k b.1)

-- Of any durations but none, the duration that is given as the 95th percentile is one of them; at least 95
-- in 100 of them are as great at most, and fewer than 95 in 100 are less.
pub p95_duration_ms_lem :
    (durations : List ℕ)
    → durations ≢ []
    → (d : ℕ) × (p95_duration_ms durations ≡ some d)
      × (95 * length durations ≤ 100 * count_le d durations)
      × (100 * count_lt d durations < 95 * length durations)
unfolding p95_duration_ms
p95_duration_ms_lem [] some_seen = absurd (some_seen refl)
p95_duration_ms_lem (e ∷ durations) some_seen =
    let ds = e ∷ durations in
    let same = sort_numbers-counts 0 ds in
    let place =
      rank (sort_numbers ds) (p95_index (length ds)) (unfold p95_index in omega (arith, same.2))
        (sort_numbers-Ascends ds) in
    let counts = sort_numbers-counts place.0 ds in
    (
      place.0,
      place.1,
      unfold p95_index in omega (arith, place.2, counts.0),
      unfold p95_index in omega (arith, place.3, counts.1),
    )
