-- ===== src/Desktop/Status/Calls/Distinct.antt =====
-- Rows of the recent calls that stand for one call in flight, through sorting and adding.
use chat_x.Prelude.{
  ℕ, zero, suc, ◌≡◌, refl, sym, ◌∙◌, Bool, true, false, All, ◌&&◌, ◌||◌, Option, none, some, List,
  [], ◌∷◌, ◌++◌, Str, str_eq, str_beq, str_beq_iff, take, any, arith, Bool-cases, inl, inr,
}
use chat_x.Desktop.Status.Calls.{
  RecentCall, stays_before, insert_call, sort_calls, same_recent_call, same_id,
}

-- Two rows for one call in flight.
unfoldable pub runs_twice : RecentCall → RecentCall → Bool
runs_twice a b = a.running && (b.running && same_recent_call a b)

abbrev pub IsDistinct : List RecentCall → Type 0
IsDistinct [] = Unit
IsDistinct (a ∷ calls) = (any (runs_twice a) calls ≡ false) × IsDistinct calls

str_beq-sym : (s t : Str) → str_beq s t ≡ str_beq t s
str_beq-sym s t = elim (Bool-cases (str_beq s t)) [
  | inl same ↦ same ∙ sym ((str_beq_iff t s).1 (sym ((str_beq_iff s t).0 same)))
  | inr differ ↦ ground (arith, differ, str_beq_iff s t, str_beq_iff t s)
]

same_id-sym : (a b : Option Str) → same_id a b ≡ same_id b a
same_id-sym none none = refl
same_id-sym none (some b) = refl
same_id-sym (some a) none = refl
same_id-sym (some a) (some b) = str_beq-sym a b

runs_twice-sym : (a b : RecentCall) → runs_twice a b ≡ runs_twice b a
unfolding runs_twice same_recent_call
runs_twice-sym a b = ground (
  arith,
  str_beq-sym a.source b.source,
  str_beq-sym a.tool_name b.tool_name,
  same_id-sym a.id b.id,
)

any-insert_call :
    (p : RecentCall → Bool) (a : RecentCall) (calls : List RecentCall)
    → any p (insert_call a calls) ≡ (p a || any p calls)
unfolding insert_call
any-insert_call p a [] = refl
any-insert_call p a (b ∷ calls) = ground (arith, any-insert_call p a calls)

insert_call-IsDistinct :
    (a : RecentCall) (calls : List RecentCall)
    → any (runs_twice a) calls ≡ false
    → IsDistinct calls
    → IsDistinct (insert_call a calls)
unfolding insert_call
insert_call-IsDistinct a [] fresh h = (refl, tt)
insert_call-IsDistinct a (b ∷ calls) fresh h = elim (Bool-cases (stays_before a b)) [
  | inl first ↦ rw first (fresh, h)
  | inr later ↦ rw later (
    ground (arith, any-insert_call (runs_twice b) a calls, runs_twice-sym a b, fresh, h.0),
    insert_call-IsDistinct a calls (ground (arith, fresh)) h.1,
  )
]

any-sort_calls :
    (p : RecentCall → Bool) (calls : List RecentCall) → any p (sort_calls calls) ≡ any p calls
unfolding sort_calls
any-sort_calls p [] = refl
any-sort_calls p (a ∷ calls) =
    ground (arith, any-insert_call p a (sort_calls calls), any-sort_calls p calls)

pub sort_calls-IsDistinct :
    (calls : List RecentCall) → IsDistinct calls → IsDistinct (sort_calls calls)
unfolding sort_calls
sort_calls-IsDistinct [] h = tt
sort_calls-IsDistinct (a ∷ calls) h =
    insert_call-IsDistinct a (sort_calls calls) (any-sort_calls (runs_twice a) calls ∙ h.0)
      (sort_calls-IsDistinct calls h.1)

any-take :
    (p : RecentCall → Bool) (n : ℕ) (calls : List RecentCall)
    → any p calls ≡ false
    → any p (take n calls) ≡ false
any-take p zero calls h = refl
any-take p (suc n) [] h = refl
any-take p (suc n) (a ∷ calls) h = ground (arith, any-take p n calls)

pub take-IsDistinct :
    (n : ℕ) (calls : List RecentCall) → IsDistinct calls → IsDistinct (take n calls)
take-IsDistinct zero calls h = tt
take-IsDistinct (suc n) [] h = tt
take-IsDistinct (suc n) (a ∷ calls) h =
    (any-take (runs_twice a) n calls h.0, take-IsDistinct n calls h.1)

any-append :
    (p : RecentCall → Bool) (calls : List RecentCall) (item : RecentCall)
    → any p (calls ++ item ∷ []) ≡ (any p calls || p item)
any-append p [] item = ground arith
any-append p (a ∷ calls) item = ground (arith, any-append p calls item)

pub append-IsDistinct :
    (calls : List RecentCall) (item : RecentCall)
    → any (λ saved. same_recent_call saved item) calls ≡ false
    → IsDistinct calls
    → IsDistinct (calls ++ item ∷ [])
append-IsDistinct [] item fresh h = (refl, tt)
append-IsDistinct (a ∷ calls) item fresh h = (
  unfold runs_twice in ground (arith, any-append (runs_twice a) calls item, fresh, h.0),
  append-IsDistinct calls item (ground (arith, fresh)) h.1,
)

-- Two rows that are running, of one source and one tool, with one id.
abbrev pub AreOneCall : RecentCall → RecentCall → Type 0
AreOneCall a b =
    (a.running ≡ true)
    × (b.running ≡ true)
    × (a.source ≡ b.source)
    × (a.tool_name ≡ b.tool_name)
    × ((id : Str) × (a.id ≡ some id) × (b.id ≡ some id))

abbrev pub ShowEachOnce : List RecentCall → Type 0
ShowEachOnce [] = Unit
ShowEachOnce (a ∷ calls) = All (λ b. ¬ AreOneCall a b) calls × ShowEachOnce calls

same_id-some : (a b : Option Str) (id : Str) → a ≡ some id → b ≡ some id → same_id a b ≡ true
same_id-some a b id one two = rw (one, two) ((str_beq_iff id id).1 refl)

runs_twice-same : (a b : RecentCall) → AreOneCall a b → runs_twice a b ≡ true
unfolding runs_twice same_recent_call
runs_twice-same a b (one, two, source, tool, (id, first, second)) = ground (
  arith,
  one,
  two,
  (str_beq_iff a.source b.source).1 source,
  (str_beq_iff a.tool_name b.tool_name).1 tool,
  same_id-some a.id b.id id first second,
)

All-apart :
    (a : RecentCall) (calls : List RecentCall)
    → any (runs_twice a) calls ≡ false
    → All (λ b. ¬ AreOneCall a b) calls
All-apart a [] h = tt
All-apart a (b ∷ calls) h = (
  λ same. absurd (ground (arith, h, runs_twice-same a b same)),
  All-apart a calls (ground (arith, h)),
)

pub distinct-ShowEachOnce : (calls : List RecentCall) → IsDistinct calls → ShowEachOnce calls
distinct-ShowEachOnce [] h = tt
distinct-ShowEachOnce (a ∷ calls) h = (All-apart a calls h.0, distinct-ShowEachOnce calls h.1)
