-- ===== src/Desktop/Status/Calls/Merged.antt =====
-- The list of recent calls that `merge_recent_calls` makes: its order, its length and its running calls.
use chat_x.Prelude.{
  ℕ, zero, suc, ◌≤◌, ◌≡◌, refl, false, Option, none, some, List, [], ◌∷◌, ◌++◌, Str, str_eq, length,
  length-take, take, any, All, arith, Bool-cases, Option-cases, inl, inr,
}
use chat_x.Desktop.Status.Activity.{ActivitySnapshot}
use chat_x.Desktop.Status.Calls.{
  RecentCall, HistoryRecord, stays_before, insert_call, sort_calls, sort_recent_by_time,
  same_recent_call, push_new, push_all, merge_loop, merge_recent_calls, in_flight_calls,
  just_finished, parse_recent_history, parsed_calls, call_of, records_of, recent_history_calls,
  recent_calls,
}
use chat_x.Desktop.Status.Calls.Sorted.{
  IsNewestFirst, sort_calls-IsSorted, take-IsSorted, sorted-IsNewestFirst,
}
use chat_x.Desktop.Status.Calls.Distinct.{
  runs_twice, IsDistinct, ShowEachOnce, distinct-ShowEachOnce, sort_calls-IsDistinct,
  take-IsDistinct, append-IsDistinct,
}

push_all-IsDistinct :
    (calls items : List RecentCall) → IsDistinct calls → IsDistinct (push_all calls items)
unfolding push_all push_new
push_all-IsDistinct calls [] h = h
push_all-IsDistinct calls (item ∷ items) h =
    elim (Bool-cases (any (λ saved. same_recent_call saved item) calls)) [
      | inl known ↦ rw known (push_all-IsDistinct calls items h)
      | inr new ↦
          rw new
            (push_all-IsDistinct (calls ++ item ∷ []) items (append-IsDistinct calls item new h))
    ]

merge_loop-IsDistinct :
    (now : ℕ) (calls : List RecentCall) (sources : List (Str × Option ActivitySnapshot))
    → IsDistinct calls
    → IsDistinct (merge_loop now calls sources)
unfolding merge_loop
merge_loop-IsDistinct now calls [] h = h
merge_loop-IsDistinct now calls ((source, activity) ∷ sources) h =
    merge_loop-IsDistinct now
      (push_all (push_all calls (in_flight_calls source now activity))
        (just_finished source now activity))
      sources
      (push_all-IsDistinct (push_all calls (in_flight_calls source now activity))
        (just_finished source now activity)
        (push_all-IsDistinct calls (in_flight_calls source now activity) h))

runs_twice-finished :
    (a : RecentCall) (calls : List RecentCall)
    → a.running ≡ false
    → any (runs_twice a) calls ≡ false
unfolding runs_twice
runs_twice-finished a [] e = refl
runs_twice-finished a (b ∷ calls) e = ground (arith, e, runs_twice-finished a calls e)

abbrev AreFinished : List RecentCall → Type 0
AreFinished = All (λ c. c.running ≡ false)

finished-IsDistinct : (calls : List RecentCall) → AreFinished calls → IsDistinct calls
finished-IsDistinct [] h = tt
finished-IsDistinct (a ∷ calls) h = (runs_twice-finished a calls h.0, finished-IsDistinct calls h.1)

take-AreFinished :
    (n : ℕ) (calls : List RecentCall) → AreFinished calls → AreFinished (take n calls)
take-AreFinished zero calls h = tt
take-AreFinished (suc n) [] h = tt
take-AreFinished (suc n) (a ∷ calls) h = (h.0, take-AreFinished n calls h.1)

append-AreFinished :
    (calls more : List RecentCall)
    → AreFinished calls
    → AreFinished more
    → AreFinished (calls ++ more)
append-AreFinished [] more h k = k
append-AreFinished (a ∷ calls) more h k = (h.0, append-AreFinished calls more h.1 k)

insert_call-AreFinished :
    (a : RecentCall) (calls : List RecentCall)
    → a.running ≡ false
    → AreFinished calls
    → AreFinished (insert_call a calls)
unfolding insert_call
insert_call-AreFinished a [] e h = (e, tt)
insert_call-AreFinished a (b ∷ calls) e h = elim (Bool-cases (stays_before a b)) [
  | inl first ↦ rw first (e, h)
  | inr later ↦ rw later (h.0, insert_call-AreFinished a calls e h.1)
]

sort_calls-AreFinished :
    (calls : List RecentCall) → AreFinished calls → AreFinished (sort_calls calls)
unfolding sort_calls
sort_calls-AreFinished [] h = tt
sort_calls-AreFinished (a ∷ calls) h =
    insert_call-AreFinished a (sort_calls calls) h.0 (sort_calls-AreFinished calls h.1)

parsed_calls-AreFinished :
    (source : Str) (lines : List (Option HistoryRecord)) → AreFinished (parsed_calls source lines)
unfolding parsed_calls call_of
parsed_calls-AreFinished source [] = tt
parsed_calls-AreFinished source (none ∷ lines) = parsed_calls-AreFinished source lines
parsed_calls-AreFinished source (some r ∷ lines) = elim (Option-cases r.tool_name) [
  | inl unnamed ↦ rw unnamed (parsed_calls-AreFinished source lines)
  | inr (tool_name, named) ↦ rw named (refl, parsed_calls-AreFinished source lines)
]

records_of-AreFinished :
    (histories : List (Str × List (Option HistoryRecord))) → AreFinished (records_of histories)
unfolding records_of parse_recent_history
records_of-AreFinished [] = tt
records_of-AreFinished ((source, lines) ∷ histories) =
    append-AreFinished (parse_recent_history source lines) (records_of histories)
      (take-AreFinished 20 (parsed_calls source lines) (parsed_calls-AreFinished source lines))
      (records_of-AreFinished histories)

-- The list of recent calls, of any histories and any activity: no row starts after one above it (no start
-- counts as 0), there are 20 at most, and no two rows that are running have the same source, tool and id.
pub recent_calls-rows :
    (histories : List (Str × List (Option HistoryRecord)))
    (sources : List (Str × Option ActivitySnapshot)) (now : ℕ)
    → IsNewestFirst (recent_calls histories sources now)
      × (length (recent_calls histories sources now) ≤ 20)
      × ShowEachOnce (recent_calls histories sources now)
unfolding recent_calls merge_recent_calls recent_history_calls sort_recent_by_time
recent_calls-rows histories sources now =
    let saved = take 20 (sort_calls (records_of histories)) in
    let finished : AreFinished saved =
      take-AreFinished 20 (sort_calls (records_of histories))
        (sort_calls-AreFinished (records_of histories) (records_of-AreFinished histories)) in
    let merged = merge_loop now saved sources in
    (
      sorted-IsNewestFirst (take 20 (sort_calls merged))
          (take-IsSorted 20 (sort_calls merged) (sort_calls-IsSorted merged)),
      omega (arith, length-take 20 (sort_calls merged)),
      distinct-ShowEachOnce (take 20 (sort_calls merged)) (
          take-IsDistinct 20 (sort_calls merged) (
            sort_calls-IsDistinct merged
              (merge_loop-IsDistinct now saved sources (finished-IsDistinct saved finished)))),
    )
