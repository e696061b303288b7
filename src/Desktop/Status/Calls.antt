-- ===== src/Desktop/Status/Calls.antt =====
-- src-tauri/src/monitor_status.rs: the recent calls of both transports, from their histories and their
-- activity; `annotate` and `sort_recent_by_time` of mcp_sources.rs. The objects that the source builds are
-- records here, which `annotate` has given their source.
pub mod Sorted
pub mod Distinct
pub mod Merged
use chat_x.Prelude.{
  ℕ, zero, suc, ◌+◌, ◌-◌, ◌*◌, Bool, true, false, not, ◌&&◌, ◌||◌, Option, none, some, List, [],
  ◌∷◌, ◌++◌, Str, ◌==◌, str_eq, if◌then◌else◌, nat_beq, leb, ltb, length, take, any, saturating_add,
}
use chat_x.Desktop.Status.Activity.{ActivitySnapshot, InFlightCall}

abbrev pub recent_history_limit : ℕ
recent_history_limit = 20

pub record RecentCall : Type 0 where
  pub source : Str
  pub id : Option Str
  pub tool_name : Str
  pub timestamp : Option Str
  pub started_at : Option ℕ
  pub duration_ms : Option ℕ
  pub success : Option Bool
  pub running : Bool

-- What a line of the history holds, where it is JSON; `finished_at` is chrono's reading of the timestamp,
-- in milliseconds and not below 0.
pub record HistoryRecord : Type 0 where
  pub tool_name : Option Str
  pub timestamp : Option Str
  pub finished_at : Option ℕ
  pub duration : Option ℕ
  pub is_error : Option Bool

abbrev pub or_zero : Option ℕ → ℕ
or_zero none = 0
or_zero (some n) = n

abbrev pub or_empty : Option Str → Str
or_empty none = []
or_empty (some s) = s

abbrev pub is_error_true : Option Bool → Bool
is_error_true none = false
is_error_true (some b) = b

start_of : Option ℕ → Option ℕ → Option ℕ
start_of none duration = none
start_of (some finished) duration = some (finished - or_zero duration)

call_of : Str → HistoryRecord → Str → RecentCall
unfolding start_of
call_of source r tool_name = record {
  source = source;
  id = none;
  tool_name = tool_name;
  timestamp = r.timestamp;
  started_at = start_of r.finished_at r.duration;
  duration_ms = r.duration;
  success = some (not (is_error_true r.is_error));
  running = false;
}

-- The lines newest first, before `take(limit)`.
parsed_calls : Str → List (Option HistoryRecord) → List RecentCall
unfolding call_of
parsed_calls source [] = []
parsed_calls source (none ∷ lines) = parsed_calls source lines
parsed_calls source (some r ∷ lines) =
    let rest = parsed_calls source lines in
    elim r.tool_name [ none ↦ rest | some tool_name ↦ call_of source r tool_name ∷ rest ]

unfoldable pub parse_recent_history : Str → List (Option HistoryRecord) → List RecentCall
unfolding parsed_calls
parse_recent_history source lines = take recent_history_limit (parsed_calls source lines)

-- The order of texts by their bytes: the first is not behind the second.
unfoldable pub str_le : Str → Str → Bool
str_le [] t = true
str_le (a ∷ s) [] = false
str_le (a ∷ s) (b ∷ t) = let rest = str_le s t in if nat_beq a b then rest else ltb a b

-- `sort_by` with the newest start first, then the greatest timestamp: the first may stay before the second.
unfoldable pub stays_before : RecentCall → RecentCall → Bool
unfolding str_le
stays_before a b =
    ltb (or_zero b.started_at) (or_zero a.started_at)
    || (nat_beq (or_zero b.started_at) (or_zero a.started_at)
        && str_le (or_empty b.timestamp) (or_empty a.timestamp))

unfoldable pub insert_call : RecentCall → List RecentCall → List RecentCall
insert_call a [] = a ∷ []
insert_call a (b ∷ calls) =
    let rest = insert_call a calls in if stays_before a b then a ∷ b ∷ calls else b ∷ rest

-- A stable sort: of equal calls the first stays first.
unfoldable pub sort_calls : List RecentCall → List RecentCall
sort_calls [] = []
sort_calls (a ∷ calls) = insert_call a (sort_calls calls)

unfoldable pub sort_recent_by_time : List RecentCall → ℕ → List RecentCall
sort_recent_by_time calls limit = take limit (sort_calls calls)

running_call : Str → ℕ → Option Str → Str → ℕ → RecentCall
running_call source now id tool_name started_at = record {
  source = source;
  id = id;
  tool_name = tool_name;
  timestamp = none;
  started_at = some started_at;
  duration_ms = some (now - started_at);
  success = none;
  running = true;
}

listed_calls : Str → ℕ → List InFlightCall → List RecentCall
unfolding running_call
listed_calls source now [] = []
listed_calls source now (call ∷ calls) =
    running_call source now (some call.id) call.tool_name call.started_at
    ∷ listed_calls source now calls

-- An old snapshot counts the calls in flight without listing them: its last call stands for them.
unlisted_calls : Str → ℕ → ActivitySnapshot → List RecentCall
unfolding running_call
unlisted_calls source now s =
    if ltb 0 s.in_flight
    then elim s.last_tool_name [
      | none ↦ []
      | some tool_name ↦ elim s.last_call_started_at [
        | none ↦ []
        | some started_at ↦ running_call source now none tool_name started_at ∷ []
      ]
    ]
    else []

unfoldable pub in_flight_calls : Str → ℕ → Option ActivitySnapshot → List RecentCall
unfolding listed_calls unlisted_calls
in_flight_calls source now none = []
in_flight_calls source now (some s) = elim s.in_flight_calls [
  | [] ↦ unlisted_calls source now s
  | call ∷ calls ↦ listed_calls source now (take 20 (call ∷ calls))
]

abbrev same_id : Option Str → Option Str → Bool
same_id (some a) (some b) = a == b
same_id none _ = false
same_id (some a) none = false

abbrev is_persisted : RecentCall → Bool
is_persisted call = elim call.timestamp [ none ↦ false | some t ↦ ltb 0 (length t) ]

abbrev within : ℕ → Option ℕ → Option ℕ → Bool
within limit (some a) (some b) = leb (a - b) limit && leb (b - a) limit
within limit none _ = false
within limit (some a) none = false

unfoldable pub same_recent_call : RecentCall → RecentCall → Bool
same_recent_call a b =
    if not (a.source == b.source) || not (a.tool_name == b.tool_name)
    then false
    else if a.running || b.running
    then a.running && (b.running && same_id a.id b.id)
    else if is_persisted a && is_persisted b
    then false
    else within 100 a.started_at b.started_at && within 150 a.duration_ms b.duration_ms

-- `if !calls.iter().any(|saved| same_recent_call(saved, &item)) { calls.push(item) }`
unfoldable pub push_new : List RecentCall → RecentCall → List RecentCall
push_new calls item =
    if any (λ saved. same_recent_call saved item) calls then calls else calls ++ item ∷ []

unfoldable pub push_all : List RecentCall → List RecentCall → List RecentCall
push_all calls [] = calls
push_all calls (item ∷ items) = push_all (push_new calls item) items

-- The last call of a snapshot, where it has just finished.
finished_call : Str → ℕ → ActivitySnapshot → ℕ → ℕ → Str → List RecentCall
finished_call source now s started_at finished_at tool_name =
    if leb started_at finished_at
      && (leb finished_at (saturating_add now 5_000) && leb (now - finished_at) 15_000)
    then (record {
      source = source;
      id = none;
      tool_name = tool_name;
      timestamp = none;
      started_at = some started_at;
      duration_ms = s.last_duration_ms;
      success = s.last_success;
      running = false;
    }
        ∷ [])
    else []

just_finished : Str → ℕ → Option ActivitySnapshot → List RecentCall
unfolding finished_call
just_finished source now none = []
just_finished source now (some s) = elim s.last_call_started_at [
  | none ↦ []
  | some started_at ↦ elim s.last_call_finished_at [
    | none ↦ []
    | some finished_at ↦ elim s.last_tool_name [
      | none ↦ []
      | some tool_name ↦ finished_call source now s started_at finished_at tool_name
    ]
  ]
]

unfoldable pub merge_loop :
    ℕ → List RecentCall → List (Str × Option ActivitySnapshot) → List RecentCall
unfolding just_finished
merge_loop now calls [] = calls
merge_loop now calls ((source, activity) ∷ sources) =
    merge_loop now
      (push_all (push_all calls (in_flight_calls source now activity))
        (just_finished source now activity))
      sources

unfoldable pub merge_recent_calls :
    List RecentCall → List (Str × Option ActivitySnapshot) → ℕ → List RecentCall
merge_recent_calls calls sources now =
    sort_recent_by_time (merge_loop now calls sources) recent_history_limit

-- The histories' records, as they are read where the cache has none for a file of that length and time.
records_of : List (Str × List (Option HistoryRecord)) → List RecentCall
records_of [] = []
records_of ((source, lines) ∷ histories) = parse_recent_history source lines ++ records_of histories

unfoldable pub recent_history_calls : List (Str × List (Option HistoryRecord)) → List RecentCall
unfolding records_of
recent_history_calls histories = sort_recent_by_time (records_of histories) recent_history_limit

unfoldable pub recent_calls :
    List (Str × List (Option HistoryRecord))
    → List (Str × Option ActivitySnapshot)
    → ℕ
    → List RecentCall
recent_calls histories sources now = merge_recent_calls (recent_history_calls histories) sources now
