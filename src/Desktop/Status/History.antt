-- ===== src/Desktop/Status/History.antt =====
-- src-tauri/src/call_history.rs, `parse_call_histories`: the filtered list of calls of both transports, and
-- its statistics. A line that is not blank is a record where it is JSON. The average duration, which is a
-- float, is left out.
pub mod Percentile
use chat_x.Prelude.{
  ℕ, zero, suc, ◌+◌, ◌-◌, ◌*◌, ◌/◌, Bool, true, false, not, ◌&&◌, ◌||◌, Option, none, some, List,
  [], ◌∷◌, ◌++◌, Str, codes, ◌==◌, str_eq, if◌then◌else◌, nat_beq, leb, ltb, length, take,
}
use chat_x.Desktop.Status.Calls.{HistoryRecord, is_error_true, or_empty, str_le}

pub record HistoryCall : Type 0 where
  pub source : Str
  pub tool_name : Str
  pub timestamp : Option Str
  pub duration : Option ℕ
  pub success : Bool

-- The locals of the loop.
pub record Parsed : Type 0 where
  pub records : List HistoryCall
  pub tool_names : List Str
  pub total : ℕ
  pub invalid_entries : ℕ

-- `BTreeSet::insert`.
add_name : Str → List Str → List Str
add_name name [] = name ∷ []
add_name name (x ∷ names) =
    let rest = add_name name names in
    if x == name then x ∷ names else if str_le name x then name ∷ x ∷ names else x ∷ rest

abbrev is_other : Option Str → Str → Bool
is_other none s = false
is_other (some filter) s = not (filter == s)

abbrev is_filter : Option Str → Str → Bool
is_filter none s = false
is_filter (some filter) s = filter == s

-- Whether the filters leave a call out.
unfoldable pub left_out : Option Str → Option Str → Str → Bool → Bool
left_out tool_name status name success =
    is_other tool_name name
    || ((is_filter status (codes "success") && not success)
        || (is_filter status (codes "error") && success))

module _ (tool_name status : Option Str) where
  take_record : Str → HistoryRecord → Str → Parsed → Parsed
  unfolding add_name left_out
  take_record source r name p =
      let success = not (is_error_true r.is_error) in
      let counted = record p { total = p.total + 1; tool_names = add_name name p.tool_names } in
      if left_out tool_name status name success then counted else record counted {
        records =
            p.records
            ++ (record {
              source = source;
              tool_name = name;
              timestamp = r.timestamp;
              duration = r.duration;
              success = success;
            }
                ∷ []);
      }

  take_line : Str → Option HistoryRecord → Parsed → Parsed
  unfolding take_record
  take_line source none p = record p { invalid_entries = p.invalid_entries + 1 }
  take_line source (some r) p = elim r.tool_name [
    | none ↦ record p { invalid_entries = p.invalid_entries + 1 }
    | some name ↦ take_record source r name p
  ]

  lines_loop : Str → Parsed → List (Option HistoryRecord) → Parsed
  unfolding take_line
  lines_loop source p [] = p
  lines_loop source p (line ∷ lines) = lines_loop source (take_line source line p) lines

  unfoldable pub sources_loop : Parsed → List (Str × List (Option HistoryRecord)) → Parsed
  unfolding lines_loop
  sources_loop p [] = p
  sources_loop p ((source, lines) ∷ sources) = sources_loop (lines_loop source p lines) sources

count_success : List HistoryCall → ℕ
count_success [] = 0
count_success (c ∷ calls) = let rest = count_success calls in if c.success then rest + 1 else rest

durations_of : List HistoryCall → List ℕ
durations_of [] = []
durations_of (c ∷ calls) =
    let rest = durations_of calls in elim c.duration [ none ↦ rest | some d ↦ d ∷ rest ]

-- `sort_unstable` on numbers.
unfoldable pub insert_number : ℕ → List ℕ → List ℕ
insert_number n [] = n ∷ []
insert_number n (m ∷ ns) = let rest = insert_number n ns in if leb n m then n ∷ m ∷ ns else m ∷ rest

unfoldable pub sort_numbers : List ℕ → List ℕ
sort_numbers [] = []
sort_numbers (n ∷ ns) = insert_number n (sort_numbers ns)

abbrev pub get_elem? : List ℕ → ℕ → Option ℕ
get_elem? [] i = none
get_elem? (n ∷ ns) zero = some n
get_elem? (n ∷ ns) (suc i) = get_elem? ns i

-- `(len * 95).div_ceil(100).saturating_sub(1)`
unfoldable pub p95_index : ℕ → ℕ
p95_index len = (len * 95 + 99) / 100 - 1

unfoldable pub p95_duration_ms : List ℕ → Option ℕ
p95_duration_ms [] = none
p95_duration_ms (d ∷ durations) =
    get_elem? (sort_numbers (d ∷ durations)) (p95_index (length (d ∷ durations)))

-- `sort_by` with the greatest timestamp first; it is stable.
insert_row : HistoryCall → List HistoryCall → List HistoryCall
insert_row a [] = a ∷ []
insert_row a (b ∷ rows) =
    let rest = insert_row a rows in
    if str_le (or_empty b.timestamp) (or_empty a.timestamp) then a ∷ b ∷ rows else b ∷ rest

sort_rows : List HistoryCall → List HistoryCall
unfolding insert_row
sort_rows [] = []
sort_rows (a ∷ rows) = insert_row a (sort_rows rows)

pub record CallHistory : Type 0 where
  pub items : List HistoryCall
  pub total : ℕ
  pub filtered_total : ℕ
  pub tool_names : List Str
  pub invalid_entries : ℕ
  pub success_count : ℕ
  pub error_count : ℕ
  pub p95 : Option ℕ

unfoldable pub parse_call_histories :
    List (Str × List (Option HistoryRecord)) → ℕ → Option Str → Option Str → CallHistory
unfolding sources_loop count_success durations_of p95_duration_ms sort_rows
parse_call_histories sources limit tool_name status =
    let p =
      sources_loop tool_name status
        (record { records = []; tool_names = []; total = 0; invalid_entries = 0 }) sources in
    record {
      items = take limit (sort_rows p.records);
      total = p.total;
      filtered_total = length p.records;
      tool_names = p.tool_names;
      invalid_entries = p.invalid_entries;
      success_count = count_success p.records;
      error_count = length p.records - count_success p.records;
      p95 = p95_duration_ms (durations_of p.records);
    }

-- What `get_call_history` makes of its arguments: the limit, the filters, and whether the status is one.
unfoldable pub clamp_limit : Option ℕ → ℕ
clamp_limit none = 100
clamp_limit (some n) = if ltb n 1 then 1 else if ltb 1_000 n then 1_000 else n

unfoldable pub valid_status : Option Str → Bool
valid_status none = true
valid_status (some s) = s == codes "success" || s == codes "error"
