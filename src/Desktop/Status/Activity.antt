-- ===== src/Desktop/Status/Activity.antt =====
-- src-tauri/src/monitor.rs, `evaluate_activity`, and `activities` and `primary_activity` of mcp_sources.rs:
-- what the activity files of the two transports say.
use chat_x.Prelude.{
  ℕ, ◌+◌, ◌-◌, ◌≤◌, ◌<◌, ◌≡◌, ◌↔◌, max, Bool, ◌&&◌, ◌||◌, Option, none, some, List, [], ◌∷◌, Str,
  if◌then◌else◌, nat_beq, leb, ltb, saturating_add, arith, Option-cases, inl, inr,
}

abbrev gap_threshold_ms : ℕ
gap_threshold_ms = 60_000

abbrev idle_reset_ms : ℕ
idle_reset_ms = 600_000

abbrev stall_threshold_ms : ℕ
stall_threshold_ms = 600_000

abbrev active_window_ms : ℕ
active_window_ms = 60_000

abbrev active_min_calls : ℕ
active_min_calls = 3

pub record InFlightCall : Type 0 where
  pub id : Str
  pub tool_name : Str
  pub started_at : ℕ

-- Without the launcher's start, the last request and the last listing of tools, which are only copied.
pub record ActivitySnapshot : Type 0 where
  pub schema_version : ℕ
  pub sequence : ℕ
  pub updated_at : ℕ
  pub last_call_started_at : Option ℕ
  pub last_call_finished_at : Option ℕ
  pub last_tool_name : Option Str
  pub last_success : Option Bool
  pub last_duration_ms : Option ℕ
  pub in_flight : ℕ
  pub in_flight_calls : List InFlightCall
  pub oldest_in_flight_started_at : Option ℕ
  pub recent_call_starts : List ℕ
  pub calls_last_minute : ℕ

-- `read_activity_snapshot` of what serde_json makes of the file.
unfoldable pub read_activity_snapshot : Option ActivitySnapshot → Option ActivitySnapshot
read_activity_snapshot none = none
read_activity_snapshot (some s) =
    if nat_beq s.schema_version 1 || (nat_beq s.schema_version 2 || nat_beq s.schema_version 3)
    then some s
    else none

pub data McpState : Type 0 where
  idle active stalled gap : McpState

-- The computed fields of `McpMonitorStatus`; the others are copied from the snapshot.
pub record McpMonitorStatus : Type 0 where
  pub state : McpState
  pub calls_last_minute : ℕ
  pub gap_duration_ms : Option ℕ
  pub stall_duration_ms : Option ℕ
  pub in_flight : ℕ

abbrev pub empty_status : McpMonitorStatus
empty_status = record {
  state = idle;
  calls_last_minute = 0;
  gap_duration_ms = none;
  stall_duration_ms = none;
  in_flight = 0;
}

count_recent : ℕ → List ℕ → ℕ
count_recent now [] = 0
count_recent now (at ∷ starts) =
    let rest = count_recent now starts in if leb (now - at) active_window_ms then rest + 1 else rest

-- The state and the two durations.
abbrev Judged : Type 0
Judged = McpState × Option ℕ × Option ℕ

judge_stall : ℕ → Option ℕ → Judged
judge_stall now none = (active, none, none)
judge_stall now (some started_at) =
    if leb stall_threshold_ms (now - started_at)
    then (stalled, none, some (now - started_at))
    else (active, none, none)

last_activity_at : ℕ → Option ℕ → ℕ
last_activity_at started none = started
last_activity_at started (some finished) = max finished started

judge_gap : ℕ → ActivitySnapshot → ℕ → Option ℕ → Judged
unfolding last_activity_at
judge_gap now s current none = (idle, none, none)
judge_gap now s current (some started) =
    let gap_ms = now - last_activity_at started s.last_call_finished_at in
    let burst = leb active_min_calls s.calls_last_minute in
    if ltb gap_ms gap_threshold_ms && (leb active_min_calls current || burst)
    then (active, none, none)
    else if burst && (leb gap_threshold_ms gap_ms && leb gap_ms idle_reset_ms)
    then (gap, some gap_ms, none)
    else (idle, none, none)

judge : ℕ → ActivitySnapshot → ℕ → Judged
unfolding judge_stall judge_gap
judge now s current =
    if ltb 0 s.in_flight
    then judge_stall now s.oldest_in_flight_started_at
    else judge_gap now s current s.last_call_started_at

unfoldable pub evaluate_activity : Option ActivitySnapshot → ℕ → McpMonitorStatus
unfolding judge count_recent
evaluate_activity none now = empty_status
evaluate_activity (some s) now =
    let current = count_recent now s.recent_call_starts in
    let (state, gap_ms, stall_ms) = judge now s current in
    record {
      state = state;
      calls_last_minute = current;
      gap_duration_ms = gap_ms;
      stall_duration_ms = stall_ms;
      in_flight = s.in_flight;
    }

-- A stall is told exactly where calls are in flight and the oldest began ten minutes ago or earlier; the
-- duration that is told with it is the time since then.
pub evaluate_activity-stalled :
    (s : ActivitySnapshot) (now : ℕ)
    → ((evaluate_activity (some s) now).state ≡ stalled) ↔ (
        (0 < s.in_flight)
        × ((started : ℕ) × (s.oldest_in_flight_started_at ≡ some started)
            × (600_000 ≤ now - started)
            × ((evaluate_activity (some s) now).stall_duration_ms ≡ some (now - started))))
unfolding evaluate_activity
evaluate_activity-stalled s now = (
  λ h. elim (Option-cases s.oldest_in_flight_started_at) [
    | inl unknown_start ↦ absurd (ground (arith, h, unknown_start))
    | inr (started, e) ↦
        (ground (arith, h, e), (started, e, ground (arith, h, e), ground (arith, h, e)))
  ],
  λ stall. ground (arith, stall.0, stall.1.1, stall.1.2),
)

-- A gap, of one to ten minutes, is told only where no call is in flight.
pub evaluate_activity-gap :
    (s : ActivitySnapshot) (now ms : ℕ)
    → (evaluate_activity (some s) now).gap_duration_ms ≡ some ms
    → ((evaluate_activity (some s) now).state ≡ gap)
      × (s.in_flight ≡ 0)
      × (60_000 ≤ ms)
      × (ms ≤ 600_000)
unfolding evaluate_activity
evaluate_activity-gap s now ms h = (ground arith, ground arith, ground arith, ground arith)

-- A source's snapshot as it is shown: only while the transport lives, and while it is fresh.
unfoldable pub shown_activity : Bool → ℕ → Option ActivitySnapshot → Option ActivitySnapshot
shown_activity alive now none = none
shown_activity alive now (some s) =
    let max_age = if ltb 0 s.in_flight then 2_700_000 else 180_000 in
    if alive && (leb s.updated_at (saturating_add now 5_000) && leb (now - s.updated_at) max_age)
    then some s
    else none

unfoldable pub priority : ActivitySnapshot → ℕ
priority s = if ltb 0 s.in_flight then 2 else if ltb 0 s.calls_last_minute then 1 else 0

-- `max_by_key` gives the last of the greatest.
later_of : Option ActivitySnapshot → ActivitySnapshot → ActivitySnapshot
later_of none s = s
later_of (some best) s =
    if ltb (priority best) (priority s)
      || (nat_beq (priority best) (priority s) && leb best.updated_at s.updated_at)
    then s
    else best

primary_loop :
    Option ActivitySnapshot → List (Str × Option ActivitySnapshot) → Option ActivitySnapshot
unfolding later_of
primary_loop best [] = best
primary_loop best ((source, none) ∷ sources) = primary_loop best sources
primary_loop best ((source, some s) ∷ sources) = primary_loop (some (later_of best s)) sources

unfoldable pub primary_activity : List (Str × Option ActivitySnapshot) → Option ActivitySnapshot
unfolding primary_loop
primary_activity sources = primary_loop none sources
