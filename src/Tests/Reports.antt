-- ===== src/Tests/Reports.antt =====
-- What the desktop tells of its tunnel and of its calls.
use chat_x.Prelude.{
  ℕ, ◌≡◌, ◌≤◌, ◌<◌, ◌*◌, false, Option, none, some, List, [], ◌∷◌, Str, codes, length,
}
use chat_x.Desktop.Status.Json.{Json, string, field, end, object}
use chat_x.Desktop.Status.ControlPlane.{unknown, control_plane_observation_from_events}
use chat_x.Desktop.Status.ControlPlane.Verdict.{
  verdict, control_plane_observation_from_events-eq-verdict,
}
use chat_x.Desktop.Status.Runtime.{RuntimeObservation}
use chat_x.Desktop.Status.Activity.{ActivitySnapshot}
use chat_x.Desktop.Status.Calls.{HistoryRecord, recent_calls}
use chat_x.Desktop.Status.Calls.Sorted.{IsNewestFirst}
use chat_x.Desktop.Status.Calls.Distinct.{ShowEachOnce}
use chat_x.Desktop.Status.Calls.Merged.{recent_calls-rows}
use chat_x.Desktop.Status.History.{p95_duration_ms}
use chat_x.Desktop.Status.History.Percentile.{count_le, count_lt, p95_duration_ms_lem}

-- A line of the log with a message.
abbrev event : Str → Json
event msg = object (field (codes "msg") (string msg) end)

abbrev events : List Json
events =
    event (codes "poll failed; backing off")
    ∷ event (codes "poller started")
    ∷ event (codes "poll timed out; backing off")
    ∷ event (codes "tunnel metadata fetched")
    ∷ []

control_plane_observation_from_events-eq-verdict_example :
    control_plane_observation_from_events unknown events ≡ verdict unknown events
control_plane_observation_from_events-eq-verdict_example =
    control_plane_observation_from_events-eq-verdict unknown events

abbrev dead : RuntimeObservation
dead = record {
  state = codes "error";
  active = false;
  runtime_alive = false;
  payload = none;
  error = codes "no file";
  control_plane = unknown;
  proxy_source = [];
}

abbrev activity : ActivitySnapshot
activity = record {
  schema_version = 3;
  sequence = 1;
  updated_at = 700_000;
  last_call_started_at = some 50_000;
  last_call_finished_at = none;
  last_tool_name = some (codes "read_file");
  last_success = none;
  last_duration_ms = none;
  in_flight = 1;
  in_flight_calls = [];
  oldest_in_flight_started_at = some 50_000;
  recent_call_starts = [];
  calls_last_minute = 0;
}

abbrev line : HistoryRecord
line = record {
  tool_name = some (codes "read_file");
  timestamp = some (codes "2026-01-01T00:00:00Z");
  finished_at = some 40_000;
  duration = some 120;
  is_error = none;
}

abbrev histories : List (Str × List (Option HistoryRecord))
histories = (codes "tunnel", some line ∷ none ∷ []) ∷ []

recent_calls-rows_example :
    IsNewestFirst (recent_calls histories ((codes "tunnel", some activity) ∷ []) 60_000)
    × (length (recent_calls histories ((codes "tunnel", some activity) ∷ []) 60_000) ≤ 20)
    × ShowEachOnce (recent_calls histories ((codes "tunnel", some activity) ∷ []) 60_000)
recent_calls-rows_example =
    recent_calls-rows histories ((codes "tunnel", some activity) ∷ []) 60_000

abbrev durations : List ℕ
durations = 30 ∷ 10 ∷ 20 ∷ []

p95_duration_ms_lem_example :
    (d : ℕ) × (p95_duration_ms durations ≡ some d)
    × (95 * length durations ≤ 100 * count_le d durations)
    × (100 * count_lt d durations < 95 * length durations)
p95_duration_ms_lem_example = p95_duration_ms_lem durations (λ e. cc)
