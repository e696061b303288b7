-- ===== src/Desktop/Status/Runtime.antt =====
-- src-tauri/src/tunnel_status.rs, `runtime_log_observation` and `runtime_status`, with `output_text` and
-- `runtime_not_running` of main.rs: one probe of the tunnel. The run of the tunnel's program and the log's
-- tail are arguments.
use chat_x.Prelude.{
  Bool, true, false, not, ◌&&◌, ◌||◌, Option, none, some, List, [], ◌∷◌, ◌++◌, Str, codes, ◌==◌,
  str_eq, if◌then◌else◌, length, drop, ◌-◌, leb,
}
use chat_x.Text.{to_ascii_lowercase, trim, starts_with}
use chat_x.Text.Utf8.{from_utf8_lossy}
use chat_x.Desktop.Status.Json.{Json, str_field, unwrap_or}
use chat_x.Desktop.Status.Payload.{runtime_payload_alive, runtime_payload_active, is_one_of}
use chat_x.Desktop.Status.ControlPlane.{
  ControlPlaneObservation, unknown, control_plane_fallback, control_plane_observation_from_events,
  runtime_control_plane_events, runtime_proxy_source_from_events, is_empty,
}

pub record RuntimeObservation : Type 0 where
  pub state : Str
  pub active : Bool
  pub runtime_alive : Bool
  pub payload : Option Json
  pub error : Str
  pub control_plane : ControlPlaneObservation
  pub proxy_source : Str

-- A run of the program: its exit status, its two outputs, and what serde_json makes of the first; or that
-- it could not be run.
pub data TunnelRun : Type 0 where
  ran : Bool → Str → Str → Option Json → TunnelRun
  not_run : Str → TunnelRun

unfoldable pub output_text : Str → Str → Str
output_text stdout stderr =
    let out = trim (from_utf8_lossy stdout) in
    let other = trim (from_utf8_lossy stderr) in
    if is_empty out then other else if is_empty other then out else out ++ (10 ∷ other)

-- `contains` and `ends_with` of a text.
unfoldable pub contains : Str → Str → Bool
contains part [] = is_empty part
contains part (b ∷ s) = let rest = contains part s in starts_with part (b ∷ s) || rest

abbrev ends_with : Str → Str → Bool
ends_with part s = leb (length part) (length s) && drop (length s - length part) s == part

unfoldable pub runtime_not_running : Str → Bool
runtime_not_running text =
    let lower = to_ascii_lowercase text in
    (starts_with (codes "alias ") (trim lower)
      && ends_with (codes " is not known; run create or connect first") (trim lower))
    || (contains (codes "not found") lower
        || (contains (codes "no runtime") lower || contains (codes "stopped") lower))

abbrev without_payload : Str → Str → RuntimeObservation
without_payload state error = record {
  state = state;
  active = false;
  runtime_alive = false;
  payload = none;
  error = error;
  control_plane = unknown;
  proxy_source = [];
}

-- `lines` is the tail of the log at the path that the payload names, newest line first, read as JSON; there
-- are none where it names no path or the file cannot be read.
unfoldable pub observe_payload : List (Option Json) → Json → RuntimeObservation
observe_payload lines parsed =
    let events = runtime_control_plane_events lines in
    let control_plane =
      control_plane_observation_from_events (control_plane_fallback parsed) events in
    let active =
      runtime_payload_active parsed
      && not (
          is_one_of control_plane.state (codes "down" ∷ codes "suspect" ∷ codes "starting" ∷ [])) in
    record {
      state =
          unwrap_or (str_field (codes "runtime_state") parsed)
            (if active then codes "ready" else codes "unknown");
      active = active;
      runtime_alive = runtime_payload_alive parsed;
      payload = some parsed;
      error = [];
      control_plane = control_plane;
      proxy_source = runtime_proxy_source_from_events events;
    }

-- The two messages about an output that is no JSON.
pub record ErrorTexts : Type 0 where
  pub empty_output : Str
  pub no_json : Str → Str

unfoldable pub runtime_status : ErrorTexts → List (Option Json) → TunnelRun → RuntimeObservation
unfolding observe_payload output_text runtime_not_running
runtime_status texts lines (ran true stdout stderr (some parsed)) = observe_payload lines parsed
runtime_status texts lines (ran true stdout stderr none) =
    let text = output_text stdout stderr in
    without_payload (codes "error")
      (if is_empty text then texts.empty_output else texts.no_json text)
runtime_status texts lines (ran false stdout stderr _) =
    let text = output_text stdout stderr in
    if runtime_not_running text
    then without_payload (codes "stopped") []
    else without_payload (codes "error") text
runtime_status texts lines (not_run error) = without_payload (codes "error") error
