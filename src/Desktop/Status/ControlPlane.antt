-- ===== src/Desktop/Status/ControlPlane.antt =====
-- src-tauri/src/tunnel_status.rs: what the tunnel's log says of its control plane.
pub mod Verdict
use chat_x.Prelude.{
  ℕ, zero, suc, ◌+◌, ◌^◌, ◌-◌, Bool, true, false, not, ◌&&◌, ◌||◌, Option, none, some, List, [],
  ◌∷◌, Str, codes, ◌==◌, str_eq, nat_beq, ltb, leb, if◌then◌else◌,
}
use chat_x.Text.{to_ascii_lowercase, take_chars}
use chat_x.Desktop.Status.Json.{
  Json, null, bool, number, string, array, object, get_field, str_field, or_else, unwrap_or, ◌>>=◌,
}
use chat_x.Desktop.Status.Payload.{control_plane_health_value}

pub record ControlPlaneObservation : Type 0 where
  pub state : Str
  pub reason : Str
  pub consecutive_failures : ℕ

-- `ControlPlaneObservation::default()`
abbrev pub unknown : ControlPlaneObservation
unknown = record { state = codes "unknown"; reason = []; consecutive_failures = 0 }

fallback_of : Option Json → ControlPlaneObservation
fallback_of none = unknown
fallback_of (some (string text)) = record unknown { state = to_ascii_lowercase text }
fallback_of (some (bool ok)) = record unknown {
  state = if ok then codes "healthy" else codes "down";
}
fallback_of (some (object fs)) = record unknown {
  state = to_ascii_lowercase (
      unwrap_or
        (or_else (str_field (codes "state") (object fs)) (str_field (codes "status") (object fs)))
        (codes "unknown"));
  reason = take_chars 300 (unwrap_or (str_field (codes "reason") (object fs)) []);
}
fallback_of (some null) = unknown
fallback_of (some (number n)) = unknown
fallback_of (some (array items)) = unknown

unfoldable pub control_plane_fallback : Json → ControlPlaneObservation
unfolding fallback_of
control_plane_fallback payload = fallback_of (control_plane_health_value payload)

unfoldable pub is_empty : Str → Bool
is_empty [] = true
is_empty (b ∷ s) = false

-- The events of the newest instance, newest first. `lines` are those of the log's tail in that order, each
-- with what serde_json makes of it; `instance` is the id that was found.
unfoldable pub events_loop : Option Str → List (Option Json) → List Json
events_loop instance [] = []
events_loop instance (none ∷ lines) = events_loop instance lines
events_loop instance (some event ∷ lines) =
    let current = unwrap_or (str_field (codes "client_instance_id") event) [] in
    let found : Option Str = elim instance [
      | none ↦ if is_empty current then none else some current
      | some i ↦ some i
    ] in
    let skipped = events_loop instance lines in
    let dropped = events_loop found lines in
    let kept = event ∷ events_loop found lines in
    let expected : Str = unwrap_or found current in
    if not (unwrap_or (str_field (codes "component") event) [] == codes "controlplane")
    then skipped
    else if not (is_empty current) && not (current == expected)
    then dropped
    else kept

unfoldable pub runtime_control_plane_events : List (Option Json) → List Json
unfolding events_loop
runtime_control_plane_events lines = events_loop none lines

unfoldable pub message_of : Json → Str
message_of event = unwrap_or (str_field (codes "msg") event) []

unfoldable pub runtime_proxy_source_from_events : List Json → Str
unfolding message_of
runtime_proxy_source_from_events [] = []
runtime_proxy_source_from_events (event ∷ events) =
    let rest = runtime_proxy_source_from_events events in
    if message_of event == codes "control-plane route resolved"
    then unwrap_or (str_field (codes "proxy_source") event) (codes "unknown")
    else rest

abbrev u32_max : ℕ
u32_max = 2 ^ 32 - 1

unfoldable pub is_failure : Str → Bool
is_failure message =
    message == codes "poll failed; backing off" || message == codes "poll timed out; backing off"

unfoldable pub is_recovery : Str → Bool
is_recovery message =
    message == codes "poller recovered; polling operational"
    || message == codes "tunnel metadata fetched"

unfoldable pub is_start : Str → Bool
is_start message =
    message == codes "starting control-plane poller" || message == codes "poller started"

-- The locals of the loop.
pub record Tally : Type 0 where
  pub failures : ℕ
  pub reason : Str
  pub saw_start : Bool

unfoldable pub reason_of : Json → Str
reason_of event = take_chars 300 (unwrap_or (str_field (codes "error") event) (message_of event))

count_failure : Json → Tally → Tally
count_failure event t = record t {
  failures = if ltb t.failures u32_max then t.failures + 1 else u32_max;
  reason = if is_empty t.reason then reason_of event else t.reason;
}

-- `none` where the loop returns that the plane is healthy.
unfoldable pub tally_loop : Tally → List Json → Option Tally
unfolding count_failure
tally_loop t [] = some t
tally_loop t (event ∷ events) =
    let counted = tally_loop (count_failure event t) events in
    let started = tally_loop (record t { saw_start = true }) events in
    let passed = tally_loop t events in
    let message = message_of event in
    if is_failure message
    then counted
    else if is_recovery message
    then (if nat_beq t.failures 0 then none else some t)
    else if is_start message
    then (if nat_beq t.failures 0 then some (record t { saw_start = true }) else started)
    else passed

unfoldable pub conclude : ControlPlaneObservation → Option Tally → ControlPlaneObservation
conclude fallback none = record { state = codes "healthy"; reason = []; consecutive_failures = 0 }
conclude fallback (some t) =
    if leb 3 t.failures
    then record { state = codes "down"; reason = t.reason; consecutive_failures = t.failures }
    else if ltb 0 t.failures
    then record { state = codes "suspect"; reason = t.reason; consecutive_failures = t.failures }
    else if t.saw_start && fallback.state == codes "unknown"
    then record fallback { state = codes "starting" }
    else fallback

unfoldable pub control_plane_observation_from_events :
    ControlPlaneObservation → List Json → ControlPlaneObservation
unfolding tally_loop conclude
control_plane_observation_from_events fallback events =
    conclude fallback (tally_loop (record { failures = 0; reason = []; saw_start = false }) events)
