-- ===== src/Desktop/Status/Snapshot.antt =====
-- src-tauri/src/monitor_status.rs, `project_runtime_snapshot`, and `TunnelSnapshot` of monitor.rs: the state
-- of the tunnel that the probes leave. The proxy's mode is a setting.
pub mod Probes
use chat_x.Prelude.{
  ℕ, ◌+◌, ◌^◌, ◌-◌, Bool, true, false, not, ◌&&◌, ◌||◌, List, [], ◌∷◌, Str, codes, ◌==◌, str_eq,
  ltb, leb, if◌then◌else◌,
}
use chat_x.Desktop.Status.Payload.{is_one_of}
use chat_x.Desktop.Status.Runtime.{RuntimeObservation}

pub record TunnelSnapshot : Type 0 where
  pub state : Str
  pub health : Str
  pub active : Bool
  pub last_error : Str
  pub updated_at : ℕ
  pub last_probe_at : ℕ
  pub last_successful_probe_at : ℕ
  pub consecutive_failures : ℕ
  pub control_plane_state : Str
  pub control_plane_reason : Str
  pub control_plane_failures : ℕ
  pub proxy_mode : Str
  pub proxy_source : Str

-- `TunnelSnapshot::default()`
abbrev pub first_snapshot : TunnelSnapshot
first_snapshot = record {
  state = codes "unknown";
  health = codes "unknown";
  active = false;
  last_error = [];
  updated_at = 0;
  last_probe_at = 0;
  last_successful_probe_at = 0;
  consecutive_failures = 0;
  control_plane_state = codes "unknown";
  control_plane_reason = [];
  control_plane_failures = 0;
  proxy_mode = codes "direct";
  proxy_source = [];
}

-- `saturating_add(1)` on u32.
abbrev pub add_one_u32 : ℕ → ℕ
add_one_u32 n = if ltb n (2 ^ 32 - 1) then n + 1 else 2 ^ 32 - 1

unfoldable pub failures_after : TunnelSnapshot → RuntimeObservation → Bool → Bool → ℕ
failures_after current observation desired_connected advance_failures =
    let local =
      if observation.active || not desired_connected
      then 0
      else if advance_failures
      then add_one_u32 current.consecutive_failures
      else current.consecutive_failures in
    if ltb 0 observation.control_plane.consecutive_failures
    then observation.control_plane.consecutive_failures
    else local

unfoldable pub health_after : RuntimeObservation → Bool → ℕ → Str
health_after observation desired_connected failures =
    if not desired_connected
    then codes "stopped"
    else if observation.control_plane.state == codes "down"
    then codes "down"
    else if is_one_of observation.control_plane.state (codes "suspect" ∷ codes "starting" ∷ [])
    then codes "suspect"
    else if observation.active
    then codes "healthy"
    else if leb (if observation.runtime_alive then 8 else 2) failures
    then codes "down"
    else codes "suspect"

-- Whether the probe's time is stored as that of a success.
unfoldable pub succeeds : RuntimeObservation → Bool → Bool
succeeds observation desired_connected =
    desired_connected
    && (not (
          is_one_of observation.control_plane.state
            (codes "down" ∷ codes "suspect" ∷ codes "starting" ∷ []))
        && observation.active)

unfoldable pub project_runtime_snapshot :
    ℕ → TunnelSnapshot → RuntimeObservation → Bool → Str → Bool → TunnelSnapshot
unfolding failures_after health_after succeeds
project_runtime_snapshot now current observation desired_connected proxy_mode advance_failures =
    let failures = failures_after current observation desired_connected advance_failures in
    record {
      state = observation.state;
      health = health_after observation desired_connected failures;
      active = observation.active;
      last_error = observation.error;
      updated_at = now;
      last_probe_at = now;
      last_successful_probe_at =
          if succeeds observation desired_connected then now else current.last_successful_probe_at;
      consecutive_failures = failures;
      control_plane_state = observation.control_plane.state;
      control_plane_reason = observation.control_plane.reason;
      control_plane_failures = observation.control_plane.consecutive_failures;
      proxy_mode = proxy_mode;
      proxy_source = observation.proxy_source;
    }
