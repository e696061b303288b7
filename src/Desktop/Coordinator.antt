-- ===== src/Desktop/Coordinator.antt =====
-- src-tauri/src/connection_coordinator.rs: the switch from one transport to the other and the stop of
-- both, with the operation lock held. `stop_on_exit` of https_mcp.rs and `stop_tunnel_without_saving` of
-- tunnel_runtime.rs are parameters that act on the transports' own state `W`.
pub mod Durability
use chat_x.Prelude.{
  Bool, true, false, not, ◌&&◌, Option, none, some, Result, ok, err, if◌then◌else◌,
}
use chat_x.Desktop.Intent.{
  Transport, tunnel, https_mcp, Markers, IntentError, WriteOutcome, mark_stopped, is_marked,
  restore_allowed,
}

pub data SwitchError : Type 0 where
  marker : IntentError → SwitchError
  stop_failed save_failed quitting : SwitchError

unfoldable pub other_mode : Transport → Transport
other_mode https_mcp = tunnel
other_mode tunnel = https_mcp

unfoldable pub ensure_available : Bool → Result SwitchError (Unit {0})
ensure_available quitting_now = if quitting_now then err quitting else ok tt

-- The `?` of the source: the next step runs only after one that succeeded.
unfoldable pub then_run {ℓ} :
    {W : Type ℓ}
    → W × Result SwitchError (Unit {0})
    → (W → W × Result SwitchError (Unit {0}))
    → W × Result SwitchError (Unit {0})
then_run (w, err e) next = (w, err e)
then_run (w, ok _) next = next w

unfoldable pub stage_mode_switch {ℓ} :
    {W : Type ℓ}
    → Transport
    → (Transport → W → W × Result SwitchError (Unit {0}))
    → (W → W × Result SwitchError (Unit {0}))
    → (W → W × Result SwitchError (Unit {0}))
    → W
    → W × Result SwitchError (Unit {0})
unfolding then_run
stage_mode_switch target mark stop_existing persist_disabled w =
    then_run (then_run (then_run (mark target w) (mark (other_mode target))) stop_existing)
      persist_disabled

-- Settings that the coordinator writes, the markers, the transports' state and the tray's pending error.
pub record Connections {ℓ} (W : Type ℓ) : Type ℓ where
  pub markers : Markers
  pub connection_intent : Bool
  pub https_enabled : Bool
  pub workers : W
  pub tray_stop_error : Bool

-- What the disk does in one operation: each marker's write and the write of the settings.
pub record DiskFaults : Type 0 where
  pub marking : Transport → WriteOutcome
  pub saved : Bool

unfoldable pub as_marker : Result IntentError (Unit {0}) → Result SwitchError (Unit {0})
as_marker (ok _) = ok tt
as_marker (err e) = err (marker e)

module _ {ℓ} {W : Type ℓ} (stop_on_exit : W → W) (stop_tunnel : W → W × Bool)
    (faults : DiskFaults) where
  unfoldable pub mark : Transport → Connections W → Connections W × Result SwitchError (Unit {0})
  unfolding as_marker
  mark mode c =
      let (markers, result) = mark_stopped (faults.marking mode) mode c.markers in
      (record c { markers = markers }, as_marker result)

  -- `update_settings` with both flags cleared: a failed write leaves the settings file as it was.
  unfoldable pub persist_disabled : Connections W → Connections W × Result SwitchError (Unit {0})
  persist_disabled c =
      if faults.saved
      then (record c { connection_intent = false; https_enabled = false }, ok tt)
      else (c, err save_failed)

  unfoldable pub stop_both : Connections W → Connections W × Result SwitchError (Unit {0})
  stop_both c =
      let (workers, stopped) = stop_tunnel (stop_on_exit c.workers) in
      (record c { workers = workers }, if stopped then ok tt else err stop_failed)

  unfoldable pub stop_https : Connections W → Connections W × Result SwitchError (Unit {0})
  stop_https c = (record c { workers = stop_on_exit c.workers }, ok tt)

  unfoldable pub prepare_https : Connections W → Connections W × Result SwitchError (Unit {0})
  prepare_https = stage_mode_switch https_mcp mark stop_both persist_disabled

  unfoldable pub prepare_tunnel : Connections W → Connections W × Result SwitchError (Unit {0})
  prepare_tunnel = stage_mode_switch tunnel mark stop_https persist_disabled

  unfoldable pub both_results :
      Result SwitchError (Unit {0}) → Result SwitchError (Unit {0}) → Result SwitchError (Unit {0})
  both_results (err e) later = err e
  both_results (ok _) later = later

  -- `stop_all`: every step is taken whatever the ones before it returned; the first of the errors, in the
  -- order stop, settings, HTTPS marker, tunnel marker, is the result.
  unfoldable pub stop_all : Connections W → Connections W × Result SwitchError (Unit {0})
  unfolding both_results
  stop_all c =
      let (c1, https_marker) = mark https_mcp c in
      let (c2, tunnel_marker) = mark tunnel c1 in
      let (c3, stopped) = stop_both c2 in
      let (c4, saved) = persist_disabled c3 in
      let result =
        both_results stopped (both_results saved (both_results https_marker tunnel_marker)) in
      (elim result [ ok _ ↦ record c4 { tray_stop_error = false } | err _ ↦ c4 ], result)
