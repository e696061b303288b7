-- ===== src/Desktop/Coordinator/Durability.antt =====
-- What a restart may restore after a switch or a stop of src-tauri/src/connection_coordinator.rs.
use chat_x.Prelude.{◌≡◌, Bool, true, false, ok, err, arith}
use chat_x.Desktop.Intent.{
  tunnel, https_mcp, done, mark_stopped, set_marked, is_marked, restore_allowed, IntentError,
}
use chat_x.Desktop.Coordinator.{
  marker, Connections, DiskFaults, mark, persist_disabled, stop_both, prepare_https, stop_all,
  stage_mode_switch, then_run, other_mode, as_marker, both_results,
}

module _ {ℓ} {W : Type ℓ} (stop_on_exit : W → W) (stop_tunnel : W → W × Bool) (faults : DiskFaults)
    (c : Connections W) where
  -- Whatever fails afterwards, once both markers were written a restart restores neither transport.
  pub prepare_https-durable :
      faults.marking tunnel ≡ done
      → faults.marking https_mcp ≡ done
      → (restore_allowed true tunnel (prepare_https stop_on_exit stop_tunnel faults c).0.markers
          ≡ ok false)
        × (restore_allowed true https_mcp
              (prepare_https stop_on_exit stop_tunnel faults c).0.markers
            ≡ ok false)
  unfolding prepare_https stage_mode_switch then_run other_mode mark as_marker persist_disabled
      stop_both mark_stopped set_marked restore_allowed is_marked
  prepare_https-durable t h = (ground (arith, t, h), ground (arith, t, h))

  -- A marker that cannot be written stops the switch before any transport is touched or any setting is
  -- written.
  pub prepare_https-marker :
      (e : IntentError)
      → (prepare_https stop_on_exit stop_tunnel faults c).1 ≡ err (marker e)
      → ((prepare_https stop_on_exit stop_tunnel faults c).0.workers ≡ c.workers)
        × ((prepare_https stop_on_exit stop_tunnel faults c).0.connection_intent
            ≡ c.connection_intent)
        × ((prepare_https stop_on_exit stop_tunnel faults c).0.https_enabled ≡ c.https_enabled)
  unfolding prepare_https stage_mode_switch then_run other_mode mark as_marker persist_disabled
      stop_both mark_stopped set_marked
  prepare_https-marker e f = (ground (arith, f), ground (arith, f), ground (arith, f))

  -- A stop of everything that returns `Ok` left both markers, cleared both flags in the settings, and had
  -- every transport stopped.
  pub stop_all-ok :
      (stop_all stop_on_exit stop_tunnel faults c).1 ≡ ok tt
      → ((stop_all stop_on_exit stop_tunnel faults c).0 ≡ record {
        markers = record { tunnel_marked = true; https_marked = true };
        connection_intent = false;
        https_enabled = false;
        workers = (stop_tunnel (stop_on_exit c.workers)).0;
        tray_stop_error = false;
      })
        × ((stop_tunnel (stop_on_exit c.workers)).1 ≡ true)
  unfolding stop_all mark as_marker persist_disabled stop_both mark_stopped set_marked both_results
  stop_all-ok e = (ground (arith, e), ground (arith, e))

  -- A stop that fails still stops: whatever fails but the markers, both transports were told to stop and a
  -- restart restores neither.
  pub stop_all-durable :
      faults.marking tunnel ≡ done
      → faults.marking https_mcp ≡ done
      → ((stop_all stop_on_exit stop_tunnel faults c).0.workers
          ≡ (stop_tunnel (stop_on_exit c.workers)).0)
        × (restore_allowed true tunnel (stop_all stop_on_exit stop_tunnel faults c).0.markers
            ≡ ok false)
        × (restore_allowed true https_mcp (stop_all stop_on_exit stop_tunnel faults c).0.markers
            ≡ ok false)
  unfolding stop_all mark as_marker persist_disabled stop_both mark_stopped set_marked both_results
      restore_allowed is_marked
  stop_all-durable t h = (ground arith, ground (arith, t, h), ground (arith, t, h))
