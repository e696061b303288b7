-- ===== src/Desktop/Server/Revoked.antt =====
-- src-tauri/src/monitor_manager.rs, `start_monitor_service`, where it hands the server its handlers: who
-- may call, and what a revoked phone's connection meets.
use chat_x.Prelude.{
  ℕ, ◌≡◌, ◌≢◌, refl, Bool, false, none, [], Str, str_eq, str_beq_iff, ok, arith, inl, inr,
}
use chat_x.Desktop.Monitor.{
  MonitorState, SaveOutcome, saved, monitor_device_token_authorized, revoke_monitor_device_local,
}
use chat_x.Desktop.Monitor.Revocations.{revoke_monitor_device_local-authorized}
use chat_x.Desktop.Server.Requests.{MonitorHandlers}
use chat_x.Desktop.Server.Socket.{Session, Round, round}
use chat_x.Desktop.Server.Socket.Order.{numbers}
use chat_x.Desktop.Server.Socket.Ends.{round-denied}

-- The handlers of a desktop: callers are checked against its paired phones.
unfoldable pub desktop_handlers :
    (Str → Str) → SaveOutcome → ℕ → MonitorHandlers MonitorState → MonitorHandlers MonitorState
desktop_handlers digest outcome now others = record others {
  auth_checker = monitor_device_token_authorized digest outcome now;
}

-- After a revocation that was saved, or that found no such phone, every open connection of the phone ends
-- at its next round, with whatever token it was opened, and is sent no snapshot in it.
pub revoke_monitor_device_local-round :
    (digest : Str → Str) (outcome : SaveOutcome) (now : ℕ) (others : MonitorHandlers MonitorState)
    (device_id token session_id : Str) (w : MonitorState) (found : Bool) (r : Round)
    (s : Session MonitorState)
    → revoke_monitor_device_local saved device_id w ≡ (s.world, ok found)
    → ((round (desktop_handlers digest outcome now others) device_id token session_id r s).2 ≢ none)
      × (numbers
            (round (desktop_handlers digest outcome now others) device_id token session_id r s).1
          ≡ [])
unfolding desktop_handlers numbers
revoke_monitor_device_local-round digest outcome now others device_id token session_id w found r s
      gone =
    let handlers = desktop_handlers digest outcome now others in
    let taken =
      revoke_monitor_device_local-authorized digest outcome now device_id device_id token w s.world
        found gone in
    let denied : (handlers.auth_checker device_id token s.world).1 ≡ false =
      ground (arith, taken, str_beq_iff device_id device_id) in
    elim (round-denied handlers device_id token session_id r s denied) [
      | inl late ↦ rw late ((λ e. cc), refl)
      | inr ended ↦ rw ended ((λ e. cc), ground arith)
    ]
