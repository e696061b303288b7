-- ===== src/Desktop/RemoteControl/Reconnects.antt =====
-- When a phone's request starts a reconnect: src-tauri/src/monitor_control.rs.
use chat_x.Prelude.{
  ℕ, ◌-◌, ◌≤◌, ◌≡◌, ◌⊎◌, inl, inr, Bool, true, false, List, [], ◌∷◌, Result, ok, err, arith,
  Result-cases,
}
use chat_x.Desktop.RemoteControl.{
  Tunnel, trigger_tunnel_reconnect, check_reconnect, run_reconnect, may_start, ReconnectRefusal,
  reconnecting,
}

-- A phone's request for a reconnect, the end of a reconnect's thread, and a change of the user's choices
-- (HTTPS, the saved and the present wish to be connected).
pub data TunnelEvent : Type 0 where
  triggers : ℕ → ℕ → TunnelEvent
  ends : Bool → Bool → Bool → TunnelEvent
  chooses : Bool → Bool → Bool → TunnelEvent

-- The times of the reconnects that were accepted.
abbrev accepted_at : ℕ → Result ReconnectRefusal (Unit {0}) → List ℕ → List ℕ
accepted_at now (ok _) times = now ∷ times
accepted_at now (err _) times = times

unfoldable pub accepted : Tunnel → List TunnelEvent → List ℕ
accepted t [] = []
accepted t (triggers health_now now ∷ events) =
    let (t', result) = trigger_tunnel_reconnect health_now now t in
    accepted_at now result (accepted t' events)
accepted t (ends locked started recovered ∷ events) =
    accepted (run_reconnect locked started recovered t).0 events
accepted t (chooses https intent desired ∷ events) =
    accepted
      (record t { https_enabled = https; connection_intent = intent; desired_connected = desired })
      events

-- Times that are 10 s apart, the one before them included unless it is 0.
abbrev pub Spaced : ℕ → List ℕ → Type 0
Spaced last [] = Unit
Spaced last (now ∷ times) = ((last ≡ 0) ⊎ (10_000 ≤ now - last)) × Spaced now times

check_reconnect-spaced :
    (health_now now : ℕ) (t : Tunnel)
    → check_reconnect health_now now t ≡ ok tt
    → (t.last_reconnect_at ≡ 0) ⊎ (10_000 ≤ now - t.last_reconnect_at)
unfolding check_reconnect
check_reconnect-spaced health_now now t e = ground (arith, e)

-- Whatever the phones ask, however reconnects end and the user chooses, each reconnect that is accepted is
-- at least 10 s after the one before it, where that was at a time other than 0, which stands for none.
pub accepted-Spaced :
    (t : Tunnel) (events : List TunnelEvent) → Spaced t.last_reconnect_at (accepted t events)
unfolding accepted trigger_tunnel_reconnect run_reconnect
accepted-Spaced t [] = tt
accepted-Spaced t (triggers health_now now ∷ events) =
    elim (Result-cases (check_reconnect health_now now t)) [
      | inl (e, refused) ↦ rw (refused, trigger_tunnel_reconnect) (accepted-Spaced t events)
      | inr (_, passed) ↦
          rw (passed, trigger_tunnel_reconnect)
            (
              check_reconnect-spaced health_now now t passed,
              accepted-Spaced
                  (record t {
                    reconnect_running = true;
                    last_reconnect_at = now;
                    is_reconnecting = true;
                    phase = reconnecting;
                  })
                  events,
            )
    ]
accepted-Spaced t (ends locked started recovered ∷ events) =
    accepted-Spaced (run_reconnect locked started recovered t).0 events
accepted-Spaced t (chooses https intent desired ∷ events) =
    accepted-Spaced
      (record t { https_enabled = https; connection_intent = intent; desired_connected = desired })
      events

-- A phone cannot undo a stop by hand: no reconnect is accepted while the user wants none, and one that was
-- accepted before starts no connection afterwards and ends as failed.
pub trigger_tunnel_reconnect-stopped :
    (health_now now : ℕ) (locked started recovered : Bool) (t : Tunnel)
    → ((t.connection_intent ≡ false) ⊎ ((t.desired_connected ≡ false) ⊎ (t.https_enabled ≡ true)))
    → ((trigger_tunnel_reconnect health_now now t).0 ≡ t)
      × ¬ (trigger_tunnel_reconnect health_now now t).1 ≡ ok tt
      × ((run_reconnect locked started recovered t).1 ≡ false)
      × ((run_reconnect locked started recovered t).0.reconnect_attempt ≡ t.reconnect_attempt)
unfolding trigger_tunnel_reconnect check_reconnect run_reconnect may_start
trigger_tunnel_reconnect-stopped health_now now locked started recovered t stopped = (
  ground (arith, stopped),
  (λ e. ground (arith, e, stopped)),
  ground (arith, stopped),
  ground (arith, stopped),
)
