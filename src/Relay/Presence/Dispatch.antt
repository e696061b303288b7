-- ===== src/Relay/Presence/Dispatch.antt =====
-- A desktop's messages and the parts of the state: `desktop_message` of Relay.Presence.
use chat_x.Prelude.{
  ℕ, ◌≡◌, false, Str, get, str_eq, triple_eq, arith, get-remove, get-insert, ◌==◌, pair_eq,
  pair_beq, triple_beq,
}
use chat_x.Protocol.Messages.{DesktopWsMessage}
use chat_x.Relay.State.{AppState, SameRegistration}
use chat_x.Relay.Reply.{Refusal}
use chat_x.Relay.Snapshots.{cache_snapshot}
use chat_x.Relay.Control.{complete_control}
use chat_x.Relay.Revoke.{complete_revoke}
use chat_x.Relay.Presence.{
  desktop_message, answer_pairing, control_effect, revoke_effect, snapshot_effect,
}

module _ (refusal_text : Refusal → Str) (now : ℕ) (s : AppState) (desktop_id : Str)
    (message : DesktopWsMessage) where
  -- A message of a desktop's socket changes no registration, on no branch: neither the registry in memory
  -- and the one saved last, nor who is online and on which channel, nor a pairing route or a gateway session.
  pub desktop_message-registry :
      SameRegistration s (desktop_message refusal_text now s desktop_id message).0
  unfolding pair_beq triple_beq desktop_message answer_pairing control_effect revoke_effect
      snapshot_effect cache_snapshot complete_control complete_revoke
  desktop_message-registry =
      (ground arith, ground arith, ground arith, ground arith, ground arith, ground arith)

module _ (refusal_text : Refusal → Str) (now : ℕ) (s : AppState) (desktop_id : Str) where
  -- A snapshot, and a request that waits, of a device of another desktop is not touched by it.
  pub desktop_message-others :
      (other device_id request_id : Str) (message : DesktopWsMessage)
      → (desktop_id == other) ≡ false
      → (get (other, device_id) (desktop_message refusal_text now s desktop_id message).0.snapshots
          ≡ get (other, device_id) s.snapshots)
        × (get
              (other, device_id, request_id)
              (desktop_message refusal_text now s desktop_id message).0.control_connections
            ≡ get (other, device_id, request_id) s.control_connections)
        × (get
              (other, device_id, request_id)
              (desktop_message refusal_text now s desktop_id message).0.revoke_connections
            ≡ get (other, device_id, request_id) s.revoke_connections)
  unfolding pair_beq triple_beq desktop_message answer_pairing control_effect revoke_effect
      snapshot_effect cache_snapshot complete_control complete_revoke
  desktop_message-others other device_id request_id (DesktopWsMessage.hello _ _ _ _ _) different =
      ground arith
  desktop_message-others other device_id request_id (DesktopWsMessage.ping _) different =
      ground arith
  desktop_message-others other device_id request_id (DesktopWsMessage.snapshot d snapshot)
        different =
      ground (
        arith,
        different,
        get-insert (desktop_id, d) (other, device_id)
            (record { received_at = now; snapshot = snapshot }) s.snapshots,
      )
  desktop_message-others other device_id request_id (DesktopWsMessage.pairing_response _ _ _)
        different =
      ground arith
  desktop_message-others other device_id request_id (DesktopWsMessage.pairing_error _ _ _)
        different =
      ground arith
  desktop_message-others other device_id request_id (DesktopWsMessage.control_response d response)
        different =
      ground (
        arith,
        different,
        get-remove (desktop_id, d, response.request_id) (other, device_id, request_id)
            s.control_connections,
      )
  desktop_message-others other device_id request_id (DesktopWsMessage.control_error d r _)
        different =
      ground (
        arith,
        different,
        get-remove (desktop_id, d, r) (other, device_id, request_id) s.control_connections,
      )
  desktop_message-others other device_id request_id (DesktopWsMessage.revoke_result d r) different =
      ground (
        arith,
        different,
        get-remove (desktop_id, d, r) (other, device_id, request_id) s.revoke_connections,
      )
  desktop_message-others other device_id request_id (DesktopWsMessage.revoke_error d r _)
        different =
      ground (
        arith,
        different,
        get-remove (desktop_id, d, r) (other, device_id, request_id) s.revoke_connections,
      )
