-- ===== src/Relay/DeviceSocket/Sessions.antt =====
-- A phone's session of relay-server/src/device_session.rs: its capabilities, its events and its end.
use chat_x.Prelude.{
  ℕ, ◌≡◌, ◌⊎◌, ◌∙◌, refl, true, false, ◌||◌, Bool, Option, none, some, Bool-cases, inl, inr, List,
  [], ◌∷◌, Str, remove, str_eq, str_beq, str_beq_iff, any, ok, arith, get-insert, get-remove,
}
use chat_x.Protocol.Messages.{
  DeviceServerMessage, DeviceWsMessage, capability_control_refresh, capability_control_reconnect,
  capability_revoke_sync, device_capabilities,
}
use chat_x.Relay.Registry.{DesktopRecord}
use chat_x.Relay.State.{
  AppState, SameRegistration, DesktopRoute, includes, routed_device_capabilities, routed_loop,
  route_supports_control, route_supports_revoke, device_exists, has_device,
}
use chat_x.Relay.Reply.{Refusal}
use chat_x.Relay.Grants.{check_revoke, revoke_device, commit_devices, forget_device}
use chat_x.Relay.DeviceSocket.{
  DeviceEvent, DeviceEffect, incoming, routed, device_round, device_loop, leaves, last,
  device_event, device_message, control_step, revoke_step,
}
use chat_x.Relay.Control
use chat_x.Relay.Revoke
use chat_x.Relay.Snapshots.{latest_snapshot}
use chat_x.Relay.Control.{ControlStep, begin_control}
use chat_x.Relay.Control.Channels.{begin_control-registry}
use chat_x.Relay.Revoke.{RevokeStep, begin_revoke}
use chat_x.Relay.Revoke.Acknowledged.{begin_revoke-registry}

any-or :
    (p q : Str) (names : List Str)
    → any (λ c. str_beq c p || str_beq c q) names ≡ (includes p names || includes q names)
any-or p q [] = ground arith
any-or p q (name ∷ names) = ground (arith, any-or p q names)

-- A phone is told that it may control its desktop exactly where the relay would pass its control
-- requests on, and that it may revoke itself exactly where the relay would pass that on.
pub routed_device_capabilities-supports :
    (route : DesktopRoute)
    → ((includes capability_control_refresh (routed_device_capabilities (some route))
          || includes capability_control_reconnect (routed_device_capabilities (some route)))
        ≡ route_supports_control route)
      × (includes capability_revoke_sync (routed_device_capabilities (some route))
          ≡ route_supports_revoke route)
unfolding routed_device_capabilities routed_loop route_supports_control route_supports_revoke
    device_capabilities str_beq
routed_device_capabilities-supports route = (
  ground (arith, any-or capability_control_refresh capability_control_reconnect route.capabilities),
  ground arith,
)

module _ (digest : Str → Str) where
  revoke_device-device_exists :
      (s : AppState) (desktop_id device_id : Str) (authorization : Option Str)
      (desktop : DesktopRecord)
      → check_revoke digest s desktop_id authorization ≡ ok desktop
      → device_exists
          (revoke_device digest true s desktop_id device_id authorization).0
          desktop_id
          device_id
        ≡ false
  unfolding revoke_device commit_devices forget_device device_exists has_device
  revoke_device-device_exists s desktop_id device_id authorization desktop passed =
      let devices = remove device_id desktop.devices in
      ground (
        arith,
        passed,
        get-insert desktop_id desktop_id (record desktop { devices = devices }) s.registry.desktops,
        get-remove device_id device_id desktop.devices,
        str_beq_iff desktop_id desktop_id,
        str_beq_iff device_id device_id,
      )

  device_exists-registry :
      (s t : AppState) (desktop_id device_id : Str)
      → s.registry ≡ t.registry
      → device_exists s desktop_id device_id ≡ device_exists t desktop_id device_id
  unfolding device_exists
  device_exists-registry s t desktop_id device_id same = rw same refl

  -- Once a desktop's revocation of a device is saved, the device's open socket, whichever of its rounds it
  -- is in, handles at most the event that it was waiting for: either this ends the loop, or the next test of
  -- the registration does, with the message of the revocation, whatever event comes there; where the socket
  -- was not waiting, its test is the next thing that it does. `later` is any state with the registry that the
  -- revocation left.
  pub revoke_device-device_loop :
      (refusal_text : Refusal → Str) (s tested found later elsewhere : AppState) (now next : ℕ)
      (desktop_id device_id : Str) (authorization : Option Str) (desktop : DesktopRecord)
      (event other : DeviceEvent) (more : List (AppState × ℕ × AppState × DeviceEvent))
      → check_revoke digest s desktop_id authorization ≡ ok desktop
      → later.registry ≡ (revoke_device digest true s desktop_id device_id authorization).0.registry
      → (device_loop refusal_text desktop_id device_id ((later, next, elsewhere, other) ∷ more)
          ≡ last (DeviceServerMessage.revoked device_id) ∷ [])
        × ((effect : DeviceEffect) × ((device_loop refusal_text desktop_id device_id
                  ((tested, now, found, event) ∷ (later, next, elsewhere, other) ∷ more)
                ≡ effect ∷ [])
              ⊎ (device_loop refusal_text desktop_id device_id
                    ((tested, now, found, event) ∷ (later, next, elsewhere, other) ∷ more)
                  ≡ effect ∷ last (DeviceServerMessage.revoked device_id) ∷ [])))
  unfolding device_loop device_round leaves
  revoke_device-device_loop refusal_text s tested found later elsewhere now next desktop_id
        device_id authorization desktop event other more passed kept =
      let gone = revoke_device-device_exists s desktop_id device_id authorization desktop passed in
      let absent : device_exists later desktop_id device_id ≡ false =
        device_exists-registry later _ desktop_id device_id kept ∙ gone in
      let ended : device_loop refusal_text desktop_id device_id
            ((later, next, elsewhere, other) ∷ more)
          ≡ last (DeviceServerMessage.revoked device_id) ∷ [] =
        rw (absent, device_loop, device_round) refl in
      let effect = (device_round refusal_text now tested found desktop_id device_id event).1 in
      (
        ended,
        (
          effect,
          elim (Bool-cases (leaves refusal_text effect)) [
            | inl out ↦ inl (rw out refl)
            | inr on ↦ inr (rw (on, ended) refl)
          ],
        ),
      )

module _ (refusal_text : Refusal → Str) (now : ℕ) (s : AppState) (desktop_id device_id : Str) where
  control_step-registry :
      (outcome : AppState × ControlStep)
      → SameRegistration s outcome.0
      → SameRegistration s (control_step outcome).0
  unfolding control_step
  control_step-registry (t, Control.refuses _) h = h
  control_step-registry (t, Control.waits _ _) h = h

  revoke_step-registry :
      (outcome : AppState × RevokeStep)
      → SameRegistration s outcome.0
      → SameRegistration s (revoke_step refusal_text outcome).0
  unfolding revoke_step
  revoke_step-registry (t, Revoke.refuses _) h = h
  revoke_step-registry (t, Revoke.waits _ _ _) h = h

  device_message-registry :
      (listens : Bool) (random : Option Str) (message : Option DeviceWsMessage)
      → SameRegistration s
          (device_message refusal_text now listens random s desktop_id device_id message).0
  unfolding device_message
  device_message-registry listens random none = (refl, refl, refl, refl, refl, refl)
  device_message-registry listens random (some (DeviceWsMessage.hello _ _ _)) =
      (refl, refl, refl, refl, refl, refl)
  device_message-registry listens random (some (DeviceWsMessage.ping _)) =
      (refl, refl, refl, refl, refl, refl)
  device_message-registry listens random (some DeviceWsMessage.revoke_self) =
      revoke_step-registry _ (begin_revoke-registry listens random s desktop_id device_id).0
  device_message-registry listens random (some (DeviceWsMessage.control request)) =
      control_step-registry _ (begin_control-registry now listens s desktop_id device_id request)

  -- Whatever a phone sends, and whatever else its socket's loop meets, an event changes neither the registry
  -- in memory and the one saved last, nor who is online and on which channel, nor a pairing route or a gateway
  -- session.
  device_event-registry :
      (event : DeviceEvent)
      → SameRegistration s (device_event refusal_text now s desktop_id device_id event).0
  unfolding device_event latest_snapshot
  device_event-registry (incoming listens random message) =
      device_message-registry listens random message
  device_event-registry (routed _) = (refl, refl, refl, refl, refl, refl)
  device_event-registry _ = (refl, refl, refl, refl, refl, refl)
