-- ===== src/Relay/Control/Channels.antt =====
-- What a control request, and an answer, do to the channels of the requests that wait.
pub mod Runs
use chat_x.Prelude.{
  ℕ, ◌≤◌, ◌<◌, ◌⊎◌, ◌≡◌, ◌∙◌, sym, Bool, some, Str, get, insert, ControlRouteKey, triple_eq,
  triple_beq, triple_beq_iff, Result, arith, get-insert, get-remove, Bool-cases, inl, inr,
}
use chat_x.Protocol.Messages.{EncryptedControlPayload}
use chat_x.Relay.State.{AppState, SameRegistration}
use chat_x.Relay.Control.{begin_control, route_control, enter_control, complete_control}

-- A lookup afterwards finds what it found before, or the next number under one key.
abbrev pub Extends : AppState → AppState → ControlRouteKey → Type 0
Extends s t key =
    (k : ControlRouteKey) (c : ℕ)
    → get k t.control_connections ≡ some c
    → (get k s.control_connections ≡ some c)
      ⊎ ((k ≡ key) × (c ≡ s.next_channel) × (c < t.next_channel))

pub begin_control-Extends :
    (now : ℕ) (listens : Bool) (s : AppState) (desktop_id device_id : Str)
    (request : EncryptedControlPayload)
    → Extends s
        (begin_control now listens s desktop_id device_id request).0
        (desktop_id, device_id, request.request_id)
unfolding begin_control route_control enter_control
begin_control-Extends now listens s desktop_id device_id request k c g =
    let key : ControlRouteKey = (desktop_id, device_id, request.request_id) in
    let set = get-insert key k s.next_channel s.control_connections in
    let unset = get-remove key k (insert key s.next_channel s.control_connections) in
    elim (Bool-cases (triple_beq key k)) [
      | inl same ↦
          let named : k ≡ key = sym ((triple_beq_iff key k).0 same) in
          ground (arith, g, set, unset, same, named)
      | inr other ↦ inl (ground (arith, g, set, unset, other))
    ]

pub begin_control-next_channel :
    (now : ℕ) (listens : Bool) (s : AppState) (desktop_id device_id : Str)
    (request : EncryptedControlPayload)
    → s.next_channel ≤ (begin_control now listens s desktop_id device_id request).0.next_channel
unfolding begin_control route_control enter_control
begin_control-next_channel now listens s desktop_id device_id request = ground arith

pub complete_control-Extends :
    (s : AppState) (d v r : Str) (result : Result Str EncryptedControlPayload)
    → Extends s (complete_control s d v r result).0 (d, v, r)
unfolding complete_control
complete_control-Extends s d v r result k c g =
    inl (ground (arith, g, get-remove (d, v, r) k s.control_connections))

pub complete_control-next_channel :
    (s : AppState) (d v r : Str) (result : Result Str EncryptedControlPayload)
    → (complete_control s d v r result).0.next_channel ≡ s.next_channel
unfolding complete_control
complete_control-next_channel s d v r result = ground arith

-- A request touches the waiting requests, the times of the last ones and the next channel's number
-- alone.
pub begin_control-registry :
    (now : ℕ) (listens : Bool) (s : AppState) (desktop_id device_id : Str)
    (request : EncryptedControlPayload)
    → SameRegistration s (begin_control now listens s desktop_id device_id request).0
unfolding begin_control route_control enter_control
begin_control-registry now listens s desktop_id device_id request =
    (ground arith, ground arith, ground arith, ground arith, ground arith, ground arith)
