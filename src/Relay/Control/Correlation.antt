-- ===== src/Relay/Control/Correlation.antt =====
-- A control request: how often a device may send one and how many wait, and what entering and answering
-- one does to the requests that wait.
use chat_x.Prelude.{
  ℕ, ◌-◌, ◌≤◌, ◌<◌, ◌≡◌, Bool, true, false, some, Str, Dict, get, insert, retain, RouteKey,
  ControlRouteKey, pair_eq, triple_eq, pair_beq_iff, length, Result, arith, get-insert,
  get-retain_kept, length-insert, length-remove,
}
use chat_x.Protocol.Messages.{EncryptedControlPayload, DesktopServerMessage}
use chat_x.Relay.State.{AppState, max_pending_controls}
use chat_x.Relay.Control.{
  is_recent, too_soon, rate_limit, begin_control, route_control, enter_control, complete_control,
  waits,
}

-- A request that was let through is the device's last one.
pub rate_limit-recorded :
    (now : ℕ) (key : RouteKey) (values : Dict RouteKey ℕ)
    → (rate_limit now key values).1 ≡ false
    → get key (rate_limit now key values).0 ≡ some now
unfolding rate_limit too_soon
rate_limit-recorded now key values e =
    ground (arith, get-insert key key now (retain (is_recent now) values), pair_beq_iff key key)

pub rate_limit-refused :
    (now at : ℕ) (key : RouteKey) (values : Dict RouteKey ℕ)
    → get key values ≡ some at
    → now - at < 500
    → (rate_limit now key values).1 ≡ true
unfolding rate_limit too_soon
rate_limit-refused now at key values g near =
    ground (arith, get-retain_kept (is_recent now) key at values g)

pub begin_control-limited :
    (now : ℕ) (listens : Bool) (s : AppState) (desktop_id device_id : Str)
    (request : EncryptedControlPayload) (channel : ℕ) (message : DesktopServerMessage)
    → (begin_control now listens s desktop_id device_id request).1 ≡ waits channel message
    → ((rate_limit now (desktop_id, device_id) s.control_last_at).1 ≡ false)
      × ((begin_control now listens s desktop_id device_id request).0.control_last_at
          ≡ (rate_limit now (desktop_id, device_id) s.control_last_at).0)
unfolding begin_control route_control enter_control
begin_control-limited now listens s desktop_id device_id request channel message e =
    (ground arith, ground arith)

-- The requests that wait are at most `MAX_PENDING_CONTROLS`, on every branch.
pub begin_control-capacity :
    (now : ℕ) (listens : Bool) (s : AppState) (desktop_id device_id : Str)
    (request : EncryptedControlPayload)
    → length s.control_connections ≤ max_pending_controls
    → length (begin_control now listens s desktop_id device_id request).0.control_connections
      ≤ max_pending_controls
unfolding begin_control route_control enter_control
begin_control-capacity now listens s desktop_id device_id request bound =
    let key : ControlRouteKey = (desktop_id, device_id, request.request_id) in
    let set = length-insert key s.next_channel s.control_connections in
    let unset = length-remove key (insert key s.next_channel s.control_connections) in
    ground (arith, bound, set, unset)

-- An answer is sent on the channel of its own key, unchanged.
pub complete_control-sent :
    (s : AppState) (d v r : Str) (result : Result Str EncryptedControlPayload) (c : ℕ)
    (x : Result Str EncryptedControlPayload)
    → (complete_control s d v r result).1 ≡ some (c, x)
    → (get (d, v, r) s.control_connections ≡ some c) × (x ≡ result)
unfolding complete_control
complete_control-sent s d v r result c x e = (ground arith, ground arith)

-- A request that waits has the next channel, under its own key.
pub begin_control-entered :
    (now : ℕ) (listens : Bool) (s : AppState) (desktop_id device_id : Str)
    (request : EncryptedControlPayload) (channel : ℕ) (message : DesktopServerMessage)
    → (begin_control now listens s desktop_id device_id request).1 ≡ waits channel message
    → (channel ≡ s.next_channel)
      × ((begin_control now listens s desktop_id device_id request).0.control_connections
          ≡ insert (desktop_id, device_id, request.request_id) s.next_channel s.control_connections)
unfolding begin_control route_control enter_control
begin_control-entered now listens s desktop_id device_id request channel message e =
    (ground arith, ground arith)
