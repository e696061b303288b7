-- ===== src/Relay/Control/Channels/Runs.antt =====
-- Sequences of control requests, answers and ends, of any desktops and devices, and of anything else that
-- happens to the relay in between: the steps of Relay.Control in any order.
use chat_x.Prelude.{
  ℕ, ◌+◌, ◌≤◌, ◌<◌, ◌≡◌, ap, Bool, Option, none, some, List, [], ◌∷◌, Str, get, ControlRouteKey,
  triple_eq, Result, arith, get-remove, get-insert, insert, triple_beq_iff, inl, inr,
}
use chat_x.Protocol.Messages.{EncryptedControlPayload, DesktopServerMessage}
use chat_x.Relay.State.{AppState}
use chat_x.Relay.Control.{begin_control, complete_control, finish_control, waits}
use chat_x.Relay.Control.Correlation.{begin_control-entered, complete_control-sent}
use chat_x.Relay.Control.Channels.{
  Extends, begin_control-Extends, begin_control-next_channel, complete_control-Extends,
  complete_control-next_channel,
}

-- `elsewhere` puts any other state around the waiting requests, and may have made channels.
pub data ControlEvent : Type 0 where
  begins : ℕ → Bool → Str → Str → EncryptedControlPayload → ControlEvent
  completes : Str → Str → Str → Result Str EncryptedControlPayload → ControlEvent
  finishes : ControlRouteKey → Option (Result Str EncryptedControlPayload) → ControlEvent
  elsewhere : AppState → ControlEvent

unfoldable pub control_after : AppState → ControlEvent → AppState
control_after s (begins now listens desktop_id device_id request) =
    (begin_control now listens s desktop_id device_id request).0
control_after s (completes d v r result) = (complete_control s d v r result).0
control_after s (finishes key result) = (finish_control s key result).0
control_after s (elsewhere t) = record t {
  control_connections = s.control_connections;
  next_channel = s.next_channel + t.next_channel;
}

unfoldable pub control_run : AppState → List ControlEvent → AppState
control_run s [] = s
control_run s (event ∷ events) = control_run (control_after s event) events

-- A step adds at most the next channel, under one key.
control_after-Extends :
    (s : AppState) (event : ControlEvent)
    → (key : ControlRouteKey) × Extends s (control_after s event) key
      × (s.next_channel ≤ (control_after s event).next_channel)
unfolding control_after finish_control
control_after-Extends s (begins now listens desktop_id device_id request) = (
  (desktop_id, device_id, request.request_id),
  begin_control-Extends now listens s desktop_id device_id request,
  begin_control-next_channel now listens s desktop_id device_id request,
)
control_after-Extends s (completes d v r result) = (
  (d, v, r),
  complete_control-Extends s d v r result,
  omega (arith, complete_control-next_channel s d v r result),
)
control_after-Extends s (finishes key result) =
    (key, (λ k c g. inl (ground (arith, g, get-remove key k s.control_connections))), omega arith)
control_after-Extends s (elsewhere t) = (([], [], []), (λ k c g. inl g), omega arith)

-- Every channel of a waiting request was made before.
abbrev pub IsBelow : AppState → Type 0
IsBelow s =
    (k : ControlRouteKey) (c : ℕ) → get k s.control_connections ≡ some c → c < s.next_channel

control_run-IsBelow :
    (s : AppState) (events : List ControlEvent) → IsBelow s → IsBelow (control_run s events)
unfolding control_run
control_run-IsBelow s [] below = below
control_run-IsBelow s (event ∷ events) below =
    let (key, grows, next) = control_after-Extends s event in
    control_run-IsBelow (control_after s event) events (λ k c g. elim (grows k c g) [
      | inl old ↦ omega (arith, next, below k c old)
      | inr new ↦ new.2
    ])

-- A channel that is made, and belongs to one key alone.
abbrev Owned : ControlRouteKey → ℕ → AppState → Type 0
Owned key channel s =
    (channel < s.next_channel)
    × ((k : ControlRouteKey) → get k s.control_connections ≡ some channel → k ≡ key)

control_run-Owned :
    (key : ControlRouteKey) (channel : ℕ) (s : AppState) (events : List ControlEvent)
    → Owned key channel s
    → Owned key channel (control_run s events)
unfolding control_run
control_run-Owned key channel s [] own = own
control_run-Owned key channel s (event ∷ events) own =
    let (key', grows, next) = control_after-Extends s event in
    control_run-Owned key channel (control_after s event) events (
      omega (arith, next, own.0),
      λ k g. elim (grows k channel g) [
        | inl old ↦ own.1 k old
        | inr new ↦ absurd (omega (arith, own.0, new.1))
      ],
    )

begin_control-Owned :
    (now : ℕ) (listens : Bool) (s : AppState) (desktop_id device_id : Str)
    (request : EncryptedControlPayload) (channel : ℕ) (message : DesktopServerMessage)
    → IsBelow s
    → (begin_control now listens s desktop_id device_id request).1 ≡ waits channel message
    → Owned
        (desktop_id, device_id, request.request_id)
        channel
        (begin_control now listens s desktop_id device_id request).0
begin_control-Owned now listens s desktop_id device_id request channel message below e =
    let key : ControlRouteKey = (desktop_id, device_id, request.request_id) in
    let grows = begin_control-Extends now listens s desktop_id device_id request in
    let entered =
      begin_control-entered now listens s desktop_id device_id request channel message e in
    let fresh : (k : ControlRouteKey) → ¬ get k s.control_connections ≡ some channel =
      λ k old. omega (arith, below k channel old, entered.0) in
    let set : get key (insert key s.next_channel s.control_connections) ≡ some channel = ground (
      arith,
      get-insert key key s.next_channel s.control_connections,
      triple_beq_iff key key,
      entered.0,
    ) in
    let own : get key
          (begin_control now listens s desktop_id device_id request).0.control_connections
        ≡ some channel =
      rw entered.1 set in
    (
      elim (grows key channel own) [ inl old ↦ absurd (fresh key old) | inr new ↦ new.2 ],
      λ k g. elim (grows k channel g) [ inl old ↦ absurd (fresh k old) | inr new ↦ new.0 ],
    )

none_waits : (s : AppState) → s.control_connections ≡ [] → IsBelow s
unfolding get
none_waits s idle k c g =
    let missing : get k s.control_connections ≡ none = ap (get k) idle in ground (arith, missing, g)

-- From a relay where no request waits, through any requests, answers and ends of any desktops and devices:
-- once a device's request waits on a channel, an answer reaches that channel, at any later time, only if
-- it names the same desktop, device and request, and reaches it unchanged.
pub control_run-addressee :
    (s : AppState) (before between : List ControlEvent) (now : ℕ) (listens : Bool)
    (desktop_id device_id : Str) (request : EncryptedControlPayload) (channel : ℕ)
    (message : DesktopServerMessage) (d v r : Str) (result x : Result Str EncryptedControlPayload)
    → s.control_connections ≡ []
    → (begin_control now listens (control_run s before) desktop_id device_id request).1
      ≡ waits channel message
    → (complete_control
        (control_run
          (begin_control now listens (control_run s before) desktop_id device_id request).0
          between)
        d
        v
        r
        result).1
      ≡ some (channel, x)
    → (◌≡◌ {A = ControlRouteKey} (d, v, r) (desktop_id, device_id, request.request_id))
      × (x ≡ result)
control_run-addressee s before between now listens desktop_id device_id request channel message d v
      r result x idle e sent =
    let t = control_run s before in
    let below = control_run-IsBelow s before (none_waits s idle) in
    let own =
      control_run-Owned (desktop_id, device_id, request.request_id) channel _ between
        (begin_control-Owned now listens t desktop_id device_id request channel message below e) in
    let found =
      complete_control-sent
        (control_run (begin_control now listens t desktop_id device_id request).0 between) d v r
        result channel x sent in
    (own.1 (d, v, r) found.0, found.1)
