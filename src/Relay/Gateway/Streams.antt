-- ===== src/Relay/Gateway/Streams.antt =====
-- The gateway's requests through any sequence of packets, session changes and other requests: the
-- operations of Relay.Gateway, Relay.Gateway.Packets and Relay.Gateway.Requests in any order.
use chat_x.Prelude.{
  ℕ, ◌≡◌, ◌≢◌, refl, Bool, true, false, not, ◌||◌, Option, none, some, List, [], ◌∷◌, ◌++◌, Str,
  Dict, get, insert, str_eq, str_beq, str_beq_iff, ◌==◌, any, is_some, arith, get-insert,
  get-remove, get-retain_kept, Option-cases, Bool-cases, inl, inr, if◌then◌else◌, All,
}
use chat_x.Relay.State.{Gateway, Active, Pending, includes}
use chat_x.Relay.Gateway.{disconnect, install, revoke_desktop, fail_session, keys_of, is_current}
use chat_x.Relay.Gateway.Packets.{Packet, Reply, receive, deliver, finishes, fails}
use chat_x.Relay.Gateway.Requests.{PublicCall, enter_request, enqueue, drop_guard, new_pending}
use chat_x.Relay.Gateway.Replies.{receive-cases, deliver-get}

-- What happens to the gateway between two looks at a request.
pub data GatewayEvent : Type 0 where
  receives : Bool → Str → ℕ → Option Packet → Option Str → GatewayEvent
  disconnects : Str → GatewayEvent
  installs : Active → GatewayEvent
  revokes : Str → GatewayEvent
  enters : Bool → Active → PublicCall → GatewayEvent
  drops : Bool → Str → GatewayEvent

module _ (base64_decode : Str → Option Str) (base64_encode : Str → Str) where
  unfoldable pub gateway_step : Gateway → GatewayEvent → Gateway × Option (Str × Reply)
  gateway_step g (receives fits session_id version packet binary) =
      receive base64_decode fits session_id version packet binary g
  gateway_step g (disconnects session_id) = (disconnect session_id g, none)
  gateway_step g (installs active) = (install active g, none)
  gateway_step g (revokes desktop_id) = (revoke_desktop desktop_id g, none)
  gateway_step g (enters taken active call) =
      ((enter_request base64_encode taken active call g).0, none)
  gateway_step g (drops finished request_id) = ((drop_guard finished request_id g).0, none)

  -- The gateway afterwards, and the replies that the requests' queues took.
  unfoldable pub gateway_run : Gateway → List GatewayEvent → Gateway × List (Option (Str × Reply))
  gateway_run g [] = (g, [])
  gateway_run g (event ∷ events) =
      let (g', sent) = gateway_step g event in
      let (last, more) = gateway_run g' events in (last, sent ∷ more)

abbrev pub is_end_of : Str → Option (Str × Reply) → Bool
is_end_of id none = false
is_end_of id (some (j, Reply.end)) = j == id
is_end_of id (some (j, _)) = false

-- A request that waits or is flagged as an error.
abbrev pub held : Str → Gateway → Bool
held id g = is_some (get id g.pending) || includes id g.errored

-- The request's own reader stays, and no new request is given its random id.
abbrev pub IsForeign : Str → GatewayEvent → Type 0
IsForeign id (drops finished request_id) = (request_id == id) ≡ false
IsForeign id (enters taken active call) = call.random ≢ some id
IsForeign id _ = Unit

any-append {ℓ} :
    {A : Type ℓ} (p : A → Bool) (xs ys : List A) → any p (xs ++ ys) ≡ (any p xs || any p ys)
any-append p [] ys = refl
any-append p (x ∷ xs) ys = ground (arith, any-append p xs ys)

includes-keys_of :
    (session_id id : Str) (item : Pending) (pending : Dict Str Pending)
    → get id pending ≡ some item
    → (item.session_id == session_id) ≡ true
    → includes id (keys_of session_id pending) ≡ true
unfolding get keys_of
includes-keys_of session_id id item [] found same = cc
includes-keys_of session_id id item ((j, v) ∷ pending) found same =
    ground (arith, found, same, includes-keys_of session_id id item pending)

-- A session's failure flags each of its requests that it drops.
fail_session-held :
    (session_id id : Str) (g : Gateway)
    → held id g ≡ true
    → held id (fail_session session_id g) ≡ true
unfolding fail_session
fail_session-held session_id id g before =
    let flags = any-append (λ value. value == id) (keys_of session_id g.pending) g.errored in
    elim (Option-cases (get id g.pending)) [
      | inl absent ↦ ground (arith, before, absent, flags)
      | inr (item, found) ↦ elim (Bool-cases (str_beq item.session_id session_id)) [
        | inl own ↦ ground (arith, flags, includes-keys_of session_id id item g.pending found own)
        | inr other ↦
            let kept =
              get-retain_kept (λ _ item. not (item.session_id == session_id)) id item g.pending
                found (ground (arith, other)) in
            ground (arith, kept)
      ]
    ]

disconnect-held :
    (session_id id : Str) (g : Gateway)
    → held id g ≡ true
    → held id (disconnect session_id g) ≡ true
unfolding disconnect
disconnect-held session_id id g before =
    fail_session-held session_id id
      (if is_current session_id g.active then record g { active = none } else g)
      (ground (arith, before))

install-held :
    (active : Active) (id : Str) (g : Gateway)
    → held id g ≡ true
    → held id (install active g) ≡ true
unfolding install
install-held active id g before = elim (Option-cases g.active) [
  | inl idle ↦ ground (arith, before, idle)
  | inr (previous, busy) ↦
      let held' =
        fail_session-held previous.session_id id
          (record g { active = some active; closed = previous.session_id ∷ g.closed }) before in
      ground (arith, busy, held')
]

revoke_desktop-held :
    (desktop_id id : Str) (g : Gateway)
    → held id g ≡ true
    → held id (revoke_desktop desktop_id g) ≡ true
unfolding revoke_desktop
revoke_desktop-held desktop_id id g before = elim (Option-cases g.active) [
  | inl idle ↦ ground (arith, before, idle)
  | inr (active, busy) ↦
      let held' =
        fail_session-held active.session_id id
          (record g { active = none; closed = active.session_id ∷ g.closed }) before in
      ground (arith, busy, held')
]

drop_guard-held :
    (finished : Bool) (request_id id : Str) (g : Gateway)
    → (request_id == id) ≡ false
    → held id g ≡ true
    → held id (drop_guard finished request_id g).0 ≡ true
unfolding drop_guard
drop_guard-held finished request_id id g other before =
    ground (arith, other, before, get-remove request_id id g.pending)

module _ (base64_decode : Str → Option Str) (base64_encode : Str → Str) where
  enter_request-held :
      (taken : Bool) (active : Active) (call : PublicCall) (id : Str) (g : Gateway)
      → call.random ≢ some id
      → held id g ≡ true
      → held id (enter_request base64_encode taken active call g).0 ≡ true
  unfolding enter_request enqueue
  enter_request-held taken active call id g fresh before = elim (Option-cases call.random) [
    | inl failed ↦ ground (arith, failed, before)
    | inr (request_id, drawn) ↦
        let pending = insert request_id (new_pending active) g.pending in
        ground (
          arith,
          drawn,
          before,
          fresh,
          str_beq_iff request_id id,
          get-insert request_id id (new_pending active) g.pending,
          get-remove request_id id pending,
        )
  ]

  -- A packet drops a request only with its `End` or its error flag.
  receive-held :
      (fits : Bool) (session_id : Str) (version : ℕ) (packet : Option Packet) (binary : Option Str)
      (id : Str) (g : Gateway)
      → held id g ≡ true
      → (held id (receive base64_decode fits session_id version packet binary g).0
          || is_end_of id (receive base64_decode fits session_id version packet binary g).1)
        ≡ true
  unfolding deliver finishes fails
  receive-held fits session_id version packet binary id g before =
      elim (receive-cases base64_decode fits session_id version packet binary g) [
        | inl nothing ↦ rw nothing (ground (arith, before))
        | inr (id', item, (reply, bytes), found, owner, replied, does) ↦ rw does (
            ground (
              arith,
              before,
              found,
              str_beq_iff id' id,
              deliver-get fits id' item g (reply, bytes) id,
            ))
      ]

  gateway_step-held :
      (event : GatewayEvent) (id : Str) (g : Gateway)
      → IsForeign id event
      → held id g ≡ true
      → (held id (gateway_step base64_decode base64_encode g event).0
          || is_end_of id (gateway_step base64_decode base64_encode g event).1)
        ≡ true
  unfolding gateway_step
  gateway_step-held (receives fits session_id version packet binary) id g foreign before =
      receive-held fits session_id version packet binary id g before
  gateway_step-held (disconnects session_id) id g foreign before =
      ground (arith, disconnect-held session_id id g before)
  gateway_step-held (installs active) id g foreign before =
      ground (arith, install-held active id g before)
  gateway_step-held (revokes desktop_id) id g foreign before =
      ground (arith, revoke_desktop-held desktop_id id g before)
  gateway_step-held (enters taken active call) id g foreign before =
      ground (arith, enter_request-held taken active call id g foreign before)
  gateway_step-held (drops finished request_id) id g foreign before =
      ground (arith, drop_guard-held finished request_id id g foreign before)

  -- No request is cut off silently: whatever packets of whatever sessions arrive, however sessions and
  -- other requests come and go, a request that waits or is flagged at first still waits at last, or has its error
  -- flag set, or its queue took an `End`.
  pub gateway_run-held :
      (events : List GatewayEvent) (id : Str) (g : Gateway)
      → All (IsForeign id) events
      → held id g ≡ true
      → (held id (gateway_run base64_decode base64_encode g events).0
          || any (is_end_of id) (gateway_run base64_decode base64_encode g events).1)
        ≡ true
  unfolding gateway_run
  gateway_run-held [] id g foreign before = ground (arith, before)
  gateway_run-held (event ∷ events) id g foreign before =
      let next = (gateway_step base64_decode base64_encode g event).0 in
      elim (Bool-cases (held id next)) [
        | inl still ↦ ground (arith, gateway_run-held events id next foreign.1 still)
        | inr gone ↦ ground (arith, gone, gateway_step-held event id g foreign.0 before)
      ]
