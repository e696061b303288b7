-- ===== src/Relay/Gateway/Admission.antt =====
-- Admission of sockets and requests, and their number: relay-server/src/mcp_gateway.rs.
use chat_x.Prelude.{
  ℕ, ◌≤◌, ◌≡◌, ap, ◌∙◌, Bool, true, not, Option, none, some, List, [], ◌∷◌, Str, get, insert,
  str_eq, str_beq_iff, ◌==◌, length, arith, length-insert, length-insert_present, length-remove,
  length-retain, Option-cases, Bool-cases, inl, inr, ok,
}
use chat_x.Protocol.Http.{allowed_path}
use chat_x.Protocol.Stream.{max_inflight}
use chat_x.Relay.Registry.{DesktopRecord, token_hash, hash_matches, hash_matches_iff}
use chat_x.Relay.State.{AppState, Gateway, Active, Pending, desktop_authorized, matches_desktop}
use chat_x.Relay.Gateway.{
  disconnect, install, revoke_desktop, fail_session, retire, retire_previous, recheck,
  is_credential, selected_record, is_selected,
}
use chat_x.Relay.Gateway.Packets.{Packet, receive, deliver}
use chat_x.Relay.Gateway.Requests.{
  PublicCall, allowed_method, check_request, enter_request, enqueue, drop_guard, websocket,
  credential, plain_bearer, new_pending,
}
use chat_x.Relay.Gateway.Replies.{receive-cases}
use chat_x.Relay.Gateway.Sessions.{recheck-registered}
use chat_x.Relay.Gateway.Streams.{
  GatewayEvent, receives, disconnects, installs, revokes, enters, drops, gateway_step, gateway_run,
}

length-fail_session :
    (session_id : Str) (g : Gateway) → length (fail_session session_id g).pending ≤ length g.pending
unfolding fail_session
length-fail_session session_id g =
    length-retain (λ _ (item : Pending). not (item.session_id == session_id)) g.pending

length-disconnect :
    (session_id : Str) (g : Gateway) → length (disconnect session_id g).pending ≤ length g.pending
unfolding disconnect
length-disconnect session_id g = ground (
  arith,
  length-fail_session session_id g,
  length-fail_session session_id (record g { active = none }),
)

length-install :
    (active : Active) (g : Gateway) → length (install active g).pending ≤ length g.pending
unfolding install retire_previous
length-install active g = elim (Option-cases g.active) [
  | inl idle ↦ ground (arith, idle)
  | inr (previous, busy) ↦ ground (
    arith,
    busy,
    length-fail_session previous.session_id
        (record g { active = some active; closed = previous.session_id ∷ g.closed }),
  )
]

length-revoke_desktop :
    (id : Str) (g : Gateway) → length (revoke_desktop id g).pending ≤ length g.pending
unfolding revoke_desktop retire
length-revoke_desktop id g = elim (Option-cases g.active) [
  | inl idle ↦ ground (arith, idle)
  | inr (active, busy) ↦ ground (
    arith,
    busy,
    length-fail_session active.session_id
        (record g { active = none; closed = active.session_id ∷ g.closed }),
  )
]

module _ (base64_decode : Str → Option Str) (base64_encode : Str → Str) where
  length-receive :
      (fits : Bool) (session_id : Str) (version : ℕ) (packet : Option Packet) (binary : Option Str)
      (g : Gateway)
      → length (receive base64_decode fits session_id version packet binary g).0.pending
        ≤ length g.pending
  unfolding deliver
  length-receive fits session_id version packet binary g =
      elim (receive-cases base64_decode fits session_id version packet binary g) [
        | inl nothing ↦ rw nothing (omega arith)
        | inr (id, item, (reply, bytes), found, owner, replied, does) ↦
            let kept =
              length-insert_present id item (record item { bytes = bytes }) g.pending found in
            rw does (ground (arith, kept, length-remove id g.pending))
      ]

  length-enter_request :
      (taken : Bool) (active : Active) (call : PublicCall) (g : Gateway)
      → length g.pending ≤ max_inflight
      → length (enter_request base64_encode taken active call g).0.pending ≤ max_inflight
  unfolding enter_request enqueue
  length-enter_request taken active call g bound = elim (Option-cases call.random) [
    | inl failed ↦ ground (arith, failed, bound)
    | inr (id, drawn) ↦
        let set = length-insert id (new_pending active) g.pending in
        let unset = length-remove id (insert id (new_pending active) g.pending) in
        ground (arith, drawn, bound, set, unset)
  ]

  gateway_step-capacity :
      (event : GatewayEvent) (g : Gateway)
      → length g.pending ≤ max_inflight
      → length (gateway_step base64_decode base64_encode g event).0.pending ≤ max_inflight
  unfolding gateway_step drop_guard
  gateway_step-capacity (receives fits session_id version packet binary) g bound =
      omega (arith, length-receive fits session_id version packet binary g)
  gateway_step-capacity (disconnects session_id) g bound =
      omega (arith, length-disconnect session_id g)
  gateway_step-capacity (installs active) g bound = omega (arith, length-install active g)
  gateway_step-capacity (revokes id) g bound = omega (arith, length-revoke_desktop id g)
  gateway_step-capacity (enters taken active call) g bound =
      length-enter_request taken active call g bound
  gateway_step-capacity (drops finished id) g bound = omega (arith, length-remove id g.pending)

  -- However requests, packets and sessions come and go, at most `MAX_INFLIGHT` requests wait.
  pub gateway_run-capacity :
      (events : List GatewayEvent) (g : Gateway)
      → length g.pending ≤ max_inflight
      → length (gateway_run base64_decode base64_encode g events).0.pending ≤ max_inflight
  unfolding gateway_run
  gateway_run-capacity [] g bound = bound
  gateway_run-capacity (event ∷ events) g bound =
      gateway_run-capacity events (gateway_step base64_decode base64_encode g event).0
        (gateway_step-capacity event g bound)

-- A public request gets to the desktop only on a path and with a method of the policy, over the active
-- session, and only while that session's credential is the registered one of the gateway's own desktop;
-- the test changes nothing then.
pub check_request-ok :
    (s s' : AppState) (call : PublicCall) (active : Active)
    → check_request s call ≡ (s', ok active)
    → (s' ≡ s)
      × (allowed_path call.path ≡ true)
      × (allowed_method call.method ≡ true)
      × (s.mcp_gateway.active ≡ some active)
      × ((id : Str) × (desktop : DesktopRecord) × (s.mcp_gateway.desktop_id ≡ some id)
          × (get id s.registry.desktops ≡ some desktop)
          × (desktop.token_hash ≡ active.credential_hash))
unfolding check_request
check_request-ok s s' call active e = elim (Option-cases s.mcp_gateway.active) [
  | inl idle ↦ absurd (ground (arith, e, idle))
  | inr (current, busy) ↦ elim (Bool-cases (recheck current.credential_hash s).1) [
    | inr rotated ↦ absurd (ground (arith, e, busy, rotated))
    | inl good ↦
        let (id, desktop, selected, found, same, _) =
          recheck-registered current.credential_hash s good in
        let own : current ≡ active = ground (arith, e, busy, good, selected) in
        (
          ground (arith, e, busy, good, selected),
          ground (arith, e, busy, good, selected),
          ground (arith, e, busy, good, selected),
          busy ∙ ap some own,
          (id, desktop, selected, found, same ∙ ap (λ (a : Active). a.credential_hash) own),
        )
  ]
]

-- A socket is upgraded only for the gateway's own desktop and with its registered token: the hash that the
-- session carries is the registered one, so that the test after the handshake lets the session go on as
-- long as the registry stays.
pub websocket-recheck :
    (digest : Str → Str) (s : AppState) (desktop_id hash : Str) (authorization : Option Str)
    → websocket digest s desktop_id authorization ≡ ok hash
    → (s.mcp_gateway.desktop_id ≡ some desktop_id) × (recheck hash s ≡ (s, true))
unfolding websocket credential desktop_authorized matches_desktop recheck is_credential
    selected_record is_selected
websocket-recheck digest s desktop_id hash authorization e =
    elim (Option-cases s.mcp_gateway.desktop_id) [
      | inl unset ↦ absurd (ground (arith, e, unset))
      | inr (id, selected) ↦ elim (Option-cases (plain_bearer authorization)) [
        | inl missing ↦ absurd (ground (arith, e, selected, missing))
        | inr (token, given) ↦ elim (Option-cases (get desktop_id s.registry.desktops)) [
          | inl absent ↦ absurd (ground (arith, e, selected, given, absent))
          | inr (desktop, found) ↦
              let itself : id ≡ desktop_id =
                ground (arith, e, selected, given, str_beq_iff id desktop_id) in
              let matches : hash_matches digest token desktop.token_hash ≡ true =
                ground (arith, e, selected, given, found) in
              let own = (hash_matches_iff digest token desktop.token_hash).0 matches in
              let carried : token_hash digest token ≡ hash =
                ground (arith, e, selected, given, found) in
              let test = str_beq_iff desktop.token_hash hash in
              (
                selected ∙ ap some itself,
                ground (arith, selected, itself, found, own, carried, test),
              )
        ]
      ]
    ]
