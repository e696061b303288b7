-- ===== src/Relay/Gateway/Replies.antt =====
-- The replies that a packet leads to: their request, their size and their order, in `Gateway::receive`.
use chat_x.Prelude.{
  ℕ, ◌≤◌, ◌⊎◌, ◌≡◌, ◌≢◌, sym, ap, ◌∙◌, Bool, true, not, ◌||◌, nat_beq, all, Option, none, some, Str,
  get, str_eq, str_beq, str_beq_iff, ◌==◌, arith, get-insert, get-remove, Option-cases, Bool-cases,
  inl, inr, if◌then◌else◌, length,
}
use chat_x.Protocol.Stream.{Kind, max_response_bytes}
use chat_x.Text.{is_ascii_hexdigit}
use chat_x.Relay.State.{Gateway, Pending}
use chat_x.Relay.Gateway.Packets.{
  Packet, Reply, count_bytes, legacy_chunk, legacy_data, head_reply, control_reply, kind_of,
  reply_of, finishes, deliver, answer, receive_id, receive, id_of, decoded_of,
}

module _ (fits : Bool) (id : Str) (item : Pending) (g : Gateway) (outcome : Reply × ℕ) where
  pub deliver-get :
      (j : Str)
      → get j (deliver fits id item g outcome).0.pending ≡ (
          if id == j
          then (if finishes outcome.0 || not fits
              then none
              else some (record item { bytes = outcome.1 }))
          else get j g.pending)
  unfolding deliver
  deliver-get j = ground (
    arith,
    get-remove id j g.pending,
    get-insert id j (record item { bytes = outcome.1 }) g.pending,
  )

  deliver-sent :
      (j : Str) (reply : Reply)
      → (deliver fits id item g outcome).1 ≡ some (j, reply)
      → (id ≡ j) × (outcome.0 ≡ reply)
  unfolding deliver
  deliver-sent j reply e = (ground (arith, e), ground (arith, e))

reply_of-bytes :
    (base64_decode : Str → Option Str) (version bytes : ℕ) (packet : Option Packet)
    (decoded : Option (Kind × Str × Str)) (reply : Reply) (after : ℕ)
    → bytes ≤ max_response_bytes
    → reply_of base64_decode version bytes packet decoded ≡ some (reply, after)
    → after ≤ max_response_bytes
unfolding reply_of count_bytes control_reply kind_of head_reply legacy_data legacy_chunk
reply_of-bytes base64_decode version bytes packet decoded reply after bound e =
    ground (arith, bound, e)

module _ (base64_decode : Str → Option Str) (fits : Bool) (session_id : Str) (version : ℕ)
    (packet : Option Packet) (binary : Option Str) where
  -- What a packet does: nothing, or the delivery of one reply to a request of the packet's session.
  pub receive-cases :
      (g : Gateway)
      → (receive base64_decode fits session_id version packet binary g ≡ (g, none))
        ⊎ ((id : Str) × (item : Pending) × (outcome : Reply × ℕ) × (get id g.pending ≡ some item)
            × (item.session_id ≡ session_id)
            × (reply_of base64_decode version item.bytes packet (decoded_of binary) ≡ some outcome)
            × (receive base64_decode fits session_id version packet binary g
                ≡ deliver fits id item g outcome))
  unfolding receive receive_id answer
  receive-cases g = elim (Option-cases (id_of packet (decoded_of binary))) [
    | inl no_id ↦ inl (ground (arith, no_id))
    | inr (id, named) ↦ elim (Option-cases (get id g.pending)) [
      | inl absent ↦ inl (ground (arith, named, absent))
      | inr (item, found) ↦
          elim (Option-cases
            (reply_of base64_decode version item.bytes packet (decoded_of binary))) [
              | inl nothing ↦ inl (ground (arith, named, found, nothing))
              | inr (outcome, replied) ↦ elim (Bool-cases (str_beq item.session_id session_id)) [
                | inr other ↦ inl (ground (arith, named, found, other))
                | inl same ↦
                    elim (Bool-cases
                      (not (nat_beq (length id) 32) || not (all is_ascii_hexdigit id))) [
                        | inl bad ↦ inl (ground (arith, named, bad))
                        | inr good ↦ inr (
                          id,
                          item,
                          outcome,
                          found,
                          (str_beq_iff item.session_id session_id).0 same,
                          replied,
                          ground (arith, named, good, found, same, replied),
                        )
                      ]
              ]
            ]
    ]
  ]

  -- `receive` puts a reply on a request's queue only for a packet of the session that the request was sent to.
  pub receive-owner :
      (g : Gateway) (id : Str) (reply : Reply)
      → (receive base64_decode fits session_id version packet binary g).1 ≡ some (id, reply)
      → (item : Pending) × (get id g.pending ≡ some item) × (item.session_id ≡ session_id)
  unfolding deliver
  receive-owner g id reply e = elim (receive-cases g) [
    | inl nothing ↦ ground (arith, nothing, e)
    | inr (id', item, outcome, found, owner, replied, does) ↦ (
      item,
      (let sent = deliver-sent fits id' item g outcome id reply (ap (λ r. r.1) (sym does) ∙ e) in
          rw (sym sent.0) found),
      owner,
    )
  ]

  -- A request of another session is found afterwards exactly as before.
  pub receive-others :
      (g : Gateway) (id : Str) (item : Pending)
      → get id g.pending ≡ some item
      → item.session_id ≢ session_id
      → get id (receive base64_decode fits session_id version packet binary g).0.pending ≡ some item
  unfolding deliver
  receive-others g id item found other = elim (receive-cases g) [
    | inl nothing ↦ rw nothing found
    | inr (id', item', outcome, found', owner, replied, does) ↦
        rw (does, deliver-get fits id' item' g outcome id)
          (ground (arith, found, found', owner, other, str_beq_iff id' id))
  ]

  -- No request is sent more than `MAX_RESPONSE_BYTES`: a packet keeps every count within the bound.
  pub receive-bytes :
      (g : Gateway)
      → ((id : Str) (item : Pending)
          → get id g.pending ≡ some item
          → item.bytes ≤ max_response_bytes)
      → (id : Str) (item : Pending)
      → get id (receive base64_decode fits session_id version packet binary g).0.pending ≡ some item
      → item.bytes ≤ max_response_bytes
  unfolding deliver
  receive-bytes g bounded id item found = elim (receive-cases g) [
    | inl nothing ↦ bounded id item (ap (λ r. get id r.0.pending) (sym nothing) ∙ found)
    | inr (id', item', outcome, found', owner, replied, does) ↦
        let kept = deliver-get fits id' item' g outcome id in
        let small =
          reply_of-bytes base64_decode version item'.bytes packet (decoded_of binary) outcome.0
            outcome.1 (bounded id' item' found') replied in
        ground (arith, kept, small, found, does, bounded id item)
  ]

-- After `End` or `Error` of a request nothing waits under its id: no later packet, of any session, gets a
-- reply to it.
pub receive-final :
    (base64_decode : Str → Option Str) (fits fits' : Bool) (session_id session_id' : Str)
    (version version' : ℕ) (packet packet' : Option Packet) (binary binary' : Option Str)
    (g : Gateway) (id : Str) (reply reply' : Reply)
    → (receive base64_decode fits session_id version packet binary g).1 ≡ some (id, reply)
    → finishes reply ≡ true
    → ¬ (receive base64_decode fits' session_id' version' packet' binary'
        (receive base64_decode fits session_id version packet binary g).0).1
      ≡ some (id, reply')
receive-final base64_decode fits fits' session_id session_id' version version' packet packet' binary
      binary' g id reply reply' e final again =
    let left = (receive base64_decode fits session_id version packet binary g).0 in
    let (item, waiting, owner) =
      receive-owner base64_decode fits' session_id' version' packet' binary' left id reply' again in
    elim (receive-cases base64_decode fits session_id version packet binary g) [
      | inl nothing ↦ ground (arith, nothing, e)
      | inr (id', item', outcome, found', owner', replied, does) ↦
          let sent =
            deliver-sent fits id' item' g outcome id reply (ap (λ r. r.1) (sym does) ∙ e) in
          let gone = deliver-get fits id' item' g outcome id in
          ground (arith, sent.0, sent.1, final, gone, does, waiting, str_beq_iff id' id)
    ]
