-- ===== src/Relay/Gateway/Packets.antt =====
-- relay-server/src/mcp_gateway.rs, `Gateway::receive`: the packets of the desktop and the replies that they
-- put on the requests' queues. A bounded queue that is full or closed takes no reply.
use chat_x.Prelude.{
  ℕ, ◌+◌, ◌*◌, ◌/◌, Bool, true, false, not, ◌||◌, ◌&&◌, Option, none, some, List, [], ◌∷◌, Str, get,
  insert, remove, ◌==◌, str_eq, nat_beq, ltb, leb, if◌then◌else◌, length, all, saturating_add,
}
use chat_x.Text.{is_ascii_hexdigit}
use chat_x.Protocol.Control.{ControlKind, parse}
use chat_x.Protocol.Http.{wss_protocol_v1, legacy_max_response_bytes, allowed_response_header}
use chat_x.Protocol.Stream.{Kind, response_body, decode, max_frame_body, max_response_bytes}
use chat_x.Relay.State.{Gateway, Pending}

-- The fields of a JSON packet that `receive` reads: `none` for one that is missing or of another type.
-- A header whose value is no string has no value here.
pub record Packet : Type 0 where
  pub request_id : Option Str
  pub kind : Option Str
  pub status : Option ℕ
  pub headers : List (Str × Option Str)
  pub encoded : Option Str

pub data Reply : Type 0 where
  head : ℕ → List (Str × Str) → Reply
  chunk : Str → Reply
  end error upload_too_large upload_failed : Reply

forwarded : List (Str × Option Str) → List (Str × Str)
forwarded [] = []
forwarded ((key, none) ∷ headers) = forwarded headers
forwarded ((key, some value) ∷ headers) =
    let rest = forwarded headers in
    if allowed_response_header key then (key, value) ∷ rest else rest

-- A part of a body: the reply and the bytes so far, at most `limit`.
unfoldable pub count_bytes : ℕ → ℕ → Str → Reply × ℕ
count_bytes limit bytes body =
    if ltb limit (saturating_add bytes (length body))
    then (Reply.error, bytes)
    else (Reply.chunk body, bytes + length body)

unfoldable pub legacy_chunk : ℕ → Option Str → Option (Reply × ℕ)
legacy_chunk bytes none = none
legacy_chunk bytes (some body) = some (
    if ltb max_frame_body (length body) || ltb legacy_max_response_bytes (bytes + length body)
    then (Reply.error, bytes)
    else (Reply.chunk body, bytes + length body))

unfoldable pub kind_of : Option Str → Option ControlKind
kind_of none = none
kind_of (some kind) = parse kind

packet_id : Option Packet → Option Str
packet_id none = none
packet_id (some packet) = packet.request_id

unfoldable pub id_of : Option Packet → Option (Kind × Str × Str) → Option Str
unfolding packet_id
id_of packet (some (response_body, id, _)) = some id
id_of packet _ = packet_id packet

unfoldable pub decoded_of : Option Str → Option (Kind × Str × Str)
decoded_of none = none
decoded_of (some frame) = decode frame

unfoldable pub finishes : Reply → Bool
finishes Reply.end = true
finishes Reply.error = true
finishes _ = false

unfoldable pub fails : Reply → Bool
fails Reply.error = true
fails _ = false

-- The request's entry afterwards, and the reply if the queue takes it (`fits`).
unfoldable pub deliver : Bool → Str → Pending → Gateway → Reply × ℕ → Gateway × Option (Str × Reply)
unfolding finishes fails
deliver fits id item g (reply, bytes) =
    let left =
      if finishes reply || not fits
      then remove id g.pending
      else insert id (record item { bytes = bytes }) g.pending in
    let flagged = if fails reply || not fits then id ∷ g.errored else g.errored in
    (record g { pending = left; errored = flagged }, (if fits then some (id, reply) else none))

module _ (base64_decode : Str → Option Str) where
  unfoldable pub legacy_data : ℕ → Option Str → Option (Reply × ℕ)
  unfolding legacy_chunk
  legacy_data bytes none = none
  legacy_data bytes (some encoded) =
      if ltb (max_frame_body * 4 / 3 + 8) (length encoded)
      then none
      else legacy_chunk bytes (base64_decode encoded)

  unfoldable pub head_reply : ℕ → List (Str × Option Str) → Option ℕ → Option (Reply × ℕ)
  unfolding forwarded
  head_reply bytes headers none = none
  head_reply bytes headers (some status) =
      if not (leb 200 status && leb status 599)
      then none
      else some (Reply.head status (forwarded headers), bytes)

  unfoldable pub control_reply : ℕ → ℕ → Packet → Option ControlKind → Option (Reply × ℕ)
  unfolding legacy_data head_reply
  control_reply version bytes packet (some ControlKind.head) =
      head_reply bytes packet.headers packet.status
  control_reply version bytes packet (some ControlKind.chunk) =
      if nat_beq version wss_protocol_v1 then legacy_data bytes packet.encoded else none
  control_reply version bytes packet (some ControlKind.end) = some (Reply.end, bytes)
  control_reply version bytes packet (some ControlKind.error) = some (Reply.error, bytes)
  control_reply version bytes packet _ = none

  -- The reply to a request and its bytes afterwards.
  unfoldable pub reply_of : ℕ → ℕ → Option Packet → Option (Kind × Str × Str) → Option (Reply × ℕ)
  unfolding control_reply kind_of
  reply_of version bytes packet (some (response_body, _, body)) =
      if not (nat_beq version 2) then none else some (count_bytes max_response_bytes bytes body)
  reply_of version bytes none _ = none
  reply_of version bytes (some packet) _ = control_reply version bytes packet (kind_of packet.kind)

  unfoldable pub answer :
      Bool
      → ℕ
      → Option Packet
      → Option (Kind × Str × Str)
      → Str
      → Str
      → Gateway
      → Option Pending
      → Gateway × Option (Str × Reply)
  unfolding deliver
  answer fits version packet decoded session_id id g none = (g, none)
  answer fits version packet decoded session_id id g (some item) =
      if not (item.session_id == session_id)
      then (g, none)
      else elim (reply_of version item.bytes packet decoded) [
        | none ↦ (g, none)
        | some outcome ↦ deliver fits id item g outcome
      ]

  unfoldable pub receive_id :
      Bool
      → ℕ
      → Option Packet
      → Option (Kind × Str × Str)
      → Str
      → Gateway
      → Option Str
      → Gateway × Option (Str × Reply)
  unfolding answer
  receive_id fits version packet decoded session_id g none = (g, none)
  receive_id fits version packet decoded session_id g (some id) =
      if not (nat_beq (length id) 32) || not (all is_ascii_hexdigit id)
      then (g, none)
      else answer fits version packet decoded session_id id g (get id g.pending)

  -- `receive`: the gateway, and the reply that a request's queue got.
  unfoldable pub receive :
      Bool → Str → ℕ → Option Packet → Option Str → Gateway → Gateway × Option (Str × Reply)
  unfolding receive_id id_of decoded_of
  receive fits session_id version packet binary g =
      receive_id fits version packet (decoded_of binary) session_id g
        (id_of packet (decoded_of binary))
