-- ===== src/Desktop/Wss/Permits.antt =====
-- The limits of the desktop's MCP websocket: its tasks and the bytes of its uploads.
use chat_x.Prelude.{
  ℕ, ◌≤◌, ◌≡◌, Bool, true, false, not, ◌&&◌, Option, none, some, List, [], ◌∷◌, Str, Dict, get,
  insert, remove, str_eq, ◌==◌, nat_beq, ltb, if◌then◌else◌, length, All, arith, Bool-cases, inl,
  inr, saturating_add,
}
use chat_x.Protocol.Control.{ControlKind}
use chat_x.Protocol.Stream.{
  Kind, request_body, response_body, decode, max_request_bytes, max_inflight,
}
use chat_x.Desktop.Wss.{
  WssPacket, Outgoing, Upload, Wss, Feed, taken, full, gone, abort, give_up, offer, feed_upload,
  enqueue_upload, Stepped, spawn, start_request, on_request, end_upload, cancel, invalid_ack,
  on_packet, with_frame, WssEvent, stops, ticks, text, frame, pinged, closes, loses, other,
  task_ends, give_back, wss_step, drop_jobs, stop_or_go, wss_run, is_request_id,
}

abbrev Within : Dict Str Upload → Type 0
Within = All (λ entry. entry.1.bytes ≤ max_request_bytes)

-- The limits of a session.
abbrev pub IsBounded : Wss → Type 0
IsBounded s =
    (length s.running ≤ max_inflight) × All (λ entry. entry.1.bytes ≤ max_request_bytes) s.uploads

remove-Within : (id : Str) (uploads : Dict Str Upload) → Within uploads → Within (remove id uploads)
unfolding remove
remove-Within id [] h = tt
remove-Within id ((key, upload) ∷ uploads) h = elim (Bool-cases (key == id)) [
  | inl same ↦ rw same (remove-Within id uploads h.1)
  | inr differ ↦ rw differ (h.0, remove-Within id uploads h.1)
]

insert-Within :
    (id : Str) (upload : Upload) (uploads : Dict Str Upload)
    → upload.bytes ≤ max_request_bytes
    → Within uploads
    → Within (insert id upload uploads)
unfolding insert
insert-Within id upload uploads small h = (small, remove-Within id uploads h)

abort-IsBounded : (task : Option ℕ) (s : Wss) → IsBounded s → IsBounded (abort task s)
unfolding abort
abort-IsBounded none s h = h
abort-IsBounded (some task) s h = h

-- A choice between two states.
either-IsBounded :
    (b : Bool) (one two : Stepped)
    → IsBounded one.0
    → IsBounded two.0
    → IsBounded (if b then one else two).0
either-IsBounded true one two h k = h
either-IsBounded false one two h k = k

give_up-IsBounded : (id : Str) (s : Wss) → IsBounded s → IsBounded (give_up id s).0
unfolding give_up
give_up-IsBounded id s h =
    abort-IsBounded (get id s.jobs)
      (record s { uploads = remove id s.uploads; jobs = remove id s.jobs })
      (h.0, remove-Within id s.uploads h.1)

offer-IsBounded :
    (feed : Feed) (id bytes : Str) (upload : Upload) (s : Wss)
    → upload.bytes ≤ max_request_bytes
    → IsBounded s
    → IsBounded (offer feed id bytes upload s).0
unfolding offer
offer-IsBounded taken id bytes upload s small h = (h.0, insert-Within id upload s.uploads small h.1)
offer-IsBounded gone id bytes upload s small h = (h.0, remove-Within id s.uploads h.1)
offer-IsBounded full id bytes upload s small h = give_up-IsBounded id s h

feed_upload-IsBounded :
    (feed : Feed) (id bytes : Str) (upload : Option Upload) (s : Wss)
    → IsBounded s
    → IsBounded (feed_upload feed id bytes upload s).0
unfolding feed_upload
feed_upload-IsBounded feed id bytes none s h = h
feed_upload-IsBounded feed id bytes (some upload) s h =
    let total = saturating_add upload.bytes (length bytes) in
    elim (Bool-cases (ltb max_request_bytes total)) [
      | inl over ↦ rw over (give_up-IsBounded id s h)
      | inr fits ↦
          rw fits
            (offer-IsBounded feed id bytes (record upload { bytes = total }) s (ground arith) h)
    ]

enqueue_upload-IsBounded :
    (feed : Feed) (id bytes : Str) (s : Wss)
    → IsBounded s
    → IsBounded (enqueue_upload feed id bytes s).0
unfolding enqueue_upload
enqueue_upload-IsBounded feed id bytes s h =
    feed_upload-IsBounded feed id bytes (get id s.uploads) s h

spawn-IsBounded :
    (id : Str) (is_binary : Bool) (s : Wss)
    → ltb (length s.running) max_inflight ≡ true
    → IsBounded s
    → IsBounded (spawn id is_binary s)
unfolding spawn
spawn-IsBounded id is_binary s room h = elim (Bool-cases (nat_beq s.version 2 && is_binary)) [
  | inl streamed ↦ rw streamed (ground arith, insert-Within id _ s.uploads (omega arith) h.1)
  | inr whole ↦ rw whole (ground arith, h.1)
]

start_request-IsBounded :
    (sends : Bool) (id : Str) (is_binary : Bool) (s : Wss)
    → IsBounded s
    → IsBounded (start_request sends id is_binary s).0
unfolding start_request
start_request-IsBounded sends id is_binary s h = elim (Bool-cases (not (is_request_id id))) [
  | inl bad ↦ rw bad h
  | inr good ↦ elim (Bool-cases (ltb (length s.running) max_inflight)) [
    | inl room ↦ rw (good, room) (spawn-IsBounded id is_binary s room h)
    | inr busy ↦ rw (good, busy) h
  ]
]

on_request-IsBounded :
    (sends is_binary : Bool) (id : Option Str) (s : Wss)
    → IsBounded s
    → IsBounded (on_request sends is_binary id s).0
unfolding on_request
on_request-IsBounded sends is_binary none s h = h
on_request-IsBounded sends is_binary (some id) s h = start_request-IsBounded sends id is_binary s h

end_upload-IsBounded : (id : Option Str) (s : Wss) → IsBounded s → IsBounded (end_upload id s)
unfolding end_upload
end_upload-IsBounded none s h = h
end_upload-IsBounded (some id) s h = (h.0, remove-Within id s.uploads h.1)

cancel-IsBounded : (id : Option Str) (s : Wss) → IsBounded s → IsBounded (cancel id s)
unfolding cancel
cancel-IsBounded none s h = h
cancel-IsBounded (some id) s h =
    abort-IsBounded (get id s.jobs)
      (record s { uploads = remove id s.uploads; jobs = remove id s.jobs })
      (h.0, remove-Within id s.uploads h.1)

on_packet-IsBounded :
    (sends : Bool) (packet : WssPacket) (kind : Option ControlKind) (s : Wss)
    → IsBounded s
    → IsBounded (on_packet sends packet kind s).0
unfolding on_packet
on_packet-IsBounded sends packet (some ControlKind.hello_ack) s h =
    either-IsBounded packet.has_session_id
      (record s { version = if packet.is_version_two then 2 else 1; accepted = true }, [], none)
      (s, [], some invalid_ack) h h
on_packet-IsBounded sends packet (some ControlKind.request) s h =
    either-IsBounded s.accepted _ _
      (on_request-IsBounded sends packet.is_binary packet.request_id s h) h
on_packet-IsBounded sends packet (some ControlKind.request_end) s h =
    either-IsBounded (nat_beq s.version 2) _ _ (end_upload-IsBounded packet.request_id s h) h
on_packet-IsBounded sends packet (some ControlKind.request_cancel) s h =
    either-IsBounded (nat_beq s.version 2) _ _ (cancel-IsBounded packet.request_id s h) h
on_packet-IsBounded sends packet none s h = h
on_packet-IsBounded sends packet (some ControlKind.hello) s h = h
on_packet-IsBounded sends packet (some ControlKind.ping) s h = h
on_packet-IsBounded sends packet (some ControlKind.pong) s h = h
on_packet-IsBounded sends packet (some ControlKind.head) s h = h
on_packet-IsBounded sends packet (some ControlKind.chunk) s h = h
on_packet-IsBounded sends packet (some ControlKind.end) s h = h
on_packet-IsBounded sends packet (some ControlKind.error) s h = h

with_frame-IsBounded :
    (feed : Feed) (decoded : Option (Kind × Str × Str)) (s : Wss)
    → IsBounded s
    → IsBounded (with_frame feed decoded s).0
unfolding with_frame
with_frame-IsBounded feed none s h = h
with_frame-IsBounded feed (some (request_body, id, bytes)) s h =
    enqueue_upload-IsBounded feed id bytes s h
with_frame-IsBounded feed (some (response_body, id, bytes)) s h = h

length-give_back : (n : ℕ) (ms : List ℕ) → length (give_back n ms) ≤ length ms
unfolding give_back
length-give_back n [] = omega arith
length-give_back n (m ∷ ms) = ground (arith, length-give_back n ms)

wss_step-IsBounded : (event : WssEvent) (s : Wss) → IsBounded s → IsBounded (wss_step event s).0
unfolding wss_step
wss_step-IsBounded stops s h = h
wss_step-IsBounded (ticks elapsed sends) s h = h
wss_step-IsBounded (text sends none) s h = h
wss_step-IsBounded (text sends (some packet)) s h = on_packet-IsBounded sends packet packet.kind s h
wss_step-IsBounded (frame feed bytes) s h =
    either-IsBounded _ _ _ (with_frame-IsBounded feed (decode bytes) s h) h
wss_step-IsBounded (pinged sends) s h = h
wss_step-IsBounded closes s h = h
wss_step-IsBounded loses s h = h
wss_step-IsBounded other s h = h
wss_step-IsBounded (task_ends n) s h = (omega (arith, length-give_back n s.running, h.0), h.1)

stop_or_go-IsBounded :
    (stepped : Stepped) (go : Wss → Wss × List Outgoing)
    → IsBounded stepped.0
    → ((t : Wss) → IsBounded t → IsBounded (go t).0)
    → IsBounded (stop_or_go stepped go).0
unfolding stop_or_go drop_jobs
stop_or_go-IsBounded (s, sent, some reason) go h more = (h.0, tt)
stop_or_go-IsBounded (s, sent, none) go h more = more s h

-- From any session within the limits, through any events: at most `MAX_INFLIGHT` requests hold a permit,
-- and no upload has taken more than `MAX_REQUEST_BYTES`.
pub wss_run-IsBounded :
    (events : List WssEvent) (s : Wss) → IsBounded s → IsBounded (wss_run events s).0
unfolding wss_run
wss_run-IsBounded [] s h = h
wss_run-IsBounded (event ∷ events) s h =
    stop_or_go-IsBounded (wss_step event s) (wss_run events) (wss_step-IsBounded event s h)
      (wss_run-IsBounded events)
