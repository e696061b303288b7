-- ===== src/Desktop/Wss/Taken.antt =====
-- How many bytes the channels of the desktop's uploads take: the MCP websocket of Desktop.Wss.
pub mod Counted
use chat_x.Prelude.{
  ℕ, ◌+◌, ◌≤◌, ◌≡◌, refl, Bool, true, false, not, ◌&&◌, Option, none, some, List, [], ◌∷◌, Str, get,
  insert, remove, str_eq, nat_beq, ltb, if◌then◌else◌, length, arith, Bool-cases, inl, inr,
  saturating_add,
}
use chat_x.Protocol.Control.{ControlKind}
use chat_x.Protocol.Stream.{
  Kind, request_body, response_body, decode, max_request_bytes, max_inflight,
}
use chat_x.Desktop.Wss.{
  WssPacket, Outgoing, Upload, Wss, opened_wss, Feed, taken, full, gone, abort, give_up, offer,
  feed_upload, enqueue_upload, Stepped, spawn, start_request, on_request, end_upload, cancel,
  invalid_ack, on_packet, with_frame, WssEvent, stops, ticks, text, frame, pinged, closes, loses,
  other, task_ends, give_back, wss_step, drop_jobs, stop_or_go, wss_run, is_request_id,
}
use chat_x.Desktop.Wss.Permits.{wss_run-IsBounded}
use chat_x.Desktop.Wss.Taken.Counted.{
  bytes_taken, IsCounted, fewer-IsCounted, remove-IsCounted, later-IsCounted, spawned-IsCounted,
  taken-IsCounted,
}

abbrev IsFair : Wss → Type 0
IsFair s = IsCounted s.uploads s.fed s.next

abort-IsFair : (task : Option ℕ) (s : Wss) → IsFair s → IsFair (abort task s)
unfolding abort
abort-IsFair none s h = h
abort-IsFair (some task) s h = h

either-IsFair :
    (b : Bool) (one two : Stepped) → IsFair one.0 → IsFair two.0 → IsFair (if b then one else two).0
either-IsFair true one two h k = h
either-IsFair false one two h k = k

give_up-IsFair : (id : Str) (s : Wss) → IsFair s → IsFair (give_up id s).0
unfolding give_up
give_up-IsFair id s h =
    abort-IsFair (get id s.jobs)
      (record s { uploads = remove id s.uploads; jobs = remove id s.jobs })
      (remove-IsCounted id s.uploads s.fed s.next h)

offer-IsFair :
    (feed : Feed) (id bytes : Str) (u : Upload) (s : Wss)
    → get id s.uploads ≡ some u
    → u.bytes + length bytes ≤ max_request_bytes
    → IsFair s
    → IsFair (offer feed id bytes (record u { bytes = u.bytes + length bytes }) s).0
unfolding offer
offer-IsFair taken id bytes u s there fits h =
    taken-IsCounted id bytes u s.uploads s.fed s.next there fits h
offer-IsFair gone id bytes u s there fits h = remove-IsCounted id s.uploads s.fed s.next h
offer-IsFair full id bytes u s there fits h = give_up-IsFair id s h

feed_upload-IsFair :
    (feed : Feed) (id bytes : Str) (upload : Option Upload) (s : Wss)
    → get id s.uploads ≡ upload
    → IsFair s
    → IsFair (feed_upload feed id bytes upload s).0
unfolding feed_upload
feed_upload-IsFair feed id bytes none s there h = h
feed_upload-IsFair feed id bytes (some u) s there h =
    let total = saturating_add u.bytes (length bytes) in
    elim (Bool-cases (ltb max_request_bytes total)) [
      | inl over ↦ rw over (give_up-IsFair id s h)
      | inr small ↦
          let exact : total ≡ u.bytes + length bytes = ground (arith, small) in
          rw (small, exact) (offer-IsFair feed id bytes u s there (ground (arith, small)) h)
    ]

spawn-IsFair : (id : Str) (is_binary : Bool) (s : Wss) → IsFair s → IsFair (spawn id is_binary s)
unfolding spawn
spawn-IsFair id is_binary s h = elim (Bool-cases (nat_beq s.version 2 && is_binary)) [
  | inl streamed ↦ rw streamed (spawned-IsCounted id s.uploads s.fed s.next h)
  | inr whole ↦ rw whole (later-IsCounted s.uploads s.fed s.next h)
]

enqueue_upload-IsFair :
    (feed : Feed) (id bytes : Str) (s : Wss) → IsFair s → IsFair (enqueue_upload feed id bytes s).0
unfolding enqueue_upload
enqueue_upload-IsFair feed id bytes s h =
    feed_upload-IsFair feed id bytes (get id s.uploads) s refl h

start_request-IsFair :
    (sends : Bool) (id : Str) (is_binary : Bool) (s : Wss)
    → IsFair s
    → IsFair (start_request sends id is_binary s).0
unfolding start_request
start_request-IsFair sends id is_binary s h = elim (Bool-cases (not (is_request_id id))) [
  | inl bad ↦ rw bad h
  | inr good ↦ elim (Bool-cases (ltb (length s.running) max_inflight)) [
    | inl room ↦ rw (good, room) (spawn-IsFair id is_binary s h)
    | inr busy ↦ rw (good, busy) h
  ]
]

on_request-IsFair :
    (sends is_binary : Bool) (id : Option Str) (s : Wss)
    → IsFair s
    → IsFair (on_request sends is_binary id s).0
unfolding on_request
on_request-IsFair sends is_binary none s h = h
on_request-IsFair sends is_binary (some id) s h = start_request-IsFair sends id is_binary s h

end_upload-IsFair : (id : Option Str) (s : Wss) → IsFair s → IsFair (end_upload id s)
unfolding end_upload
end_upload-IsFair none s h = h
end_upload-IsFair (some id) s h = remove-IsCounted id s.uploads s.fed s.next h

cancel-IsFair : (id : Option Str) (s : Wss) → IsFair s → IsFair (cancel id s)
unfolding cancel
cancel-IsFair none s h = h
cancel-IsFair (some id) s h =
    abort-IsFair (get id s.jobs)
      (record s { uploads = remove id s.uploads; jobs = remove id s.jobs })
      (remove-IsCounted id s.uploads s.fed s.next h)

on_packet-IsFair :
    (sends : Bool) (packet : WssPacket) (kind : Option ControlKind) (s : Wss)
    → IsFair s
    → IsFair (on_packet sends packet kind s).0
unfolding on_packet
on_packet-IsFair sends packet (some ControlKind.hello_ack) s h =
    either-IsFair packet.has_session_id
      (record s { version = if packet.is_version_two then 2 else 1; accepted = true }, [], none)
      (s, [], some invalid_ack) h h
on_packet-IsFair sends packet (some ControlKind.request) s h =
    either-IsFair s.accepted _ _ (on_request-IsFair sends packet.is_binary packet.request_id s h) h
on_packet-IsFair sends packet (some ControlKind.request_end) s h =
    either-IsFair (nat_beq s.version 2) _ _ (end_upload-IsFair packet.request_id s h) h
on_packet-IsFair sends packet (some ControlKind.request_cancel) s h =
    either-IsFair (nat_beq s.version 2) _ _ (cancel-IsFair packet.request_id s h) h
on_packet-IsFair sends packet none s h = h
on_packet-IsFair sends packet (some ControlKind.hello) s h = h
on_packet-IsFair sends packet (some ControlKind.ping) s h = h
on_packet-IsFair sends packet (some ControlKind.pong) s h = h
on_packet-IsFair sends packet (some ControlKind.head) s h = h
on_packet-IsFair sends packet (some ControlKind.chunk) s h = h
on_packet-IsFair sends packet (some ControlKind.end) s h = h
on_packet-IsFair sends packet (some ControlKind.error) s h = h

with_frame-IsFair :
    (feed : Feed) (decoded : Option (Kind × Str × Str)) (s : Wss)
    → IsFair s
    → IsFair (with_frame feed decoded s).0
unfolding with_frame
with_frame-IsFair feed none s h = h
with_frame-IsFair feed (some (request_body, id, bytes)) s h =
    enqueue_upload-IsFair feed id bytes s h
with_frame-IsFair feed (some (response_body, id, bytes)) s h = h

wss_step-IsFair : (event : WssEvent) (s : Wss) → IsFair s → IsFair (wss_step event s).0
unfolding wss_step
wss_step-IsFair stops s h = h
wss_step-IsFair (ticks elapsed sends) s h = h
wss_step-IsFair (text sends none) s h = h
wss_step-IsFair (text sends (some packet)) s h = on_packet-IsFair sends packet packet.kind s h
wss_step-IsFair (frame feed bytes) s h =
    either-IsFair _ _ _ (with_frame-IsFair feed (decode bytes) s h) h
wss_step-IsFair (pinged sends) s h = h
wss_step-IsFair closes s h = h
wss_step-IsFair loses s h = h
wss_step-IsFair other s h = h
wss_step-IsFair (task_ends n) s h = h

stop_or_go-IsFair :
    (stepped : Stepped) (go : Wss → Wss × List Outgoing)
    → IsFair stepped.0
    → ((t : Wss) → IsFair t → IsFair (go t).0)
    → IsFair (stop_or_go stepped go).0
unfolding stop_or_go drop_jobs get
stop_or_go-IsFair (s, sent, some reason) go h more =
    fewer-IsCounted s.uploads [] s.fed s.next (λ i u e. cc) h
stop_or_go-IsFair (s, sent, none) go h more = more s h

wss_run-IsFair : (events : List WssEvent) (s : Wss) → IsFair s → IsFair (wss_run events s).0
unfolding wss_run
wss_run-IsFair [] s h = h
wss_run-IsFair (event ∷ events) s h =
    stop_or_go-IsFair (wss_step event s) (wss_run events) (wss_step-IsFair event s h)
      (wss_run-IsFair events)

opened-IsFair : IsFair opened_wss
unfolding bytes_taken get
opened-IsFair = record {
  bounded = λ tx. omega arith;
  unused = λ tx e. refl;
  counted = λ i u e. absurd (ground (arith, e));
  own = λ i j u v e f same. absurd (ground (arith, e));
}

-- Through any events from the opening of a session: at most `MAX_INFLIGHT` tasks hold a permit, and no
-- channel of an upload has taken more than `MAX_REQUEST_BYTES` bytes in all its frames together.
pub wss_run-taken :
    (events : List WssEvent) (tx : ℕ)
    → (length (wss_run events opened_wss).0.running ≤ max_inflight)
      × (bytes_taken tx (wss_run events opened_wss).0.fed ≤ max_request_bytes)
wss_run-taken events tx = (
  (wss_run-IsBounded events opened_wss (omega arith, tt)).0,
  (wss_run-IsFair events opened_wss opened-IsFair).bounded tx,
)
