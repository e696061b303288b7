-- ===== src/Desktop/Wss.antt =====
-- src-tauri/src/https_mcp_wss.rs: the desktop's end of the MCP websocket. Here the packets and `session`:
-- its uploads, its tasks and their permits. A task is a number; it holds a permit until it has ended, also
-- where it was aborted. A channel of an upload has the number of its task.
pub mod Local
pub mod Permits
pub mod Taken
pub mod Isolation
use chat_x.Prelude.{
  ℕ, ◌+◌, Bool, true, false, not, ◌&&◌, ◌||◌, Option, none, some, List, [], ◌∷◌, ◌++◌, Str, Dict,
  get, insert, remove, retain, str_eq, any, nat_beq, leb, ltb, if◌then◌else◌, length, all,
  saturating_add, map,
}
use chat_x.Text.{is_ascii_hexdigit}
use chat_x.Protocol.Control.{ControlKind}
use chat_x.Protocol.Http.{wss_protocol_v2}
use chat_x.Protocol.Stream.{
  Kind, request_body, response_body, decode, max_request_bytes, max_inflight,
}

abbrev pub session_timeout_ms : ℕ
session_timeout_ms = 45_000

-- A text packet: its type as `ControlKind::parse` reads it, and the fields that are read of it, where
-- they are there with the right type.
pub record WssPacket : Type 0 where
  pub kind : Option ControlKind
  pub request_id : Option Str
  pub has_session_id : Bool
  pub is_version_two : Bool
  pub is_binary : Bool
  pub method : Option Str
  pub path : Option Str
  pub body_base64 : Option Str
  pub headers : List (Str × Option Str)

pub data Outgoing : Type 0 where
  head : Str → ℕ → List (Str × Str) → Outgoing
  chunk : Str → Str → Outgoing
  end error : Str → Outgoing
  binary : Str → Outgoing

pub record Upload : Type 0 where
  pub tx : ℕ
  pub bytes : ℕ

-- The locals of `session`. `running` are the tasks that hold a permit, `aborted` those that were told to
-- end, and `fed` what the channels of the uploads took, the latest first.
pub record Wss : Type 0 where
  pub version : ℕ
  pub accepted : Bool
  pub uploads : Dict Str Upload
  pub jobs : Dict Str ℕ
  pub running : List ℕ
  pub aborted : List ℕ
  pub fed : List (ℕ × Str)
  pub next : ℕ

abbrev pub opened_wss : Wss
opened_wss = record {
  version = 1;
  accepted = false;
  uploads = [];
  jobs = [];
  running = [];
  aborted = [];
  fed = [];
  next = 0;
}

-- What `try_send` on the channel of an upload gives.
pub data Feed : Type 0 where
  taken full gone : Feed

unfoldable pub abort : Option ℕ → Wss → Wss
abort none s = s
abort (some task) s = record s { aborted = task ∷ s.aborted }

-- The upload and its task are given up, with an error to the relay.
give_up : Str → Wss → Wss × List Outgoing
unfolding abort
give_up id s = (
  abort (get id s.jobs) (record s { uploads = remove id s.uploads; jobs = remove id s.jobs }),
  error id ∷ [],
)

-- The channel's answer, with the upload as it counts the bytes.
offer : Feed → Str → Str → Upload → Wss → Wss × List Outgoing
unfolding give_up
offer taken id bytes upload s =
    (record s { uploads = insert id upload s.uploads; fed = (upload.tx, bytes) ∷ s.fed }, [])
offer gone id bytes upload s = (record s { uploads = remove id s.uploads }, [])
offer full id bytes upload s = give_up id s

feed_upload : Feed → Str → Str → Option Upload → Wss → Wss × List Outgoing
unfolding give_up offer
feed_upload feed id bytes none s = (s, [])
feed_upload feed id bytes (some upload) s =
    let total = saturating_add upload.bytes (length bytes) in
    if ltb max_request_bytes total
    then give_up id s
    else offer feed id bytes (record upload { bytes = total }) s

-- `enqueue_upload`. The error packet goes out at once or, where the queue is full, from a task of its own.
unfoldable pub enqueue_upload : Feed → Str → Str → Wss → Wss × List Outgoing
unfolding feed_upload
enqueue_upload feed id bytes s = feed_upload feed id bytes (get id s.uploads) s

pub data WssEnd : Type 0 where
  stopped heartbeat_timeout send_failed disconnected closed invalid_ack invalid_frame : WssEnd

abbrev pub Stepped : Type 0
Stepped = Wss × List Outgoing × Option WssEnd

abbrev pub is_request_id : Str → Bool
is_request_id id = nat_beq (length id) 32 && all is_ascii_hexdigit id

-- A task that gets a permit: its upload, the jobs that have not ended, and itself among them.
unfoldable pub spawn : Str → Bool → Wss → Wss
spawn id is_binary s =
    let running = s.next ∷ s.running in
    record s {
      uploads =
          if nat_beq s.version 2 && is_binary
          then insert id (record { tx = s.next; bytes = 0 }) s.uploads
          else s.uploads;
      jobs = insert id s.next (retain (λ _ task. any (nat_beq task) running) s.jobs);
      running = running;
      next = s.next + 1;
    }

-- A `Request`; `sends` is whether the queue takes the error.
start_request : Bool → Str → Bool → Wss → Stepped
unfolding spawn
start_request sends id is_binary s =
    if not (is_request_id id)
    then (s, [], none)
    else if ltb (length s.running) max_inflight
    then (spawn id is_binary s, [], none)
    else (s, (if sends then error id ∷ [] else []), (if sends then none else some send_failed))

on_request : Bool → Bool → Option Str → Wss → Stepped
unfolding start_request
on_request sends is_binary none s = (s, [], none)
on_request sends is_binary (some id) s = start_request sends id is_binary s

unfoldable pub end_upload : Option Str → Wss → Wss
end_upload none s = s
end_upload (some id) s = record s { uploads = remove id s.uploads }

unfoldable pub cancel : Option Str → Wss → Wss
unfolding abort
cancel none s = s
cancel (some id) s =
    abort (get id s.jobs) (record s { uploads = remove id s.uploads; jobs = remove id s.jobs })

on_packet : Bool → WssPacket → Option ControlKind → Wss → Stepped
unfolding on_request end_upload cancel
on_packet sends packet (some ControlKind.hello_ack) s =
    if packet.has_session_id
    then (record s { version = if packet.is_version_two then 2 else 1; accepted = true }, [], none)
    else (s, [], some invalid_ack)
on_packet sends packet (some ControlKind.request) s =
    if s.accepted then on_request sends packet.is_binary packet.request_id s else (s, [], none)
on_packet sends packet (some ControlKind.request_end) s =
    if nat_beq s.version wss_protocol_v2
    then (end_upload packet.request_id s, [], none)
    else (s, [], none)
on_packet sends packet (some ControlKind.request_cancel) s =
    if nat_beq s.version wss_protocol_v2
    then (cancel packet.request_id s, [], none)
    else (s, [], none)
on_packet sends packet _ s = (s, [], none)

with_frame : Feed → Option (Kind × Str × Str) → Wss → Stepped
unfolding enqueue_upload
with_frame feed (some (request_body, id, data_)) s =
    let fed = enqueue_upload feed id data_ s in (fed.0, fed.1, none)
with_frame feed (some (response_body, id, data_)) s = (s, [], some invalid_frame)
with_frame feed none s = (s, [], some invalid_frame)

-- What the loop's `select` meets. A text is what serde_json makes of it.
pub data WssEvent : Type 0 where
  stops : WssEvent
  ticks : ℕ → Bool → WssEvent
  text : Bool → Option WssPacket → WssEvent
  frame : Feed → Str → WssEvent
  pinged : Bool → WssEvent
  closes loses other : WssEvent
  task_ends : ℕ → WssEvent

give_back : ℕ → List ℕ → List ℕ
give_back n [] = []
give_back n (m ∷ ms) = let rest = give_back n ms in if nat_beq m n then rest else m ∷ rest

-- A round of the loop; `ticks` has the time since the last message, and `task_ends` is the end of a task,
-- which gives its permit back.
unfoldable pub wss_step : WssEvent → Wss → Stepped
unfolding on_packet with_frame give_back
wss_step stops s = (s, [], some stopped)
wss_step (ticks elapsed sends) s = (
  s,
  [],
  (if ltb session_timeout_ms elapsed
      then some heartbeat_timeout
      else if sends
      then none
      else some send_failed),
)
wss_step (text sends none) s = (s, [], none)
wss_step (text sends (some packet)) s = on_packet sends packet packet.kind s
wss_step (frame feed bytes) s =
    if s.accepted && nat_beq s.version 2 then with_frame feed (decode bytes) s else (s, [], none)
wss_step (pinged sends) s = (s, [], (if sends then none else some send_failed))
wss_step closes s = (s, [], some closed)
wss_step loses s = (s, [], some disconnected)
wss_step other s = (s, [], none)
wss_step (task_ends n) s = (record s { running = give_back n s.running }, [], none)

-- The end of `session` drops its jobs, which aborts them.
unfoldable pub drop_jobs : Wss → Wss
drop_jobs s = record s { uploads = []; jobs = []; aborted = map (λ job. job.1) s.jobs ++ s.aborted }

stop_or_go : Stepped → (Wss → Wss × List Outgoing) → Wss × List Outgoing
unfolding drop_jobs
stop_or_go (s, sent, some reason) go = (drop_jobs s, sent)
stop_or_go (s, sent, none) go = ((go s).0, sent ++ (go s).1)

-- The loop of `session` through these events.
unfoldable pub wss_run : List WssEvent → Wss → Wss × List Outgoing
unfolding stop_or_go
wss_run [] s = (s, [])
wss_run (event ∷ events) s = stop_or_go (wss_step event s) (wss_run events)
