-- ===== src/Desktop/Server/Socket/Numbered.antt =====
-- The numbers of a whole connection's snapshots: `handle_monitor_socket` from its start.
use chat_x.Prelude.{
  ℕ, ◌+◌, ◌≤◌, ◌<◌, ◌≡◌, refl, Bool, true, false, Option, none, some, Str, Dict, length, Result, ok,
  err, u64_max, arith, Bool-cases, inl, inr, codes,
}
use chat_x.Protocol.Messages.{DeviceWsMessage, DeviceServerMessage, device_capabilities}
use chat_x.Desktop.Server.Requests.{MonitorHandlers, authorize, parameter_of, session_of}
use chat_x.Desktop.Server.Socket.{
  Session, EndReason, unauthorized, bad_hello, send, push_snapshot, greet, rounds, read_json_until,
}
use chat_x.Desktop.Server.Socket.Whole.{
  Encounter, Ended, handle_monitor_socket, hello_matches, hello_timeout_ms, refuse, left, opened,
  with_hello, checked,
}
use chat_x.Desktop.Server.Socket.Order.{
  numbers, count_from, Counts, Numbers, and_then-Counts, plain-Counts, push_snapshot-Counts,
  rounds-Counts,
}

-- The snapshots of an ended connection have the numbers from 1 on.
abbrev FromOne {ℓ} : {W : Type ℓ} → Ended W → Type 0
FromOne ended = (k : ℕ) × (numbers ended.1 ≡ count_from 1 k)

refuse-FromOne {ℓ} :
    {W : Type ℓ} (sends : Bool) (message : Str) (reason : EndReason) (w : W)
    → FromOne (refuse sends message reason w)
unfolding refuse numbers count_from
refuse-FromOne true message reason w = (0, refl)
refuse-FromOne false message reason w = (0, refl)

module _ {ℓ} {W : Type ℓ} (handlers : MonitorHandlers W) (device_id token : Str) (e : Encounter)
    (numbered : Numbers handlers) (room : length e.rounds_met + 1 ≤ u64_max) where
  abbrev started_at : W → Session W
  started_at w = record {
    world = w;
    sequence = 0;
    last_activity = e.started;
    last_snapshot = e.started;
    last_ping = e.started;
  }

  greet-Counts :
      (session_id : Str) (w : W)
      → Counts 1
          (started_at w)
          (greet handlers device_id token session_id e.started e.clock e.ack_sent e.snapshot_sent w)
  unfolding greet send numbers
  greet-Counts session_id w =
      and_then-Counts 0 1 1 (started_at w)
        (send e.ack_sent (DeviceServerMessage.hello_ack session_id e.clock true device_capabilities)
          (started_at w))
        (push_snapshot handlers device_id token session_id e.clock e.snapshot_sent) (omega arith)
        (plain-Counts (started_at w)
          (send e.ack_sent
            (DeviceServerMessage.hello_ack session_id e.clock true device_capabilities)
            (started_at w))
          (ground arith) (ground arith))
        (λ t h.
          push_snapshot-Counts handlers device_id token session_id numbered e.clock e.snapshot_sent
            t (omega arith))

  opened-FromOne :
      (random : Option Str) (w : W) → FromOne (opened handlers device_id token e random w)
  unfolding opened left numbers count_from
  opened-FromOne none w = (0, refl)
  opened-FromOne (some random) w =
      let sid = session_of random in
      let counted =
        and_then-Counts 1 (length e.rounds_met) (length e.rounds_met + 1) (started_at w)
          (greet handlers device_id token sid e.started e.clock e.ack_sent e.snapshot_sent w)
          (rounds handlers device_id token sid e.rounds_met) (omega arith) (greet-Counts sid w)
          (λ t h.
            rounds-Counts handlers device_id token sid numbered e.rounds_met t (omega arith)) in
      (counted.0, counted.1)

  with_hello-FromOne :
      (desktop_id : Str) (w : W) (hello : Option (Result EndReason DeviceWsMessage))
      → FromOne (with_hello handlers desktop_id device_id token e w hello)
  unfolding with_hello numbers count_from
  with_hello-FromOne desktop_id w none = (0, refl)
  with_hello-FromOne desktop_id w (some (err reason)) = (0, refl)
  with_hello-FromOne desktop_id w (some (ok first)) =
      elim (Bool-cases (hello_matches desktop_id device_id first)) [
        | inl good ↦ rw good (opened-FromOne e.random w)
        | inr bad ↦ rw bad (refuse-FromOne e.error_sent (codes "invalid hello") bad_hello w)
      ]

-- Whatever a phone's connection meets, from the check of its caller to its end, the snapshots that it is
-- sent are numbered 1, 2, 3 and so on without a gap, where the provider puts the number that it is asked
-- for into its snapshots and the rounds are fewer than 2^64 - 1.
pub handle_monitor_socket-FromOne {ℓ} :
    {W : Type ℓ} (handlers : MonitorHandlers W) (desktop_id token : Str) (query : Dict Str Str)
    (e : Encounter) (w : W)
    → Numbers handlers
    → length e.rounds_met < u64_max
    → (k : ℕ) × (numbers (handle_monitor_socket handlers desktop_id query token e w).1
        ≡ count_from 1 k)
unfolding handle_monitor_socket checked
handle_monitor_socket-FromOne handlers desktop_id token query e w numbered room =
    let device_id = parameter_of (codes "deviceId") query in
    let start = authorize handlers desktop_id query token w in
    elim (Bool-cases start.1) [
      | inl allowed ↦ rw allowed (
          with_hello-FromOne handlers device_id token e numbered (omega arith) desktop_id start.0
            (read_json_until hello_timeout_ms e.hello_frames))
      | inr refused ↦
          rw refused (refuse-FromOne e.error_sent (codes "unauthorized") unauthorized start.0)
    ]
