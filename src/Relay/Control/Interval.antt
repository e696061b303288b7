-- ===== src/Relay/Control/Interval.antt =====
-- How often a device's control requests are passed on, whatever else the relay does in between.
use chat_x.Prelude.{
  ℕ, ◌-◌, ◌≤◌, ◌<◌, ◌≡◌, Bool, Option, some, List, [], ◌∷◌, Str, Dict, get, retain, RouteKey,
  ControlRouteKey, pair_eq, pair_beq, pair_beq_iff, Result, All, arith, get-insert, get-retain_kept,
  Bool-cases, inl, inr,
}
use chat_x.Protocol.Messages.{EncryptedControlPayload, DesktopServerMessage}
use chat_x.Relay.State.{AppState}
use chat_x.Relay.Control.{
  is_recent, too_soon, rate_limit, begin_control, route_control, enter_control, complete_control,
  finish_control, waits,
}
use chat_x.Relay.Control.Correlation.{
  rate_limit-recorded, rate_limit-refused, begin_control-limited,
}

-- What the relay does in between: a request of any device at a time, the answer to one, its end, or
-- another handler, none of which touches `control_last_at`.
pub data Meanwhile : Type 0 where
  requests : ℕ → Bool → Str → Str → EncryptedControlPayload → Meanwhile
  answers : Str → Str → Str → Result Str EncryptedControlPayload → Meanwhile
  gives_up : ControlRouteKey → Option (Result Str EncryptedControlPayload) → Meanwhile
  others : AppState → Meanwhile

unfoldable pub after_meanwhile : AppState → Meanwhile → AppState
after_meanwhile s (requests now listens d v request) = (begin_control now listens s d v request).0
after_meanwhile s (answers d v r result) = (complete_control s d v r result).0
after_meanwhile s (gives_up key result) = (finish_control s key result).0
after_meanwhile s (others t) = record t { control_last_at = s.control_last_at }

unfoldable pub run_meanwhile : AppState → List Meanwhile → AppState
run_meanwhile s [] = s
run_meanwhile s (step ∷ steps) = run_meanwhile (after_meanwhile s step) steps

-- A step that is not later than a time.
abbrev pub IsBy : ℕ → Meanwhile → Type 0
IsBy later (requests now _ _ _ _) = now ≤ later
IsBy later _ = Unit

rate_limit-keeps :
    (now at : ℕ) (key other : RouteKey) (values : Dict RouteKey ℕ)
    → get key values ≡ some at
    → now - at < 500
    → get key (rate_limit now other values).0 ≡ some at
unfolding rate_limit too_soon
rate_limit-keeps now at key other values found near =
    let kept : get key (retain (is_recent now) values) ≡ some at =
      get-retain_kept (is_recent now) key at values found (ground arith) in
    elim (Bool-cases (pair_beq other key)) [
      | inl same ↦
          let own : other ≡ key = (pair_beq_iff other key).0 same in
          rw own (ground (arith, kept, near))
      | inr differ ↦
          ground (arith, kept, differ, get-insert other key now (retain (is_recent now) values))
    ]

begin_control-keeps :
    (now at : ℕ) (listens : Bool) (s : AppState) (key : RouteKey) (d v : Str)
    (request : EncryptedControlPayload)
    → get key s.control_last_at ≡ some at
    → now - at < 500
    → get key (begin_control now listens s d v request).0.control_last_at ≡ some at
unfolding begin_control route_control enter_control
begin_control-keeps now at listens s key d v request found near =
    ground (arith, found, rate_limit-keeps now at key (d, v) s.control_last_at found near)

run_meanwhile-keeps :
    (at later : ℕ) (key : RouteKey) (s : AppState) (steps : List Meanwhile)
    → get key s.control_last_at ≡ some at
    → later - at < 500
    → All (IsBy later) steps
    → get key (run_meanwhile s steps).control_last_at ≡ some at
unfolding run_meanwhile after_meanwhile complete_control finish_control
run_meanwhile-keeps at later key s [] found near by = found
run_meanwhile-keeps at later key s (requests now listens d v request ∷ steps) found near by =
    run_meanwhile-keeps at later key (after_meanwhile s (requests now listens d v request)) steps
      (begin_control-keeps now at listens s key d v request found (omega (arith, by.0))) near by.1
run_meanwhile-keeps at later key s (answers d v r result ∷ steps) found near by =
    run_meanwhile-keeps at later key (after_meanwhile s (answers d v r result)) steps
      (ground (arith, found)) near by.1
run_meanwhile-keeps at later key s (gives_up k result ∷ steps) found near by =
    run_meanwhile-keeps at later key (after_meanwhile s (gives_up k result)) steps found near by.1
run_meanwhile-keeps at later key s (others t ∷ steps) found near by =
    run_meanwhile-keeps at later key (after_meanwhile s (others t)) steps found near by.1

-- A device's second request within `CONTROL_MIN_INTERVAL_MS` of one that was passed on is not passed on,
-- whatever it asks, and whatever requests of this and of other devices, at times up to its own, answers,
-- ends and other handlers came in between.
pub begin_control-interval :
    (now later : ℕ) (listens listens' : Bool) (s : AppState) (desktop_id device_id : Str)
    (request request' : EncryptedControlPayload) (channel channel' : ℕ)
    (message message' : DesktopServerMessage) (steps : List Meanwhile)
    → (begin_control now listens s desktop_id device_id request).1 ≡ waits channel message
    → All (IsBy later) steps
    → later - now < 500
    → ¬ (begin_control later listens'
        (run_meanwhile (begin_control now listens s desktop_id device_id request).0 steps)
        desktop_id
        device_id
        request').1
      ≡ waits channel' message'
begin_control-interval now later listens listens' s desktop_id device_id request request' channel
      channel' message message' steps e by near again =
    let key : RouteKey = (desktop_id, device_id) in
    let begun = (begin_control now listens s desktop_id device_id request).0 in
    let first =
      begin_control-limited now listens s desktop_id device_id request channel message e in
    let recorded : get key begun.control_last_at ≡ some now =
      rw first.1 (rate_limit-recorded now key s.control_last_at first.0) in
    let kept = run_meanwhile-keeps now later key begun steps recorded near by in
    let second =
      begin_control-limited later listens' (run_meanwhile begun steps) desktop_id device_id request'
        channel' message' again in
    let refused =
      rate_limit-refused later now key (run_meanwhile begun steps).control_last_at kept near in
    cc (refused, second.0)
