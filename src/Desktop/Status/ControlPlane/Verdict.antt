-- ===== src/Desktop/Status/ControlPlane/Verdict.antt =====
-- The verdict on the control plane, told without the loop's locals.
use chat_x.Prelude.{
  ℕ, ◌+◌, ◌≤◌, ◌<◌, ◌≡◌, refl, ap₂, ◌∙◌, min, Bool, true, false, some, List, [], ◌∷◌, Str, codes,
  ◌==◌, str_eq, leb, if◌then◌else◌, length, arith, Bool-cases, inl, inr,
}
use chat_x.Desktop.Status.Json.{Json}
use chat_x.Desktop.Status.ControlPlane.{
  ControlPlaneObservation, Tally, is_failure, is_recovery, is_start, message_of, reason_of,
  tally_loop, conclude, control_plane_observation_from_events, is_empty, u32_max, count_failure,
}

abbrev fails : Json → Bool
fails event = is_failure (message_of event)

abbrev recovers : Json → Bool
recovers event = is_recovery (message_of event)

abbrev starts : Json → Bool
starts event = is_start (message_of event)

-- The failures back to the last recovery.
unfoldable pub failures_of : List Json → List Json
failures_of [] = []
failures_of (event ∷ events) =
    let rest = failures_of events in
    if fails event then event ∷ rest else if recovers event then [] else rest

-- The first of the failures' reasons that is not empty.
unfoldable pub first_reason : List Json → Str
first_reason [] = []
first_reason (event ∷ events) =
    let rest = first_reason events in if is_empty (reason_of event) then rest else reason_of event

-- The newest event that is a failure, a recovery or a start.
pub data Newest : Type 0 where
  nothing failure recovery start : Newest

unfoldable pub newest : List Json → Newest
newest [] = nothing
newest (event ∷ events) =
    let rest = newest events in
    if fails event
    then failure
    else if recovers event
    then recovery
    else if starts event
    then start
    else rest

unfoldable pub failing : ℕ → Str → ControlPlaneObservation
failing n reason = record {
  state = if leb 3 n then codes "down" else codes "suspect";
  reason = reason;
  consecutive_failures = n;
}

verdict_of : ControlPlaneObservation → Newest → List Json → ControlPlaneObservation
verdict_of fallback nothing failures = fallback
verdict_of fallback recovery failures = record {
  state = codes "healthy";
  reason = [];
  consecutive_failures = 0;
}
verdict_of fallback start failures =
    if fallback.state == codes "unknown"
    then record fallback { state = codes "starting" }
    else fallback
verdict_of fallback failure failures =
    failing (min (length failures) u32_max) (first_reason failures)

-- The newest event decides; where it is a failure, the failures since the last recovery are counted.
unfoldable pub verdict : ControlPlaneObservation → List Json → ControlPlaneObservation
unfolding verdict_of
verdict fallback events = verdict_of fallback (newest events) (failures_of events)

abbrev or_reason : Str → Str → Str
or_reason s t = if is_empty s then t else s

or_reason-nil : (s : Str) → or_reason s [] ≡ s
unfolding is_empty
or_reason-nil [] = refl
or_reason-nil (b ∷ s) = refl

stopped :
    (fallback : ControlPlaneObservation) (t : Tally)
    → 0 < t.failures
    → t.failures ≤ u32_max
    → conclude fallback (some t) ≡ failing (min (t.failures + 0) u32_max) (or_reason t.reason [])
unfolding conclude failing
stopped fallback t some_ small =
    let same : min (t.failures + 0) u32_max ≡ t.failures = omega arith in
    rw (same, or_reason-nil t.reason) (ground arith)

-- Once there is a failure the loop counts the failures to the last recovery.
counted :
    (fallback : ControlPlaneObservation) (t : Tally) (events : List Json)
    → 0 < t.failures
    → t.failures ≤ u32_max
    → conclude fallback (tally_loop t events)
      ≡ failing
          (min (t.failures + length (failures_of events)) u32_max)
          (or_reason t.reason (first_reason (failures_of events)))
unfolding tally_loop failures_of first_reason
counted fallback t [] some_ small = stopped fallback t some_ small
counted fallback t (event ∷ events) some_ small = elim (Bool-cases (fails event)) [
  | inl failed ↦ rw failed (
      counted fallback (count_failure event t) events (unfold count_failure in ground arith)
        (unfold count_failure in ground arith)
      ∙ ap₂ failing (unfold count_failure in ground arith) (unfold count_failure in ground arith))
  | inr fine ↦ elim (Bool-cases (recovers event)) [
    | inl recovered ↦ rw (fine, recovered) (ground (arith, stopped fallback t some_ small))
    | inr not_yet ↦ elim (Bool-cases (starts event)) [
      | inl started ↦
          rw (fine, not_yet, started)
            (ground (arith, counted fallback (record t { saw_start = true }) events some_ small))
      | inr nothing_new ↦ rw (fine, not_yet, nothing_new) (counted fallback t events some_ small)
    ]
  ]
]

-- The loop over the log's events, newest first, comes to the verdict: the newest failure, recovery or start
-- decides, and after a failure the failures since the last recovery are counted, with the first reason
-- that is not empty.
pub control_plane_observation_from_events-eq-verdict :
    (fallback : ControlPlaneObservation) (events : List Json)
    → control_plane_observation_from_events fallback events ≡ verdict fallback events
unfolding control_plane_observation_from_events tally_loop verdict newest failures_of first_reason
control_plane_observation_from_events-eq-verdict fallback [] = unfold conclude in refl
control_plane_observation_from_events-eq-verdict fallback (event ∷ events) =
    let t : Tally = record { failures = 0; reason = []; saw_start = false } in
    elim (Bool-cases (fails event)) [
      | inl failed ↦ rw failed (
          counted fallback (count_failure event t) events (unfold count_failure in ground arith)
            (unfold count_failure in ground arith)
          ∙ ap₂ failing (unfold count_failure in ground arith)
              (unfold count_failure is_empty in ground arith))
      | inr fine ↦ elim (Bool-cases (recovers event)) [
        | inl recovered ↦ rw (fine, recovered) (unfold conclude in refl)
        | inr not_yet ↦ elim (Bool-cases (starts event)) [
          | inl started ↦ rw (fine, not_yet, started) (unfold conclude in ground arith)
          | inr nothing_new ↦
              rw (fine, not_yet, nothing_new)
                (control_plane_observation_from_events-eq-verdict fallback events)
        ]
      ]
    ]
