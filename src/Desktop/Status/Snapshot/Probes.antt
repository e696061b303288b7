-- ===== src/Desktop/Status/Snapshot/Probes.antt =====
-- Probes of the tunnel in a row, and the health that they end in.
use chat_x.Prelude.{
  ℕ, ◌≡◌, ◌↔◌, Bool, true, false, Option, none, some, List, [], ◌∷◌, Str, codes, str_eq, arith,
}
use chat_x.Desktop.Status.Json.{Json}
use chat_x.Desktop.Status.Payload.{is_one_of}
use chat_x.Desktop.Status.Runtime.{
  RuntimeObservation, TunnelRun, ran, not_run, ErrorTexts, runtime_status, observe_payload,
}
use chat_x.Desktop.Status.Snapshot.{
  TunnelSnapshot, project_runtime_snapshot, health_after, failures_after,
}

abbrev is_troubled : RuntimeObservation → Bool
is_troubled observation =
    is_one_of observation.control_plane.state
      (codes "down" ∷ codes "suspect" ∷ codes "starting" ∷ [])

active-untroubled :
    (texts : ErrorTexts) (lines : List (Option Json)) (run : TunnelRun)
    → (runtime_status texts lines run).active ≡ true
    → is_troubled (runtime_status texts lines run) ≡ false
unfolding runtime_status
active-untroubled texts lines (ran true stdout stderr (some parsed)) h =
    unfold observe_payload in ground arith
active-untroubled texts lines (ran true stdout stderr none) h = cc
active-untroubled texts lines (ran false stdout stderr parsed) h = ground arith
active-untroubled texts lines (not_run error) h = cc

health_after-healthy :
    (observation : RuntimeObservation) (desired_connected : Bool) (failures : ℕ)
    → (observation.active ≡ true → is_troubled observation ≡ false)
    → (health_after observation desired_connected failures ≡ codes "healthy")
      ↔ ((desired_connected ≡ true) × (observation.active ≡ true))
unfolding health_after
health_after-healthy observation desired_connected failures calm =
    (λ h. (ground arith, ground arith), λ both. ground (arith, calm both.1))

-- Of what one probe observed, the snapshot is healthy exactly where the user wants the tunnel and the probe
-- found it active.
pub project_runtime_snapshot-healthy :
    (texts : ErrorTexts) (lines : List (Option Json)) (run : TunnelRun) (now : ℕ)
    (current : TunnelSnapshot) (desired_connected advance_failures : Bool) (proxy_mode : Str)
    → ((project_runtime_snapshot now current
          (runtime_status texts lines run)
          desired_connected
          proxy_mode
          advance_failures).health
        ≡ codes "healthy")
      ↔ ((desired_connected ≡ true) × ((runtime_status texts lines run).active ≡ true))
unfolding project_runtime_snapshot
project_runtime_snapshot-healthy texts lines run now current desired_connected advance_failures
      proxy_mode =
    health_after-healthy (runtime_status texts lines run) desired_connected
      (failures_after current (runtime_status texts lines run) desired_connected advance_failures)
      (active-untroubled texts lines run)

-- A probe that finds the tunnel inactive, and in its log neither failures nor a start.
abbrev pub IsDead : Bool → RuntimeObservation → Type 0
IsDead alive observation =
    (observation.active ≡ false)
    × (observation.runtime_alive ≡ alive)
    × (observation.control_plane.consecutive_failures ≡ 0)
    × (is_one_of observation.control_plane.state (codes "suspect" ∷ codes "starting" ∷ []) ≡ false)

-- The snapshots of the reconnect loop: each probe counts.
unfoldable pub probes : TunnelSnapshot → Str → List (ℕ × RuntimeObservation) → TunnelSnapshot
probes s proxy_mode [] = s
probes s proxy_mode ((now, observation) ∷ more) =
    probes (project_runtime_snapshot now s observation true proxy_mode true) proxy_mode more
