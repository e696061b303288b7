-- ===== src/Desktop/Monitor/Revocations.antt =====
-- Which phones a desktop takes before and after a revocation: src-tauri/src/monitor_manager.rs.
use chat_x.Prelude.{
  ℕ, ◌⊎◌, ◌≡◌, Bool, false, [], ◌∷◌, Str, ◌==◌, str_eq, str_beq_iff, if◌then◌else◌, is_some, ok,
  err, arith, Result-cases, inl, inr,
}
use chat_x.Desktop.Monitor.{
  Devices, MonitorState, MonitorError, SaveOutcome, saved, lost, loaded, after_save, store_devices,
  without, revoke_monitor_device_local, monitor_device_token_authorized, touch, matches,
}

module _ (digest : Str → Str) where
  -- Whether a token is taken, on the devices alone.
  abbrev accepts : ℕ → Str → Str → Devices → Bool
  accepts now device_id token devices = is_some (touch digest now device_id token devices)

  touch-without :
      (now : ℕ) (gone device_id token : Str) (devices : Devices)
      → accepts now device_id token (without gone devices)
        ≡ (if gone == device_id then false else accepts now device_id token devices)
  unfolding touch without matches
  touch-without now gone device_id token [] = ground arith
  touch-without now gone device_id token (device ∷ devices) = ground (
    arith,
    touch-without now gone device_id token devices,
    str_beq_iff device.id gone,
    str_beq_iff device.id device_id,
    str_beq_iff gone device_id,
  )

  authorized-accepts :
      (outcome : SaveOutcome) (now : ℕ) (device_id token : Str) (s : MonitorState)
      (devices : Devices)
      → loaded s ≡ ok devices
      → (monitor_device_token_authorized digest outcome now device_id token s).1
        ≡ accepts now device_id token devices
  unfolding monitor_device_token_authorized
  authorized-accepts outcome now device_id token s devices e = ground (arith, e)

  revoke-loaded :
      (device_id : Str) (s s' : MonitorState) (found : Bool)
      → revoke_monitor_device_local saved device_id s ≡ (s', ok found)
      → (devices : Devices) × (loaded s ≡ ok devices) × (loaded s' ≡ ok (without device_id devices))
  unfolding revoke_monitor_device_local loaded store_devices after_save
  revoke-loaded device_id s s' found e = elim (Result-cases (loaded s)) [
    | inl (_, bad) ↦ absurd (ground (arith, e, bad))
    | inr (devices, good) ↦ (devices, good, ground (arith, e, good))
  ]

  -- After a revocation that is saved, or that found no such phone, the desktop takes no token for the
  -- phone, and takes the tokens of every other phone as before.
  pub revoke_monitor_device_local-authorized :
      (outcome : SaveOutcome) (now : ℕ) (device_id other token : Str) (s s' : MonitorState)
      (found : Bool)
      → revoke_monitor_device_local saved device_id s ≡ (s', ok found)
      → (monitor_device_token_authorized digest outcome now other token s').1 ≡ (
          if device_id == other
          then false
          else (monitor_device_token_authorized digest outcome now other token s).1)
  revoke_monitor_device_local-authorized outcome now device_id other token s s' found e =
      let (devices, before, after) = revoke-loaded device_id s s' found e in
      rw
        (
          authorized-accepts outcome now other token s' (without device_id devices) after,
          authorized-accepts outcome now other token s devices before,
        )
        (touch-without now device_id other token devices)

-- A revocation that fails leaves the phones in memory as they were, and in the file if it is still there.
pub revoke_monitor_device_local-failed :
    (outcome : SaveOutcome) (device_id : Str) (s s' : MonitorState) (e : MonitorError)
    → revoke_monitor_device_local outcome device_id s ≡ (s', err e)
    → (loaded s' ≡ loaded s) × ((s'.stored ≡ s.stored) ⊎ (outcome ≡ lost))
unfolding revoke_monitor_device_local loaded store_devices after_save
revoke_monitor_device_local-failed outcome device_id s s' e h = elim (Result-cases (loaded s)) [
  | inl (_, bad) ↦ (ground (arith, h, bad), ground (arith, h, bad))
  | inr (devices, good) ↦ (ground (arith, h, good), ground (arith, h, good))
]
