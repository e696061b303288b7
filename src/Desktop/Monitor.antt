-- ===== src/Desktop/Monitor.antt =====
-- src-tauri/src/monitor_manager.rs: the phones that a desktop has paired, and the grant of a pairing. What
-- `load_monitor_devices_from_disk` would read is the field `stored`; the file itself is in
-- Desktop.Monitor.File. The digest, the keys that are derived (monitor_crypto.rs) and the calls of the
-- relay (relay.rs) are arguments.
pub mod File
pub mod Pairings
pub mod Revocations
use chat_x.Prelude.{
  ℕ, ◌-◌, Bool, true, false, not, ◌&&◌, ◌||◌, Option, none, some, List, [], ◌∷◌, ◌++◌, Str, codes,
  ◌==◌, str_eq, nat_beq, ltb, leb, if◌then◌else◌, length, take, any, Result, ok, err, ◌>>=◌, ◌>>◌,
  fail_if, ok_or,
}
use chat_x.Text.{take_chars, trim}
use chat_x.Relay.Registry.{token_hash, constant_time_hex_eq}

pub record MonitorDeviceRecord : Type 0 where
  pub id : Str
  pub name : Str
  pub token_hash : Str
  pub created_at : ℕ
  pub last_seen_at : Option ℕ

pub record MonitorPairingGrant : Type 0 where
  pub pairing_id : Str
  pub pairing_code : Str
  pub code_hash : Str
  pub expires_at : ℕ

-- One constructor for each error of the source.
pub data MonitorError : Type 0 where
  no_grant grant_expired bad_code no_code : MonitorError
  unreadable not_saved too_many no_key no_random relay_refused : MonitorError

abbrev pub Devices : Type 0
Devices = List MonitorDeviceRecord

pub record MonitorState : Type 0 where
  pub pairing : Option MonitorPairingGrant
  pub devices : Option Devices
  pub stored : Result MonitorError Devices

-- How a save went: done, failed with the file as it was, or failed with no file left.
pub data SaveOutcome : Type 0 where
  saved kept lost : SaveOutcome

unfoldable pub claim_pairing_grant :
    (Str → Str)
    → Str
    → ℕ
    → Option MonitorPairingGrant
    → Option MonitorPairingGrant × Result MonitorError MonitorPairingGrant
claim_pairing_grant digest code now none = (none, err no_grant)
claim_pairing_grant digest code now (some grant) =
    if ltb grant.expires_at now
    then (none, err grant_expired)
    else if not (constant_time_hex_eq (token_hash digest code) grant.code_hash)
    then (some grant, err bad_code)
    else (none, ok grant)

unfoldable pub restore_pairing_grant :
    MonitorPairingGrant → ℕ → Option MonitorPairingGrant → Option MonitorPairingGrant
restore_pairing_grant grant now (some newer) = some newer
restore_pairing_grant grant now none = if ltb grant.expires_at now then none else some grant

-- `ensure_monitor_devices_loaded`
unfoldable pub loaded : MonitorState → Result MonitorError Devices
loaded s = elim s.devices [ none ↦ s.stored | some devices ↦ ok devices ]

-- `save_monitor_devices`: what a restart would read then, and whether it returned `Ok`.
unfoldable pub after_save :
    SaveOutcome → Devices → Result MonitorError Devices → Result MonitorError Devices × Bool
after_save saved devices stored = (ok devices, true)
after_save kept devices stored = (stored, false)
after_save lost devices stored = (ok [], false)

-- The devices are changed, and put back where the save fails.
unfoldable pub store_devices : SaveOutcome → Devices → Devices → MonitorState → MonitorState × Bool
store_devices outcome previous devices s =
    let (stored, done) = after_save outcome devices s.stored in
    (record s { devices = some (if done then devices else previous); stored = stored }, done)

without : Str → Devices → Devices
without device_id [] = []
without device_id (device ∷ devices) =
    let rest = without device_id devices in if device.id == device_id then rest else device ∷ rest

unfoldable pub has_device_id : Str → Devices → Bool
has_device_id device_id devices = any (λ device. device.id == device_id) devices

unfoldable pub has_monitor_device : MonitorState → Str → MonitorState × Result MonitorError Bool
has_monitor_device s device_id = elim (loaded s) [
  | err e ↦ (s, err e)
  | ok devices ↦ (record s { devices = some devices }, ok (has_device_id device_id devices))
]

unfoldable pub revoke_monitor_device_local :
    SaveOutcome → Str → MonitorState → MonitorState × Result MonitorError Bool
unfolding without
revoke_monitor_device_local outcome device_id s = elim (loaded s) [
  | err e ↦ (s, err e)
  | ok devices ↦
      let left = without device_id devices in
      if nat_beq (length left) (length devices)
      then (record s { devices = some left }, ok false)
      else (
        (store_devices outcome devices left s).0,
        (if (store_devices outcome devices left s).1 then ok true else err not_saved),
      )
]

module _ (digest : Str → Str) where
  matches : Str → Str → MonitorDeviceRecord → Bool
  matches device_id token device =
      device.id == device_id && constant_time_hex_eq (token_hash digest token) device.token_hash

  should_update : ℕ → Option ℕ → Bool
  should_update now none = true
  should_update now (some seen) = leb 60_000 (now - seen)

  -- The first device that matches, with the time at which it was seen; `none` where there is none, and
  -- the flag says whether a time was changed.
  touch : ℕ → Str → Str → Devices → Option (Devices × Bool)
  unfolding matches should_update
  touch now device_id token [] = none
  touch now device_id token (device ∷ devices) =
      let rest = touch now device_id token devices in
      if matches device_id token device
      then (if should_update now device.last_seen_at
          then some (record device { last_seen_at = some now } ∷ devices, true)
          else some (device ∷ devices, false))
      else elim rest [ none ↦ none | some (touched, changed) ↦ some (device ∷ touched, changed) ]

  unfoldable pub monitor_device_token_authorized :
      SaveOutcome → ℕ → Str → Str → MonitorState → MonitorState × Bool
  unfolding touch
  monitor_device_token_authorized outcome now device_id token s = elim (loaded s) [
    | err e ↦ (s, false)
    | ok devices ↦ elim (touch now device_id token devices) [
      | none ↦ (record s { devices = some devices }, false)
      | some (touched, changed) ↦
          if changed
          then ((store_devices outcome devices touched s).0, true)
          else (record s { devices = some devices }, true)
    ]
  ]

-- A pairing call: the code and the name that the phone sent, where they are texts; a time for each
-- `timestamp_ms`; whether the master key is there; the random text of an id; the direct token of a device, where it can be derived;
-- whether the relay, if there is one, granted the device; and the save.
pub record PairingCall : Type 0 where
  pub code : Option Str
  pub name : Option Str
  pub claimed_at : ℕ
  pub created_at : ℕ
  pub restored_at : ℕ
  pub master_key : Bool
  pub random : Option Str
  pub direct_token : Str → Option Str
  pub relay_grants : Option Bool
  pub saving : SaveOutcome

abbrev nonempty : Str → Option Str
nonempty [] = none
nonempty (c ∷ s) = some (c ∷ s)

-- `map(str::trim).filter(|value| !value.is_empty())`
unfoldable pub given : Option Str → Option Str
given none = none
given (some value) = nonempty (trim value)

-- `unwrap_or("Android Device")`, of at most 80 characters.
unfoldable pub device_name : Option Str → Str
device_name none = codes "Android Device"
device_name (some name) = take_chars 80 name

-- The id and the direct token of the new device, as far as nothing is changed.
check_pairing : PairingCall → Devices → Result MonitorError (Str × Str)
check_pairing call devices = do
  fail_if (leb 32 (length devices)) too_many
  fail_if (not call.master_key) no_key
  random ← ok_or call.random no_random
  let id = codes "dev_" ++ take 24 random
  token ← ok_or (call.direct_token id) no_key
  fail_if (elim call.relay_grants [ none ↦ false | some granted ↦ not granted ]) relay_refused
  ok (id, token)

module _ (digest : Str → Str) where
  abbrev pub new_device : PairingCall → Str → Str → Str → MonitorDeviceRecord
  new_device call name id token = record {
    id = id;
    name = name;
    token_hash = token_hash digest token;
    created_at = call.created_at;
    last_seen_at = some call.created_at;
  }

  -- `complete_claimed_monitor_pairing`
  unfoldable pub complete_claimed :
      PairingCall → Str → MonitorState → MonitorState × Result MonitorError (Str × Str)
  unfolding check_pairing
  complete_claimed call name s = elim (loaded s) [
    | err e ↦ (s, err e)
    | ok devices ↦ elim (check_pairing call devices) [
      | err e ↦ (record s { devices = some devices }, err e)
      | ok (id, token) ↦
          let extended = devices ++ new_device call name id token ∷ [] in
          (
            (store_devices call.saving devices extended s).0,
            (if (store_devices call.saving devices extended s).1
                then ok (id, token)
                else err not_saved),
          )
    ]
  ]

  finish_pairing_call :
      PairingCall
      → MonitorPairingGrant
      → MonitorState × Result MonitorError (Str × Str)
      → MonitorState × Result MonitorError (Str × Str)
  finish_pairing_call call grant (s, ok result) = (s, ok result)
  finish_pairing_call call grant (s, err e) =
      (record s { pairing = restore_pairing_grant grant call.restored_at s.pairing }, err e)

  unfoldable pub complete_monitor_pairing :
      PairingCall → MonitorState → MonitorState × Result MonitorError (Str × Str)
  unfolding given device_name finish_pairing_call
  complete_monitor_pairing call s = elim (given call.code) [
    | none ↦ (s, err no_code)
    | some code ↦
        let claim = claim_pairing_grant digest code call.claimed_at s.pairing in
        elim claim.1 [
          | err e ↦ (record s { pairing = claim.0 }, err e)
          | ok grant ↦ finish_pairing_call call grant (
              complete_claimed call (device_name (given call.name))
                (record s { pairing = claim.0 }))
        ]
  ]
