-- ===== src/Tests/Monitors.antt =====
-- The desktop's phones: pairings, revocations, control requests and reconnects.
use chat_x.Prelude.{
  ℕ, ◌<◌, ◌≤◌, ◌≡◌, ◌⊎◌, refl, Bool, true, false, Option, none, some, List, [], ◌∷◌, ◌++◌, Str,
  codes, ok, err, length, arith, str_eq, str_beq, get, retain,
}
use chat_x.Protocol.Messages.{EncryptedControlPayload}
use chat_x.Relay.Registry.{token_hash, constant_time_hex_eq}
use chat_x.Desktop.RemoteControl.{
  Tunnel, idle, Answer, ControlCall, RemoteState, validate_request, check_call, handle_control,
  answer_call, cached_response, perform_new,
}
use chat_x.Desktop.RemoteControl.Retries.{handle_all, handle_control_retried}
use chat_x.Desktop.RemoteControl.Reconnects.{
  TunnelEvent, triggers, ends, accepted, Spaced, accepted-Spaced,
}
use chat_x.Desktop.Monitor.{
  Devices, MonitorDeviceRecord, MonitorPairingGrant, MonitorState, not_saved, bad_code, saved, lost,
  PairingCall, loaded, given, device_name, new_device, complete_monitor_pairing,
  revoke_monitor_device_local, claim_pairing_grant, complete_claimed, store_devices, after_save,
}
use chat_x.Desktop.Monitor.File.{
  MonitorFile, MonitorFaults, save_monitor_devices, restarts, last_file,
  save_monitor_devices-forgets,
}
use chat_x.Desktop.Monitor.Pairings.{complete_monitor_pairing-ok, complete_monitor_pairing-failed}
use chat_x.Tests.Fixtures.{digest}
use chat_x.Text.{starts_with, is_ascii_hexdigit, trim}
use chat_x.Text.Hex.{to_hex}

abbrev control : EncryptedControlPayload
control = record {
  request_id = codes "c_0123456789abcdef";
  issued_at = 1_000;
  expires_at = 60_000;
  nonce = codes "n";
  ciphertext = codes "x";
}

abbrev tunnel : Tunnel
tunnel = record {
  https_enabled = false;
  connection_intent = true;
  desired_connected = true;
  quitting = false;
  tunnel_id_set = true;
  runtime_key = true;
  snapshot_active = false;
  snapshot_healthy = false;
  last_probe_at = 0;
  is_reconnecting = false;
  reconnect_running = false;
  last_reconnect_at = 0;
  phase = idle;
  reconnect_attempt = 3;
}

abbrev opens : Str → EncryptedControlPayload → Option Str
opens device request = some (codes "reconnect_tunnel")

abbrev seals : Str → EncryptedControlPayload → Answer → Option EncryptedControlPayload
seals device request answer = some (record request { nonce = codes "reply" })

abbrev fresh : Tunnel → Tunnel × Bool
fresh t = (t, true)

abbrev control_call : ℕ → ControlCall
control_call now = record {
  known = true;
  device_id = codes "phone";
  request = control;
  valid_at = now;
  now = now;
  health_now = now;
  reconnect_now = now;
}

abbrev remote : RemoteState
remote = record { cache = []; tunnel = tunnel }

abbrev after_control : RemoteState
after_control = (handle_control opens seals fresh (control_call 20_000) remote).0

abbrev sealed_reply : EncryptedControlPayload
sealed_reply = record control { nonce = codes "reply" }

first_answer :
    handle_control opens seals fresh (control_call 20_000) remote ≡ (after_control, ok sealed_reply)
unfolding handle_control check_call validate_request starts_with is_ascii_hexdigit answer_call
    cached_response get retain perform_new
first_answer = refl

retry_checks : check_call opens seals fresh (control_call 50_000) ≡ ok (codes "reconnect_tunnel")
unfolding check_call validate_request starts_with is_ascii_hexdigit
retry_checks = refl

handle_control_retried_example :
    ((handle_control opens seals fresh
        (control_call 50_000)
        (handle_all opens seals fresh (control_call 30_000 ∷ []) after_control)).1
      ≡ ok sealed_reply)
    × ((handle_control opens seals fresh
          (control_call 50_000)
          (handle_all opens seals fresh (control_call 30_000 ∷ []) after_control)).0.tunnel
        ≡ (handle_all opens seals fresh (control_call 30_000 ∷ []) after_control).tunnel)
handle_control_retried_example =
    handle_control_retried opens seals fresh (control_call 20_000) (control_call 50_000)
      (control_call 30_000 ∷ []) remote after_control sealed_reply (codes "reconnect_tunnel")
      first_answer (omega arith, tt) refl refl retry_checks (omega arith)

abbrev requests : List TunnelEvent
requests =
    triggers 20_000 20_000
    ∷ ends true true true
    ∷ triggers 25_000 25_000
    ∷ triggers 31_000 31_000
    ∷ []

accepted-Spaced_example : Spaced 0 (accepted tunnel requests)
accepted-Spaced_example = accepted-Spaced tunnel requests

abbrev grant : MonitorPairingGrant
grant = record {
  pairing_id = codes "p_1";
  pairing_code = codes "k";
  code_hash = codes "6b";
  expires_at = 9_000;
}

abbrev unpaired : MonitorState
unpaired = record { pairing = some grant; devices = none; stored = ok [] }

abbrev pairing_call : Str → PairingCall
pairing_call code = record {
  code = some code;
  name = none;
  claimed_at = 5_000;
  created_at = 5_001;
  restored_at = 5_002;
  master_key = true;
  random = some (codes "000102030405060708090a0b0c0d0e0f");
  direct_token = λ id. some (codes "m");
  relay_grants = none;
  saving = saved;
}

abbrev pub phone_id : Str
phone_id = codes "dev_000102030405060708090a0b"

abbrev pub paired : MonitorState
paired = (complete_monitor_pairing digest (pairing_call (codes "k")) unpaired).0

pairs :
    complete_monitor_pairing digest (pairing_call (codes "k")) unpaired
    ≡ (paired, ok (phone_id, codes "m"))
unfolding complete_monitor_pairing trim claim_pairing_grant constant_time_hex_eq token_hash to_hex
    complete_claimed loaded store_devices after_save
pairs = refl

complete_monitor_pairing-ok_example :
    (g : MonitorPairingGrant) × (code : Str) × (devices : Devices) × (given (some (codes "k"))
      ≡ some code)
    × (some grant ≡ some g)
    × (5_000 ≤ g.expires_at)
    × (token_hash digest code ≡ g.code_hash)
    × (loaded unpaired ≡ ok devices)
    × (length devices < 32)
    × (some (codes "m") ≡ some (codes "m"))
    × (paired ≡ record {
      pairing = none;
      devices = some (
          devices
          ++ new_device digest
              (pairing_call (codes "k"))
              (device_name (given none))
              phone_id
              (codes "m")
            ∷ []);
      stored = ok (
          devices
          ++ new_device digest
              (pairing_call (codes "k"))
              (device_name (given none))
              phone_id
              (codes "m")
            ∷ []);
    })
complete_monitor_pairing-ok_example =
    complete_monitor_pairing-ok digest (pairing_call (codes "k")) unpaired paired phone_id
      (codes "m") pairs

abbrev still_unpaired : MonitorState
still_unpaired = (complete_monitor_pairing digest (pairing_call (codes "z")) unpaired).0

refuses :
    complete_monitor_pairing digest (pairing_call (codes "z")) unpaired
    ≡ (still_unpaired, err bad_code)
unfolding complete_monitor_pairing trim claim_pairing_grant constant_time_hex_eq token_hash to_hex
refuses = refl

complete_monitor_pairing-failed_example :
    (loaded still_unpaired ≡ loaded unpaired)
    × ((still_unpaired.stored ≡ unpaired.stored) ⊎ (saved ≡ lost))
    × ((still_unpaired.pairing ≡ some grant)
        ⊎ ((g : MonitorPairingGrant) × (some grant ≡ some g)
            × (still_unpaired.pairing ≡ none)
            × ((g.expires_at < 5_000) ⊎ (g.expires_at < 5_002))))
complete_monitor_pairing-failed_example =
    complete_monitor_pairing-failed digest (pairing_call (codes "z")) unpaired still_unpaired
      bad_code refuses

abbrev pub revoked : MonitorState
revoked = (revoke_monitor_device_local saved phone_id paired).0

pub revokes : revoke_monitor_device_local saved phone_id paired ≡ (revoked, ok true)
unfolding revoke_monitor_device_local loaded complete_monitor_pairing trim claim_pairing_grant
    constant_time_hex_eq token_hash to_hex complete_claimed store_devices after_save str_beq
revokes = refl

abbrev device : MonitorDeviceRecord
device = new_device digest (pairing_call (codes "k")) (codes "phone") phone_id (codes "m")

abbrev file : MonitorFile Devices
file = record { file = some (device ∷ []); temp = none }

abbrev no_rename : MonitorFaults Devices
no_rename = record { serialize = false; write = false; torn = none; remove = false; rename = true }

abbrev text_of : Devices → Devices
text_of devices = devices

save_monitor_devices-forgets_example :
    ((before after : List (MonitorFile Devices)) × (between : MonitorFile Devices)
      × ((save_monitor_devices text_of some true no_rename (device ∷ device ∷ []) file).1
          ≡ before ++ between ∷ after)
      × (restarts text_of some between ≡ ok []))
    × ((save_monitor_devices text_of some true no_rename (device ∷ device ∷ []) file).0
        ≡ err not_saved)
    × (restarts text_of some (
          last_file text_of some file
            (save_monitor_devices text_of some true no_rename (device ∷ device ∷ []) file).1)
        ≡ ok [])
save_monitor_devices-forgets_example =
    save_monitor_devices-forgets text_of some no_rename (device ∷ device ∷ []) file (device ∷ [])
      refl refl refl refl refl
