-- ===== src/Tests/Enrollment.antt =====
-- Enrollment codes, registrations, grants and the registry's file.
use chat_x.Prelude.{
  ◌≡◌, refl, Option, none, some, true, false, codes, ok, List, [], ◌∷◌, get, insert, arith, str_beq,
  str_eq, remove, retain, err,
}
use chat_x.Relay.State.{AppState, load, device_authorized, desktop_authorized}
use chat_x.Relay.Registry.{
  Registry, DesktopRecord, empty, hash_matches, constant_time_hex_eq, token_hash,
}
use chat_x.Relay.Registry.Files.{SaveFaults, Disk, save, replace_failed}
use chat_x.Relay.Registry.Files.Crash.{
  IsAtomic, save-IsAtomic, save-loses, replace_and_restore_fail, replace_fails, reads, last_of,
}
use chat_x.Relay.Reply.{code_already_used, failed, registered, bearer}
use chat_x.Relay.Gateway.{revoke_desktop, fail_session, is_selected, retire}
use chat_x.Relay.Devices.{
  RegisterCall, register_desktop, check_registration, commit_registration, created_or, devices_of,
  registration_invite, valid_desktop_id, desktop_registration_record, use_invite,
}
use chat_x.Relay.Grants.{revoke_device, check_revoke, check_desktop}
use chat_x.Relay.Grants.Access.{revoke_device-device_authorized}
use chat_x.Relay.Transactions.{
  Request, register, revoke, handle, serve, IsTransaction, SameRegistry, handle-IsTransaction,
  serve-SameRegistry,
}
use chat_x.Relay.Enrollment.{Succeeds, register_desktop_once, register_desktop-registered}
use chat_x.Relay.Gateway.Revoked.{IsRevoked}
use chat_x.Tests.Fixtures.{
  digest, platform, desktop_id, other_desktop, device_id, nonce_hash, code, bearer_of, call_of,
  fresh_relay, relay, registry, desktop_record,
}
use chat_x.Text.{
  trim, strip_prefix, split, is_ascii_hexdigit, starts_with, ends_with_byte, attach,
  is_ascii_alphanumeric, trim_end, trim_start, take_chars,
}
use chat_x.Text.Hex.{to_hex, from_pairs, from_pair, hex_digit}
use chat_x.Protocol.Registration.{parse_code, decode_hex}

abbrev first_call : RegisterCall
first_call = call_of desktop_id code (codes "k") 1_000

abbrev later_call : RegisterCall
later_call = call_of other_desktop code (codes "n") 3_000

abbrev admin_call : RegisterCall
admin_call = call_of other_desktop (codes "t") (codes "l") 2_000

abbrev after_first : AppState
after_first = (register_desktop platform fresh_relay first_call).0

abbrev between : List Request
between = register admin_call ∷ []

first_check :
    check_registration platform fresh_relay first_call
    ≡ ok (some (nonce_hash, 400_000), desktop_id, codes "k")
unfolding check_registration load trim bearer strip_prefix registration_invite hash_matches
    constant_time_hex_eq token_hash to_hex parse_code split str_beq is_ascii_hexdigit from_pairs
    starts_with ends_with_byte decode_hex valid_desktop_id from_pair hex_digit attach
    is_ascii_alphanumeric trim_end trim_start
first_check = refl

first_registers :
    register_desktop platform fresh_relay first_call
    ≡ (after_first, registered desktop_id (codes "k"))
unfolding starts_with get insert remove retain decode_hex commit_registration created_or
    desktop_registration_record devices_of use_invite valid_desktop_id fail_session is_selected
    retire revoke_desktop from_pair hex_digit attach ends_with_byte is_ascii_alphanumeric take_chars
    trim_end trim_start register_desktop check_registration load trim bearer strip_prefix
    registration_invite hash_matches constant_time_hex_eq token_hash to_hex parse_code split str_beq
    from_pairs
first_registers = refl

later_check :
    check_registration platform (serve platform after_first between) later_call
    ≡ ok (some (nonce_hash, 400_000), other_desktop, codes "n")
unfolding starts_with get insert remove retain decode_hex commit_registration created_or
    desktop_registration_record devices_of use_invite valid_desktop_id fail_session is_selected
    retire revoke_desktop from_pair hex_digit attach ends_with_byte is_ascii_alphanumeric take_chars
    trim_end trim_start register_desktop check_registration load trim bearer strip_prefix
    registration_invite hash_matches constant_time_hex_eq token_hash to_hex parse_code split str_beq
    from_pairs serve handle
later_check = refl

register_desktop_once_example :
    register_desktop platform (serve platform after_first between) later_call
    ≡ (serve platform after_first between, failed 401 code_already_used)
register_desktop_once_example =
    register_desktop_once platform fresh_relay after_first first_call later_call between nonce_hash
      desktop_id (codes "k") other_desktop (codes "n") desktop_id (codes "k") 400_000 400_000
      first_check first_registers (omega arith, tt) later_check

register_desktop-registered_example :
    (r : DesktopRecord) × (get desktop_id after_first.registry.desktops ≡ some r)
    × (hash_matches digest (codes "k") r.token_hash ≡ true)
    × Succeeds 1_000 (get desktop_id fresh_relay.registry.desktops) r
    × IsRevoked desktop_id fresh_relay.mcp_gateway after_first.mcp_gateway
unfolding str_beq
register_desktop-registered_example =
    register_desktop-registered platform fresh_relay after_first first_call desktop_id (codes "k")
      desktop_id first_registers

abbrev lost_revoke : Request
lost_revoke = revoke false desktop_id device_id (bearer_of (codes "k"))

handle-IsTransaction_example :
    IsTransaction relay (handle platform relay lost_revoke).0 (handle platform relay lost_revoke).1
handle-IsTransaction_example = handle-IsTransaction platform relay lost_revoke

relay-SameRegistry : SameRegistry relay.last_saved relay.registry
unfolding load
relay-SameRegistry = record { desktops = λ id. refl; invites = λ id. refl }

serve-SameRegistry_example :
    SameRegistry
      (serve platform relay (lost_revoke ∷ register admin_call ∷ [])).last_saved
      (serve platform relay (lost_revoke ∷ register admin_call ∷ [])).registry
serve-SameRegistry_example =
    serve-SameRegistry platform relay (lost_revoke ∷ register admin_call ∷ []) relay-SameRegistry

-- A text that cannot be parsed is `none`.
abbrev parse_text : Option Registry → Option Registry
parse_text text = text

abbrev torn_write : SaveFaults (Option Registry)
torn_write = record {
  create_dir = false;
  serialize = false;
  write = false;
  torn = some none;
  remove_backup = false;
  make_backup = false;
  replace = true;
  restore = true;
  drop_backup = false;
}

abbrev disk : Disk (Option Registry)
disk = record { primary = some (some empty); backup = none; temp = none }

save-IsAtomic_example :
    IsAtomic some parse_text empty registry disk
      (save some parse_text true torn_write registry disk)
save-IsAtomic_example =
    save-IsAtomic some parse_text (λ r. refl) torn_write empty registry (some empty) refl true disk
      refl

abbrev full_disk : Disk (Option Registry)
full_disk = record { primary = some (some registry); backup = none; temp = none }

save-loses_example :
    ((save some parse_text true replace_and_restore_fail empty full_disk).0 ≡ err replace_failed)
    × (reads some parse_text
          (last_of full_disk (save some parse_text true replace_and_restore_fail empty full_disk).1)
        ≡ ok registry)
    × ((save some parse_text true replace_fails empty (
          last_of full_disk
            (save some parse_text true replace_and_restore_fail empty full_disk).1)).0
        ≡ err replace_failed)
    × (reads some parse_text (
          last_of full_disk
            (save some parse_text true replace_fails empty (
              last_of full_disk
                (save some parse_text true replace_and_restore_fail empty full_disk).1)).1)
        ≡ ok empty)
save-loses_example =
    save-loses some parse_text full_disk (some registry) registry empty empty refl refl

revoked_check : check_revoke digest relay desktop_id (bearer_of (codes "k")) ≡ ok desktop_record
unfolding check_revoke check_desktop bearer strip_prefix trim desktop_authorized get load str_beq
    hash_matches constant_time_hex_eq token_hash to_hex
revoked_check = refl

revoke_device-device_authorized_example :
    device_authorized digest
      (revoke_device digest true relay desktop_id device_id (bearer_of (codes "k"))).0
      desktop_id
      device_id
      (codes "m")
    ≡ false
unfolding str_beq
revoke_device-device_authorized_example =
    revoke_device-device_authorized digest relay desktop_id device_id (bearer_of (codes "k"))
      desktop_id device_id (codes "m") desktop_record revoked_check
