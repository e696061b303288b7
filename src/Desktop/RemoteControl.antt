-- ===== src/Desktop/RemoteControl.antt =====
-- src-tauri/src/monitor_control.rs: a phone's control requests at the desktop. A reconnect runs on a
-- thread of its own, whose end is `run_reconnect`. Opening and sealing a payload (monitor_crypto.rs on ring's AES, serde_json) and
-- `monitor_status::fresh_payload` are parameters.
pub mod Retries
pub mod Reconnects
use chat_x.Prelude.{
  ℕ, ◌-◌, Bool, true, false, not, ◌&&◌, ◌||◌, Option, none, some, List, [], ◌∷◌, ◌++◌, Str, codes,
  Dict, get, insert, retain, ◌==◌, str_eq, nat_beq, ltb, leb, if◌then◌else◌, length, drop, all,
  Result, ok, err, ◌>>=◌, ◌>>◌, fail_if, ok_or, saturating_add,
}
use chat_x.Text.{starts_with, is_ascii_hexdigit}
use chat_x.Protocol.Messages.{EncryptedControlPayload}

pub record CacheEntry : Type 0 where
  pub expires_at : ℕ
  pub issued_at : ℕ
  pub nonce : Str
  pub ciphertext : Str
  pub response : EncryptedControlPayload

-- `ControlCache`.
abbrev pub ControlCache : Type 0
ControlCache = Dict Str CacheEntry

-- One constructor for each error of the source.
pub data ControlError : Type 0 where
  device_revoked bad_request unreadable conflict not_sealed : ControlError

-- `format!("{device_id}|{}", request.request_id)`
abbrev pub cache_key : Str → EncryptedControlPayload → Str
cache_key device_id request = device_id ++ codes "|" ++ request.request_id

abbrev pub is_kept : ℕ → Str → CacheEntry → Bool
is_kept now _ entry = leb now entry.expires_at

differs : EncryptedControlPayload → CacheEntry → Bool
differs request entry =
    not (nat_beq entry.issued_at request.issued_at)
    || (not (nat_beq entry.expires_at request.expires_at)
        || (not (entry.nonce == request.nonce) || not (entry.ciphertext == request.ciphertext)))

cached_of :
    EncryptedControlPayload
    → Option CacheEntry
    → Result ControlError (Option EncryptedControlPayload)
unfolding differs
cached_of request none = ok none
cached_of request (some entry) =
    if differs request entry then err conflict else ok (some entry.response)

unfoldable pub cached_response :
    ℕ
    → Str
    → EncryptedControlPayload
    → ControlCache
    → ControlCache × Result ControlError (Option EncryptedControlPayload)
unfolding cached_of
cached_response now device_id request cache =
    let kept = retain (is_kept now) cache in
    (kept, cached_of request (get (cache_key device_id request) kept))

abbrev pub entry_of : EncryptedControlPayload → EncryptedControlPayload → CacheEntry
entry_of request response = record {
  expires_at = request.expires_at;
  issued_at = request.issued_at;
  nonce = request.nonce;
  ciphertext = request.ciphertext;
  response = response;
}

unfoldable pub remember :
    Str → EncryptedControlPayload → EncryptedControlPayload → ControlCache → ControlCache
remember device_id request response cache =
    insert (cache_key device_id request) (entry_of request response) cache

unfoldable pub validate_request : ℕ → EncryptedControlPayload → Result ControlError (Unit {0})
validate_request now request =
    let valid_id =
      starts_with (codes "c_") request.request_id
      && (leb 18 (length request.request_id)
          && (leb (length request.request_id) 80
              && all is_ascii_hexdigit (drop 2 request.request_id))) in
    let valid_time =
      leb request.issued_at (saturating_add now 30_000)
      && (leb (now - request.issued_at) 60_000
          && (leb now request.expires_at
              && leb request.expires_at (saturating_add request.issued_at 60_000))) in
    fail_if (not valid_id || not valid_time) bad_request

pub data Phase : Type 0 where
  idle reconnecting verifying failed : Phase

-- What a reconnect reads and writes of the desktop's settings and state.
pub record Tunnel : Type 0 where
  pub https_enabled : Bool
  pub connection_intent : Bool
  pub desired_connected : Bool
  pub quitting : Bool
  pub tunnel_id_set : Bool
  pub runtime_key : Bool
  pub snapshot_active : Bool
  pub snapshot_healthy : Bool
  pub last_probe_at : ℕ
  pub is_reconnecting : Bool
  pub reconnect_running : Bool
  pub last_reconnect_at : ℕ
  pub phase : Phase
  pub reconnect_attempt : ℕ

pub data ReconnectRefusal : Type 0 where
  uses_https stopped_by_hand no_tunnel_id already_healthy busy too_often no_runtime_key
        busy_remotely :
      ReconnectRefusal

is_healthy : ℕ → Tunnel → Bool
is_healthy now t =
    t.snapshot_active
    && (t.snapshot_healthy && (ltb 0 t.last_probe_at && leb (now - t.last_probe_at) 12_000))

check_reconnect : ℕ → ℕ → Tunnel → Result ReconnectRefusal (Unit {0})
unfolding is_healthy
check_reconnect health_now now t = do
  fail_if t.https_enabled uses_https
  fail_if (not t.connection_intent || not t.desired_connected) stopped_by_hand
  fail_if (not t.tunnel_id_set) no_tunnel_id
  fail_if (is_healthy health_now t) already_healthy
  fail_if (t.reconnect_running || t.is_reconnecting) busy
  fail_if (ltb 0 t.last_reconnect_at && ltb (now - t.last_reconnect_at) 10_000) too_often
  fail_if (not t.runtime_key) no_runtime_key
  fail_if t.reconnect_running busy_remotely

unfoldable pub trigger_tunnel_reconnect :
    ℕ → ℕ → Tunnel → Tunnel × Result ReconnectRefusal (Unit {0})
unfolding check_reconnect
trigger_tunnel_reconnect health_now now t = elim (check_reconnect health_now now t) [
  | err e ↦ (t, err e)
  | ok _ ↦ (
    record t {
      reconnect_running = true;
      last_reconnect_at = now;
      is_reconnecting = true;
      phase = reconnecting;
    },
    ok tt,
  )
]

-- Tested again under the lock of the connection coordinator.
unfoldable pub may_start : Tunnel → Bool
may_start t =
    not (t.quitting || (t.https_enabled || (not t.connection_intent || not t.desired_connected)))

-- The thread, up to its end: whether the lock was taken, what `start_runtime_connection` returned, and
-- whether the tunnel recovered. The flag says whether the connection was started.
unfoldable pub run_reconnect : Bool → Bool → Bool → Tunnel → Tunnel × Bool
run_reconnect locked started recovered t =
    let begun = locked && may_start t in
    let well = begun && (started && recovered) in
    (
      record t {
        phase = if well then idle else failed;
        reconnect_attempt = if well then 0 else t.reconnect_attempt;
        is_reconnecting = false;
        reconnect_running = false;
      },
      begun,
    )

-- The answer before it is sealed.
pub data Answer : Type 0 where
  refreshed : Bool → Answer
  reconnects : Result ReconnectRefusal (Unit {0}) → Answer
  unsupported : Answer

-- `known` is what `has_monitor_device` returns; a time for each call of `timestamp_ms`.
pub record ControlCall : Type 0 where
  pub known : Bool
  pub device_id : Str
  pub request : EncryptedControlPayload
  pub valid_at : ℕ
  pub now : ℕ
  pub health_now : ℕ
  pub reconnect_now : ℕ

pub record RemoteState : Type 0 where
  pub cache : ControlCache
  pub tunnel : Tunnel

module _ (open_request : Str → EncryptedControlPayload → Option Str)
    (seal : Str → EncryptedControlPayload → Answer → Option EncryptedControlPayload)
    (fresh_payload : Tunnel → Tunnel × Bool) where
  unfoldable pub check_call : ControlCall → Result ControlError Str
  check_call call = do
    fail_if (not call.known) device_revoked
    validate_request call.valid_at call.request
    ok_or (open_request call.device_id call.request) unreadable

  unfoldable pub perform : ControlCall → Str → Tunnel → Tunnel × Answer
  perform call action t =
      if action == codes "refresh_snapshot"
      then ((fresh_payload t).0, refreshed (fresh_payload t).1)
      else if action == codes "reconnect_tunnel"
      then (
        (trigger_tunnel_reconnect call.health_now call.reconnect_now t).0,
        reconnects (trigger_tunnel_reconnect call.health_now call.reconnect_now t).1,
      )
      else (t, unsupported)

  -- A request that is new: performed, sealed and remembered.
  unfoldable pub perform_new :
      ControlCall
      → Str
      → ControlCache
      → Tunnel
      → RemoteState × Result ControlError EncryptedControlPayload
  perform_new call action kept t =
      let done = perform call action t in
      elim (seal call.device_id call.request done.1) [
        | none ↦ (record { cache = kept; tunnel = done.0 }, err not_sealed)
        | some response ↦ (
          record { cache = remember call.device_id call.request response kept; tunnel = done.0 },
          ok response,
        )
      ]

  -- With the cache locked.
  unfoldable pub answer_call :
      ControlCall → Str → RemoteState → RemoteState × Result ControlError EncryptedControlPayload
  answer_call call action s =
      let found = cached_response call.now call.device_id call.request s.cache in
      elim found.1 [
        | err e ↦ (record s { cache = found.0 }, err e)
        | ok none ↦ perform_new call action found.0 s.tunnel
        | ok (some response) ↦ (record s { cache = found.0 }, ok response)
      ]

  -- `handle`.
  unfoldable pub handle_control :
      ControlCall → RemoteState → RemoteState × Result ControlError EncryptedControlPayload
  handle_control call s = elim (check_call call) [
    | err e ↦ (s, err e)
    | ok action ↦ answer_call call action s
  ]
