-- ===== src/Relay/Gateway/Requests.antt =====
-- relay-server/src/mcp_gateway.rs: the websocket's credential, its hello, and a public HTTP request on its
-- way to the desktop. `check_request` is `public_request` up to its first `await` after the locks, and
-- `enter_request` what follows, in the gateway that other tasks have left: reading a legacy body, the
-- place in the queue and the packet. base64 is the parameter `base64_encode`.
use chat_x.Prelude.{
  ℕ, ◌&&◌, Bool, true, false, not, Option, none, some, List, [], ◌∷◌, Str, codes, Dict, insert,
  remove, str_eq, nat_beq, ltb, leb, if◌then◌else◌, length, Result, ok, err,
}
use chat_x.Text.{strip_prefix}
use chat_x.Protocol.Control.{ControlKind}
use chat_x.Protocol.Http.{allowed_path, allowed_request_header, legacy_max_request_bytes}
use chat_x.Protocol.Stream.{max_inflight, max_request_bytes}
use chat_x.Relay.Registry.{token_hash}
use chat_x.Relay.State.{AppState, Gateway, Active, Pending, desktop_authorized}
use chat_x.Relay.Reply.{
  Refusal, gateway_not_enabled, invalid_gateway_credential, gateway_not_configured, not_found,
  method_not_allowed, gateway_offline, credential_rotated, request_too_large, gateway_error,
  gateway_busy, backpressure,
}
use chat_x.Relay.Gateway.{is_selected, recheck}
use chat_x.Relay.Gateway.Packets.{kind_of}

-- A status and its message.
abbrev pub Failure : Type 0
Failure = ℕ × Refusal

-- The websocket's own reading of the header: the token is not trimmed.
unfoldable pub plain_bearer : Option Str → Option Str
plain_bearer none = none
plain_bearer (some value) = strip_prefix (codes "Bearer ") value

unfoldable pub credential : (Str → Str) → AppState → Str → Option Str → Result Failure Str
credential digest s desktop_id none = err (401, invalid_gateway_credential)
credential digest s desktop_id (some token) =
    if desktop_authorized digest s desktop_id token
    then ok (token_hash digest token)
    else err (401, invalid_gateway_credential)

-- `websocket`: the hash of the credential with which the socket is upgraded.
unfoldable pub websocket : (Str → Str) → AppState → Str → Option Str → Result Failure Str
unfolding credential plain_bearer
websocket digest s desktop_id authorization =
    if not (is_selected desktop_id s.mcp_gateway.desktop_id)
    then err (404, gateway_not_enabled)
    else credential digest s desktop_id (plain_bearer authorization)

-- The fields of the first packet that `socket_loop` reads.
pub record Hello : Type 0 where
  pub kind : Option Str
  pub protocol_version : Option ℕ
  pub supports_v2 : Bool

unfoldable pub is_hello : Option ControlKind → Bool
is_hello (some ControlKind.hello) = true
is_hello _ = false

is_version_1 : Option ℕ → Bool
is_version_1 none = false
is_version_1 (some version) = nat_beq version 1

-- The version of the session, or `none` where the socket ends.
unfoldable pub negotiate : Hello → Option ℕ
unfolding is_hello is_version_1 kind_of
negotiate hello =
    if is_hello (kind_of hello.kind) && is_version_1 hello.protocol_version
    then some (if hello.supports_v2 then 2 else 1)
    else none

pub data Method : Type 0 where
  get_method post delete head options other : Method

unfoldable pub allowed_method : Method → Bool
allowed_method other = false
allowed_method _ = true

-- A header whose value is no visible ASCII has no value here. `body` is the whole body, or `none` where
-- reading it failed; `random` what `random_hex` returns.
pub record PublicCall : Type 0 where
  pub path : Str
  pub uri : Str
  pub method : Method
  pub headers : List (Str × Option Str)
  pub content_length : Option ℕ
  pub body : Option Str
  pub random : Option Str

exceeds : ℕ → Option ℕ → Bool
exceeds limit none = false
exceeds limit (some n) = ltb limit n

check_length : PublicCall → Active → Result Failure Active
unfolding exceeds
check_length call active =
    if nat_beq active.version 2 && exceeds max_request_bytes call.content_length
    then err (413, request_too_large)
    else ok active

check_active : AppState → PublicCall → Option Active → AppState × Result Failure Active
unfolding check_length
check_active s call none = (s, err (503, gateway_offline))
check_active s call (some active) =
    if (recheck active.credential_hash s).1
    then (s, check_length call active)
    else ((recheck active.credential_hash s).0, err (503, credential_rotated))

unfoldable pub check_request : AppState → PublicCall → AppState × Result Failure Active
unfolding check_active
check_request s call = elim s.mcp_gateway.desktop_id [
  | none ↦ (s, err (503, gateway_not_configured))
  | some _ ↦
      if not (allowed_path call.path)
      then (s, err (404, not_found))
      else if not (allowed_method call.method)
      then (s, err (405, method_not_allowed))
      else check_active s call s.mcp_gateway.active
]

-- `filter_map(..).collect()` into a map: of two headers of one name the later stays.
forward_headers : List (Str × Option Str) → Dict Str Str → Dict Str Str
forward_headers [] kept = kept
forward_headers ((key, none) ∷ headers) kept = forward_headers headers kept
forward_headers ((key, some value) ∷ headers) kept =
    forward_headers headers (if allowed_request_header key then insert key value kept else kept)

pub record ProxyRequest : Type 0 where
  pub request_id : Str
  pub method : Method
  pub path : Str
  pub headers : Dict Str Str
  pub body_base64 : Option Str
  pub binary_v2 : Bool

-- The legacy body, read whole: `none` is one that is too large or cannot be read.
unfoldable pub legacy_body : ℕ → Option Str → Option (Option Str)
legacy_body version body = if not (nat_beq version 1) then some none else elim body [
  | none ↦ none
  | some bytes ↦ if ltb legacy_max_request_bytes (length bytes) then none else some (some bytes)
]

-- `PendingGuard`'s drop: the place in the queue is free; the flag says whether a cancel is sent.
unfoldable pub drop_guard : Bool → Str → Gateway → Gateway × Bool
drop_guard finished request_id g =
    (record g { pending = remove request_id g.pending }, not finished)

abbrev pub new_pending : Active → Pending
new_pending active = record { session_id = active.session_id; bytes = 0 }

module _ (base64_encode : Str → Str) where
  unfoldable pub encoded : Option Str → Option Str
  encoded none = none
  encoded (some bytes) = some (base64_encode bytes)

  -- `taken`: the socket's queue took the packet in time.
  unfoldable pub enqueue :
      Bool
      → Active
      → PublicCall
      → Option Str
      → Str
      → Gateway
      → Gateway × Result Failure ProxyRequest
  unfolding encoded forward_headers
  enqueue taken active call body request_id g =
      if leb max_inflight (length g.pending)
      then (g, err (429, gateway_busy))
      else (let entered = record g { pending = insert request_id (new_pending active) g.pending } in
          if taken
          then (
            entered,
            ok (record {
              request_id = request_id;
              method = call.method;
              path = call.uri;
              headers = forward_headers call.headers [];
              body_base64 = encoded body;
              binary_v2 = nat_beq active.version 2;
            }),
          )
          else ((drop_guard false request_id entered).0, err (503, backpressure)))

  unfoldable pub enter_request :
      Bool → Active → PublicCall → Gateway → Gateway × Result Failure ProxyRequest
  unfolding enqueue drop_guard legacy_body
  enter_request taken active call g = elim (legacy_body active.version call.body) [
    | none ↦ (g, err (413, request_too_large))
    | some body ↦ elim call.random [
      | none ↦ (g, err (500, gateway_error))
      | some request_id ↦ enqueue taken active call body request_id g
    ]
  ]
