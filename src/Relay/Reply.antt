-- ===== src/Relay/Reply.antt =====
-- relay-server/src/web_utils.rs and the handlers' responses: `bearer`, and what an HTTP handler
-- returns. One constructor of `Refusal` stands for each message of `json_error` and `fail`.
use chat_x.Prelude.{ℕ, Bool, Option, none, some, [], ◌∷◌, Str, codes}
use chat_x.Text.{strip_prefix, trim}
use chat_x.Protocol.Messages.{EncryptedSnapshot}

pub data Refusal : Type 0 where
  registration_disabled missing_bearer invalid_code code_expired invalid_desktop_id : Refusal
  random_failed code_already_used save_failed invalid_desktop_credential : Refusal
  invalid_token_hash desktop_not_found invalid_device_credential device_not_authorized : Refusal
  snapshot_too_large sequence_not_increasing invalid_pairing_route invalid_pairing_expiry : Refusal
  pairing_capacity_reached pairing_route_not_found pairing_route_expired : Refusal
  invalid_route_token desktop_offline revoke_unavailable revoke_capacity : Refusal
  revoke_channel_unavailable revoke_timeout pairing_ws_capacity ws_capacity : Refusal
  -- mcp_gateway.rs
  gateway_not_enabled invalid_gateway_credential gateway_not_configured not_found : Refusal
  method_not_allowed gateway_offline credential_rotated request_too_large : Refusal
  gateway_error gateway_busy backpressure upload_exceeds_limit : Refusal
  upload_interrupted connection_lost head_timeout : Refusal
  -- the desktop's own text
  desktop_says : Str → Refusal

pub data Response : Type 0 where
  failed : ℕ → Refusal → Response
  no_content : Response
  registered : Str → Str → Response
  status_only : Bool → ℕ → Response
  snapshot_reply : Bool → ℕ → ℕ → EncryptedSnapshot → Response
  revoked : Str → Response
  upgraded : Response

abbrev nonempty : Str → Option Str
nonempty [] = none
nonempty (c ∷ s) = some (c ∷ s)

abbrev after_prefix : Option Str → Option Str
after_prefix none = none
after_prefix (some value) = nonempty (trim value)

-- `bearer`, of the authorization header if there is one that is visible ASCII.
unfoldable pub bearer : Option Str → Option Str
bearer none = none
bearer (some value) = after_prefix (strip_prefix (codes "Bearer ") value)
