-- ===== src/Relay/Platform.antt =====
-- The cryptography and the JSON reader that the relay calls: ring's SHA-256 and HMAC-SHA256 (key,
-- message, signature), and serde_json on an invitation.
use chat_x.Prelude.{Bool, Option, Str}
use chat_x.Protocol.Registration.{RegistrationInvite}

pub record Platform : Type 0 where
  pub digest : Str → Str
  pub hmac_verify : Str → Str → Str → Bool
  pub invite_from_json : Str → Option RegistrationInvite
