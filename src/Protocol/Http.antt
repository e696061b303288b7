-- ===== src/Protocol/Http.antt =====
-- relay-protocol/src/mcp_http.rs: the paths and headers that the relay and the desktop forward.
use chat_x.Prelude.{ℕ, ◌*◌, Bool, [], ◌∷◌, Str, codes, ◌==◌, str_eq, any}

abbrev pub wss_protocol_v1 : ℕ
wss_protocol_v1 = 1

abbrev pub wss_protocol_v2 : ℕ
wss_protocol_v2 = 2

abbrev pub legacy_max_request_bytes : ℕ
legacy_max_request_bytes = 5 * 1024 * 1024

abbrev pub legacy_max_response_bytes : ℕ
legacy_max_response_bytes = 16 * 1024 * 1024

unfoldable pub allowed_path : Str → Bool
allowed_path path =
    any (λ p. path == p)
      (codes "/mcp"
        ∷ codes "/chatx-oauth/authorize"
        ∷ codes "/chatx-oauth/approve"
        ∷ codes "/chatx-oauth/token"
        ∷ codes "/chatx-oauth/register"
        ∷ codes "/.well-known/oauth-authorization-server"
        ∷ codes "/.well-known/oauth-protected-resource"
        ∷ codes "/.well-known/oauth-protected-resource/mcp"
        ∷ [])

unfoldable pub allowed_request_header : Str → Bool
allowed_request_header name =
    any (λ h. name == h)
      (codes "content-type"
        ∷ codes "accept"
        ∷ codes "authorization"
        ∷ codes "mcp-session-id"
        ∷ codes "mcp-protocol-version"
        ∷ codes "last-event-id"
        ∷ codes "x-forwarded-for"
        ∷ codes "user-agent"
        ∷ codes "origin"
        ∷ codes "accept-language"
        ∷ [])

unfoldable pub allowed_response_header : Str → Bool
allowed_response_header name =
    any (λ h. name == h)
      (codes "content-type"
        ∷ codes "cache-control"
        ∷ codes "www-authenticate"
        ∷ codes "location"
        ∷ codes "mcp-session-id"
        ∷ codes "retry-after"
        ∷ codes "x-content-type-options"
        ∷ codes "content-security-policy"
        ∷ codes "x-frame-options"
        ∷ codes "referrer-policy"
        ∷ codes "allow"
        ∷ codes "access-control-allow-origin"
        ∷ codes "access-control-allow-methods"
        ∷ codes "access-control-allow-headers"
        ∷ codes "access-control-expose-headers"
        ∷ codes "vary"
        ∷ [])
