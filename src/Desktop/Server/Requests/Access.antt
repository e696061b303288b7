-- ===== src/Desktop/Server/Requests/Access.antt =====
-- Who gets what from the HTTP routes of the desktop's server: `handle_https_request`.
use chat_x.Prelude.{
  ℕ, ◌≡◌, refl, Bool, true, false, Option, none, some, [], Str, Dict, ◌==◌, str_eq, str_beq_iff,
  codes, arith, inl, inr, if◌then◌else◌, Bool-cases, not, ◌&&◌, ◌≢◌,
}
use chat_x.Desktop.Server.Query.{parse_query, route_of}
use chat_x.Desktop.Server.Http.{HttpRequestHead}
use chat_x.Desktop.Server.Requests.{
  MonitorHandlers, authorize, parameter_of, token_of, is_blank, Handled, replies, fails, panics,
  sends_snapshot, sends_revoked, snapshot_unavailable, revoke_failed, unauthorized, unknown_route,
  handle_https_request, select, Route, snapshot, revoke, unknown, serve, with_query,
}

-- The replies that no refused caller may get.
unfoldable pub is_served : Handled → Bool
is_served (replies (sends_snapshot _ _)) = true
is_served (replies (sends_revoked _)) = true
is_served (replies snapshot_unavailable) = true
is_served (replies revoke_failed) = true
is_served (replies unauthorized) = false
is_served (replies unknown_route) = false
is_served fails = true
is_served panics = false

allowed_parts {ℓ} :
    {W : Type ℓ} (named desktop_id device_id token : Str) (called : W × Bool) (w : W)
    → (if named == desktop_id && (not (is_blank device_id) && not (is_blank token))
        then called
        else (w, false)).1
      ≡ true
    → (named ≡ desktop_id) × (called.1 ≡ true) × (token ≢ []) × (device_id ≢ [])
allowed_parts named desktop_id device_id token called w h = (
  ground (arith, str_beq_iff named desktop_id, h),
  ground (arith, h),
  (λ e. ground (arith, h, e)),
  (λ e. ground (arith, h, e)),
)

module _ {ℓ} {W : Type ℓ} (handlers : MonitorHandlers W) (now : ℕ) (random : Option Str) where
  -- A caller that was refused leaves the state as the check did.
  serve-refused :
      (route : Route) (device_id : Str) (w : W)
      → (is_served (serve handlers now random route device_id (w, false)).1 ≡ false)
        × ((serve handlers now random route device_id (w, false)).0 ≡ w)
  unfolding serve is_served
  serve-refused snapshot device_id w = (refl, refl)
  serve-refused revoke device_id w = (refl, refl)
  serve-refused unknown device_id w = (refl, refl)

  authorize-true :
      (desktop_id token : Str) (query : Dict Str Str) (w : W)
      → (authorize handlers desktop_id query token w).1 ≡ true
      → (parameter_of (codes "desktopId") query ≡ desktop_id)
        × ((handlers.auth_checker (parameter_of (codes "deviceId") query) token w).1 ≡ true)
        × (token ≢ [])
        × (parameter_of (codes "deviceId") query ≢ [])
  unfolding authorize
  authorize-true desktop_id token query w h =
      allowed_parts (parameter_of (codes "desktopId") query) desktop_id
        (parameter_of (codes "deviceId") query) token
        (handlers.auth_checker (parameter_of (codes "deviceId") query) token w) w h

  served_query :
      (desktop_id : Str) (request : HttpRequestHead) (query : Option (Dict Str Str)) (w : W)
      → is_served (with_query handlers now random desktop_id request query w).1 ≡ true
      → (q : Dict Str Str) × (query ≡ some q)
        × ((authorize handlers desktop_id q (token_of request.bearer_token) w).1 ≡ true)
  unfolding with_query is_served
  served_query desktop_id request none w h = cc
  served_query desktop_id request (some q) w h =
      let start = authorize handlers desktop_id q (token_of request.bearer_token) w in
      let route = select request.method (route_of request.path) in
      let device_id = parameter_of (codes "deviceId") q in
      elim (Bool-cases start.1) [
        | inl allowed ↦ (q, refl, allowed)
        | inr refused ↦
            let no : is_served (serve handlers now random route device_id start).1 ≡ false =
              rw refused (serve-refused route device_id start.0).0 in
            absurd (cc (h, no))
      ]

  -- A request gets more than a refusal only where its address names this desktop and a device, it has a
  -- token, and the check of callers takes that token for that device.
  pub handle_https_request-served :
      (desktop_id : Str) (request : HttpRequestHead) (w : W)
      → is_served (handle_https_request handlers now random desktop_id request w).1 ≡ true
      → (q : Dict Str Str) × (parse_query request.path ≡ some q)
        × (parameter_of (codes "desktopId") q ≡ desktop_id)
        × ((handlers.auth_checker
              (parameter_of (codes "deviceId") q)
              (token_of request.bearer_token)
              w).1
            ≡ true)
        × (token_of request.bearer_token ≢ [])
        × (parameter_of (codes "deviceId") q ≢ [])
  unfolding handle_https_request
  handle_https_request-served desktop_id request w h =
      let (q, parsed, allowed) = served_query desktop_id request (parse_query request.path) w h in
      let parts = authorize-true desktop_id (token_of request.bearer_token) q w allowed in
      (q, parsed, parts.0, parts.1, parts.2, parts.3)
