-- ===== src/Desktop/Status/Payload.antt =====
-- src-tauri/src/tunnel_status.rs: what the report of `tunnel runtimes status --json` says of the tunnel.
use chat_x.Prelude.{
  Bool, true, false, not, ◌||◌, Option, none, some, List, [], ◌∷◌, Str, codes, ◌==◌, str_eq, any,
  if◌then◌else◌,
}
use chat_x.Text.{to_ascii_lowercase}
use chat_x.Desktop.Status.Json.{
  Json, null, bool, number, string, array, object, Fields, end, field, get_field, bool_field,
  str_field, or_else, unwrap_or, is_said, ◌>>=◌,
}

abbrev pub is_one_of : Str → List Str → Bool
is_one_of s = any (λ t. s == t)

abbrev unhealthy_words : List Str
unhealthy_words =
    codes "down"
    ∷ codes "error"
    ∷ codes "failed"
    ∷ codes "failure"
    ∷ codes "stale"
    ∷ codes "unhealthy"
    ∷ codes "disconnected"
    ∷ []

-- `unhealthy_field key fs` is `object.get(key).map(health_value_unhealthy).unwrap_or(false)`.
unfoldable mutual
  pub health_value_unhealthy : Json → Bool
  health_value_unhealthy null = false
  health_value_unhealthy (bool ok) = not ok
  health_value_unhealthy (number n) = false
  health_value_unhealthy (string text) = is_one_of (to_ascii_lowercase text) unhealthy_words
  health_value_unhealthy (array items) = false
  health_value_unhealthy (object fs) =
      is_said (bool_field (codes "healthy") (object fs)) false
      || (is_said (bool_field (codes "ready") (object fs)) false
          || (is_said (bool_field (codes "ok") (object fs)) false
              || (unhealthy_field (codes "state") fs || unhealthy_field (codes "status") fs)))

  pub unhealthy_field : Str → Fields → Bool
  unhealthy_field key end = false
  unhealthy_field key (field k v fs) =
      let here = health_value_unhealthy v in
      let rest = unhealthy_field key fs in if k == key then here else rest

-- `payload.get("runtime_state").and_then(Value::as_str).unwrap_or("").to_ascii_lowercase()`
abbrev state_word : Json → Str
state_word payload = to_ascii_lowercase (unwrap_or (str_field (codes "runtime_state") payload) [])

unfoldable pub runtime_payload_alive : Json → Bool
runtime_payload_alive payload =
    let running = bool_field (codes "process_running") payload in
    let healthy = bool_field (codes "healthy") payload in
    if is_said running false || is_said healthy false
    then false
    else if is_said running true || is_said healthy true
    then true
    else is_one_of (state_word payload)
        (codes "ready" ∷ codes "running" ∷ codes "healthy" ∷ codes "connected" ∷ codes "live" ∷ [])

unfoldable pub control_plane_health_value : Json → Option Json
control_plane_health_value payload =
    or_else (get_field (codes "control_plane_poll_health") payload)
      (get_field (codes "local") payload >>= get_field (codes "control_plane_poll_health"))

says_unhealthy : Option Json → Bool
says_unhealthy none = false
says_unhealthy (some value) = health_value_unhealthy value

unfoldable pub runtime_payload_active : Json → Bool
unfolding says_unhealthy
runtime_payload_active payload =
    let ready = bool_field (codes "ready") payload in
    let healthy = bool_field (codes "healthy") payload in
    if is_said (bool_field (codes "process_running") payload) false
    then false
    else if says_unhealthy (control_plane_health_value payload)
    then false
    else if is_said ready false || is_said healthy false
    then false
    else if is_said ready true
    then true
    else if is_said healthy true
    then true
    else is_one_of (state_word payload) (codes "ready" ∷ codes "connected" ∷ codes "live" ∷ [])
