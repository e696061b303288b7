-- ===== src/Desktop/Status/Recovery.antt =====
-- src-tauri/src/tunnel_recovery.rs, and `effective_mcp_mode` of settings.rs: when the desktop reconnects the
-- tunnel, and which transport is the current one.
use chat_x.Prelude.{
  ℕ, ◌≤◌, ◌≡◌, Bool, true, false, not, ◌&&◌, ◌||◌, Option, none, some, [], ◌∷◌, Str, if◌then◌else◌,
  nat_beq, leb, arith,
}
use chat_x.Text.{trim}

unfoldable pub reconnect_delay_secs : ℕ → ℕ
reconnect_delay_secs attempt =
    if leb attempt 1
    then 2
    else if nat_beq attempt 2
    then 5
    else if nat_beq attempt 3
    then 10
    else if nat_beq attempt 4
    then 20
    else 30

-- What these functions read of the state, of the settings and of the key store.
pub record Recovery : Type 0 where
  pub connection_intent : Bool
  pub tunnel_id : Str
  pub https_enabled : Bool
  pub desired_connected : Bool
  pub reconnecting : Bool
  pub reconnect_running : Bool
  pub session_runtime_key : Option Str
  pub runtime_key_saved : Bool

unfoldable pub restore_desired_connection_intent : Recovery → Recovery
restore_desired_connection_intent r = record r { desired_connected = r.connection_intent }

-- `false` where the start is refused.
unfoldable pub ensure_runtime_start_intent : Recovery → Bool → Bool
ensure_runtime_start_intent r required =
    not (required && (not r.connection_intent || not r.desired_connected))

pub data Reason : Type 0 where
  manually_stopped tunnel_not_configured operation_busy runtime_key_unavailable : Reason

abbrev is_filled : Str → Bool
is_filled [] = false
is_filled (b ∷ s) = true

abbrev has_key : Option Str → Bool
has_key none = false
has_key (some key) = is_filled (trim key)

-- `none` where a reconnect is possible.
unfoldable pub reconnect_capability : Recovery → Option Reason
reconnect_capability r =
    if not r.connection_intent || not r.desired_connected
    then some manually_stopped
    else if not (is_filled (trim r.tunnel_id))
    then some tunnel_not_configured
    else if r.reconnecting || r.reconnect_running
    then some operation_busy
    else if has_key r.session_runtime_key || r.runtime_key_saved
    then none
    else some runtime_key_unavailable

pub data Mode : Type 0 where
  https tunnel off : Mode

unfoldable pub effective_mcp_mode : Recovery → Bool → Bool → Mode
effective_mcp_mode r https_allowed tunnel_desired =
    if r.https_enabled && https_allowed
    then https
    else if not r.https_enabled && tunnel_desired
    then tunnel
    else off

-- The delay never falls from one attempt to the next, and lies from 2 to 30 seconds.
pub reconnect_delay_secs-grows :
    (attempt later : ℕ)
    → attempt ≤ later
    → (reconnect_delay_secs attempt ≤ reconnect_delay_secs later)
      × (2 ≤ reconnect_delay_secs attempt)
      × (reconnect_delay_secs later ≤ 30)
unfolding reconnect_delay_secs
reconnect_delay_secs-grows attempt later h = (ground arith, ground arith, ground arith)

-- Where a reconnect is said to be possible the start that follows is not refused.
pub reconnect_capability-start :
    (r : Recovery) (required : Bool)
    → reconnect_capability r ≡ none
    → ensure_runtime_start_intent r required ≡ true
unfolding reconnect_capability ensure_runtime_start_intent
reconnect_capability-start r required h = ground arith
