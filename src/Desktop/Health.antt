-- ===== src/Desktop/Health.antt =====
-- src-tauri/src/connection_health.rs: the one verdict on the HTTPS connection.
use chat_x.Prelude.{
  ℕ, ◌-◌, ◌≤◌, ◌↔◌, ◌≡◌, ◌≢◌, Bool, true, not, ◌&&◌, nat_beq, leb, if◌then◌else◌, arith,
}

abbrev pub public_probe_freshness_ms : ℕ
public_probe_freshness_ms = 45_000

-- The values of `state`.
pub data HealthState : Type 0 where
  stopped connected checking reconnecting : HealthState

pub record HttpsConnectionHealth : Type 0 where
  pub enabled : Bool
  pub manual_stop_blocked : Bool
  pub local_ready : Bool
  pub transport_connected : Bool
  pub remote_ready : Bool
  pub is_connected : Bool
  pub state : HealthState

unfoldable pub is_fresh : ℕ → ℕ → Bool
is_fresh last_public_probe_at now =
    not (nat_beq last_public_probe_at 0)
    && (leb last_public_probe_at now && leb (now - last_public_probe_at) public_probe_freshness_ms)

unfoldable pub https_connection_health :
    Bool → Bool → Bool → Bool → Bool → ℕ → ℕ → HttpsConnectionHealth
https_connection_health configured restore_allowed local_ready transport_connected last_remote_ready
      last_public_probe_at now =
    let enabled = configured && restore_allowed in
    let remote_ready =
      transport_connected && (last_remote_ready && is_fresh last_public_probe_at now) in
    let is_connected = enabled && (local_ready && (transport_connected && remote_ready)) in
    record {
      enabled = enabled;
      manual_stop_blocked = configured && not restore_allowed;
      local_ready = local_ready;
      transport_connected = transport_connected;
      remote_ready = remote_ready;
      is_connected = is_connected;
      state =
          if not enabled
          then stopped
          else if is_connected
          then connected
          else if transport_connected && local_ready
          then checking
          else reconnecting;
    }

-- The verdict is `connected` exactly where the connection is configured and not stopped by hand, the
-- local bridge and the transport are up, and the last public probe succeeded at most 45 s ago and not in
-- the future.
pub https_connection_health-connected :
    (configured restore_allowed local_ready transport_connected last_remote_ready : Bool)
    (probe now : ℕ)
    → ((https_connection_health configured restore_allowed local_ready transport_connected
          last_remote_ready probe now).state
        ≡ connected)
      ↔ ((configured ≡ true)
          × (restore_allowed ≡ true)
          × (local_ready ≡ true)
          × (transport_connected ≡ true)
          × (last_remote_ready ≡ true)
          × (probe ≢ 0)
          × (probe ≤ now)
          × (now - probe ≤ 45_000))
unfolding https_connection_health is_fresh
https_connection_health-connected configured restore_allowed local_ready transport_connected
      last_remote_ready probe now =
    ground arith
