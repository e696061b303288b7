-- ===== src/Desktop/Status.antt =====
-- src-tauri/src/tunnel_status.rs, tunnel_recovery.rs and monitor_status.rs: what the desktop and the phone
-- are told of the tunnel and of the calls. Json is serde_json's `Value`, Payload what a status report says,
-- ControlPlane the tunnel's log, Runtime one probe, Snapshot the state that the probes leave, and Calls the
-- list of recent calls.
pub mod Json
pub mod Payload
pub mod ControlPlane
pub mod Runtime
pub mod Snapshot
pub mod Recovery
pub mod Activity
pub mod Calls
pub mod History
