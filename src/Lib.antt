-- ===== src/Lib.antt =====
-- ChatX: a desktop application that offers a local MCP server to the outside, a public relay server that
-- desktops, phones and MCP clients connect to, and a phone that watches and controls its desktop through
-- the relay or over a server of the desktop's own. This library models the relay server, the protocol that it
-- shares with the desktop, and the desktop's rules for its connections, its phones and what it reports.
--
-- The parts and how they interact:
--
-- Protocol (relay-protocol/src): the messages of the four websockets (lib.rs: Protocol/Messages), the
-- control kinds (mcp_control.rs: Protocol/Control), the paths and headers that are forwarded (mcp_http.rs:
-- Protocol/Http), the binary frames (mcp_stream.rs: Protocol/Stream), and the enrollment codes
-- (registration.rs: Protocol/Registration). Text holds the methods of `str` and `u8` that they call, and
-- Text/Utf8 `String::from_utf8_lossy`.
--
-- Relay (relay-server/src): `AppState` of main.rs is the record of Relay/State. Every handler takes the
-- state and gives it back with its response. The registry of desktops and their devices (registry.rs:
-- Relay/Registry, with its file in Relay/Registry/Files) is changed by registration (`register_desktop` of
-- registry_routes.rs: Relay/Devices) and by grants and revocations (`authorize_device`, `revoke_device`:
-- Relay/Grants; `device_revoke_http`: Relay/Revoke). A desktop's websocket (desktop_session.rs:
-- Relay/Presence) publishes snapshots, which the cache keeps and passes on to the phone (Relay/Snapshots),
-- and answers pairings (pairing_session.rs: Relay/Pairing), control requests (Relay/Control) and
-- revocations. A phone's websocket is Relay/DeviceSocket (device_session.rs). The MCP gateway
-- (mcp_gateway.rs) has its sessions and the packets of the desktop in Relay/Gateway and
-- Relay/Gateway/Packets, the public HTTP requests in Relay/Gateway/Requests, and the response and upload
-- bodies in Relay/Gateway/Body; Relay/Gateway/Streams puts its operations in any order.
--
-- Desktop (src-tauri/src): the stop markers (connection_intent.rs: Desktop/Intent), the coordinator of the
-- two transports (connection_coordinator.rs: Desktop/Coordinator), the verdict on the HTTPS connection
-- (connection_health.rs: Desktop/Health), a phone's control requests and the reconnects that they start
-- (monitor_control.rs: Desktop/RemoteControl), and the phones that are paired, with their file
-- (monitor_manager.rs: Desktop/Monitor).
--
-- Desktop/Server is the desktop's server for its phones (monitor_server.rs): the query of an address
-- (Query), the head of a request (Http), the HTTP routes (Requests), and the websocket of a phone from the check
-- of its caller to its end (Socket). The rest of the desktop comes in as the record `MonitorHandlers` of the
-- source, whose functions act on a state `W`; Revoked puts the paired phones of Desktop/Monitor there.
--
-- Desktop/Wss is the desktop's end of the gateway's websocket (https_mcp_wss.rs): the loop of `session` with its
-- uploads, tasks and permits, and in Local the call of the bridge on 127.0.0.1 and the packets of its response.
--
-- Desktop/Settings is the settings file (settings.rs): reading it, and an update whose system calls may fail.
--
-- Desktop/Status is what the desktop reports: a probe of the tunnel from the output of its program and the tail
-- of its log (tunnel_status.rs: Payload, ControlPlane, Runtime) to the snapshot (`project_runtime_snapshot` of
-- monitor_status.rs: Snapshot), the reconnects (tunnel_recovery.rs, and `effective_mcp_mode` of settings.rs:
-- Recovery), the MCP activity (monitor.rs and mcp_sources.rs: Activity), the recent calls (monitor_status.rs:
-- Calls) and the call history (call_history.rs: History).
--
-- Conventions. A text is the list of its bytes. A `HashMap` is an association list, of which the theorems
-- speak through lookups and lengths. A map under a lock is a field of the state; code between two awaits, or
-- under one lock, is one function, so that a handler that waits for the desktop is two: `begin_...` before
-- and `finish_...` after, in the state that others have left. `cache_and_route_snapshot` is `cache_snapshot`
-- under the cache's lock and `route_snapshot` after it; a round of a phone's socket has the state at its test of the
-- registration and the state at the event that ends its wait. Of the packets that `local_request` makes, `queued`
-- are those that the session's queue takes before it closes or the task is aborted. A channel is the number it was made with. The
-- time is an argument wherever the source calls `now_ms`, randomness wherever it calls `random_hex`, and so
-- is whether a write of the registry succeeds, a queue has room or a channel has a receiver. The handlers keep
-- in `last_saved` the registry that was saved last by a `save` that returned Ok; what the files hold when saves
-- fail is the subject of Relay/Registry/Files. SHA-256, HMAC,
-- base64 and serde_json are functions that the definitions are given, or what they made of a text is. A round
-- of a socket's loop on the desktop has the readings of the clock as its arguments. Rust's unsigned arithmetic that
-- saturates is written out; a length or a count never nears 2^64 by the limits that the code tests.
--
-- Fuel: `trim_front` of Text, `lossy_loop` of Text/Utf8 and `chunks_loop` of Relay/Gateway/Body run on the
-- length of their text, and each round drops a byte at least. All other recursion is structural.
--
-- Not modelled: the router, TLS and the HTTP server; the heartbeats of a desktop's socket and the writer loop
-- of the gateway's websocket; the text of a `Reply::Error` that `fail_session` tries on a queue, in whose
-- place stands the error flag that is set with it; in the desktop the processes, the other network clients, the
-- listener, TLS and the JSON texts of the monitor's server, the cache of the histories and the average duration,
-- the undoing of a grant at the relay and the windows; the Android application; deployment
-- and scripts.
pub mod Prelude
pub mod Text
pub mod Protocol
pub mod Relay
pub mod Desktop
pub mod Tests
