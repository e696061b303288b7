-- ===== src/Desktop/Server.antt =====
-- src-tauri/src/monitor_server.rs: the server of the desktop that phones reach directly. Query is the
-- query of a request's address, Http the head of an HTTP request, Requests the routes, and Socket a
-- phone's websocket.
pub mod Query
pub mod Http
pub mod Requests
pub mod Socket
pub mod Revoked
