-- ===== src/Protocol.antt =====
-- relay-protocol/src: what the relay, the desktop and the phone share on the wire. One child for
-- each source file; `Messages` is lib.rs.
pub mod Messages
pub mod Control
pub mod Http
pub mod Stream
pub mod Registration
