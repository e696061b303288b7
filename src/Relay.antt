-- ===== src/Relay.antt =====
-- relay-server/src: the public relay. One child for each part of the server's state and the handlers
-- that change it.
pub mod Registry
pub mod State
pub mod Reply
pub mod Snapshots
pub mod Platform
pub mod Gateway
pub mod Devices
pub mod Grants
pub mod Transactions
pub mod Enrollment
pub mod Pairing
pub mod Control
pub mod Revoke
pub mod Presence
pub mod DeviceSocket
