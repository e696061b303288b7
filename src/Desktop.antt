-- ===== src/Desktop.antt =====
-- src-tauri/src: the desktop program. One child for each part of it that is modelled.
pub mod Intent
pub mod Health
pub mod Coordinator
pub mod RemoteControl
pub mod Monitor
pub mod Server
pub mod Status
pub mod Wss
pub mod Settings
