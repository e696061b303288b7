-- ===== src/Desktop/Intent.antt =====
-- src-tauri/src/connection_intent.rs: the durable marks of a manual stop, one file for each transport.
-- A file system that fails is a parameter of each call: what the call returned, and what is on disk.
use chat_x.Prelude.{Bool, true, false, not, Result, ok, err, if◌then◌else◌}

pub data Transport : Type 0 where
  tunnel https_mcp : Transport

-- The two marker files: whether each is there.
pub record Markers : Type 0 where
  pub tunnel_marked : Bool
  pub https_marked : Bool

unfoldable pub is_marked : Transport → Markers → Bool
is_marked tunnel m = m.tunnel_marked
is_marked https_mcp m = m.https_marked

unfoldable pub set_marked : Transport → Bool → Markers → Markers
set_marked tunnel b m = record m { tunnel_marked = b }
set_marked https_mcp b m = record m { https_marked = b }

-- How a write went: done, failed with nothing created, or failed after the file was created.
pub data WriteOutcome : Type 0 where
  done nothing torn : WriteOutcome

pub data IntentError : Type 0 where
  mark_failed clear_failed check_failed : IntentError

unfoldable pub mark_stopped :
    WriteOutcome → Transport → Markers → Markers × Result IntentError (Unit {0})
mark_stopped done mode m = (set_marked mode true m, ok tt)
mark_stopped nothing mode m = (m, err mark_failed)
mark_stopped torn mode m = (set_marked mode true m, err mark_failed)

-- `removable`: the marker's path is known, and its removal succeeds or finds no file.
unfoldable pub clear_stopped : Bool → Transport → Markers → Markers × Result IntentError (Unit {0})
clear_stopped removable mode m =
    if removable then (set_marked mode false m, ok tt) else (m, err clear_failed)

-- `readable`: the marker's path is known, and its metadata is read or found missing.
unfoldable pub restore_allowed : Bool → Transport → Markers → Result IntentError Bool
restore_allowed readable mode m = if readable then ok (not (is_marked mode m)) else err check_failed
