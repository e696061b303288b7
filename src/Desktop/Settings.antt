-- ===== src/Desktop/Settings.antt =====
-- src-tauri/src/settings.rs: the settings, and their file with system calls that may fail. The contents of
-- `https_mcp` are a parameter `H`, since nothing here reads them; serde_json, the system's proxy and the key
-- store are arguments.
pub mod Saved
use chat_x.Prelude.{
  ℕ, Bool, true, false, not, ◌&&◌, ◌||◌, Option, none, some, List, [], ◌∷◌, ◌++◌, Str, codes, ◌==◌,
  str_eq, if◌then◌else◌, Result, ok, err, any,
}
use chat_x.Text.{trim}

pub record ProxySettings : Type 0 where
  pub mode : Str
  pub url : Str
  pub applied_url : Str

pub record RelaySettings : Type 0 where
  pub enabled : Bool
  pub base_url : Str

pub record Settings (H : Type 0) : Type 0 where
  pub tunnel_id : Str
  pub remember_key : Bool
  pub auto_reconnect : Bool
  pub connection_intent : Bool
  pub monitor_enabled : Bool
  pub monitor_port : ℕ
  pub proxy : ProxySettings
  pub relay : RelaySettings
  pub https_mcp : H

abbrev pub default_proxy : ProxySettings
default_proxy = record { mode = codes "direct"; url = []; applied_url = [] }

abbrev pub is_unset : Str → Bool
is_unset [] = true
is_unset (b ∷ s) = false

-- `system_proxy_url()` where it gives an address.
with_proxy : ProxySettings → Option Str → ProxySettings
with_proxy proxy none = proxy
with_proxy proxy (some url) = record proxy { applied_url = url }

unfoldable pub normalize_proxy : Option Str → ProxySettings → ProxySettings
unfolding with_proxy
normalize_proxy system proxy =
    if not (any (λ m. proxy.mode == m) (codes "direct" ∷ codes "system" ∷ codes "manual" ∷ []))
    then default_proxy
    else if proxy.mode == codes "system" && is_unset (trim proxy.applied_url)
    then with_proxy proxy system
    else proxy

unfoldable pub normalize_relay : RelaySettings → RelaySettings
normalize_relay relay =
    if relay.enabled && is_unset (trim relay.base_url)
    then record relay { enabled = false }
    else relay

pub data SettingsError : Type 0 where
  unreadable bad_intent corrupt unknown_format refused not_written : SettingsError

-- The file, and the temporary file of the write under way.
pub record SettingsDisk : Type 0 where
  pub file : Option Str
  pub temp : Option Str

-- Which system calls fail; `torn` is what a failed write leaves.
pub record SettingsFaults : Type 0 where
  pub read : Bool
  pub serialize : Bool
  pub create_dir : Bool
  pub create : Bool
  pub write : Bool
  pub sync : Bool
  pub rename : Bool
  pub cleanup : Bool
  pub torn : Str

module _ {H : Type 0} (default_https : H) (from_json : Str → Option (Settings H))
    (legacy_tunnel : Str → Result SettingsError (Option Str)) (to_json : Settings H → Str)
    (system : Option Str) (key_saved : Bool) where
  abbrev default_settings : Settings H
  default_settings = record {
    tunnel_id = [];
    remember_key = false;
    auto_reconnect = true;
    connection_intent = false;
    monitor_enabled = false;
    monitor_port = 18_432;
    proxy = default_proxy;
    relay = record { enabled = false; base_url = [] };
    https_mcp = default_https;
  }

  unfoldable pub normalize_settings : Settings H → Settings H
  normalize_settings s = record s {
    proxy = normalize_proxy system s.proxy;
    relay = normalize_relay s.relay;
  }

  migrated : Str → Result SettingsError (Settings H)
  migrated [] = err unknown_format
  migrated (b ∷ tunnel_id) =
      ok (record default_settings { tunnel_id = b ∷ tunnel_id; remember_key = key_saved })

  -- The old format: `connection.tunnelId` of the text's JSON, where it is a text.
  from_legacy : Result SettingsError (Option Str) → Result SettingsError (Settings H)
  unfolding migrated
  from_legacy (err e) = err e
  from_legacy (ok none) = err unknown_format
  from_legacy (ok (some tunnel_id)) = migrated (trim tunnel_id)

  unfoldable pub check_intent : Settings H → Result SettingsError (Settings H)
  check_intent s =
      if s.connection_intent && is_unset (trim s.tunnel_id)
      then err bad_intent
      else ok (normalize_settings s)

  read_settings : Str → Option (Settings H) → Result SettingsError (Settings H)
  unfolding from_legacy check_intent
  read_settings text (some s) = check_intent s
  read_settings text none = from_legacy (legacy_tunnel text)

  read_file : Option Str → Result SettingsError (Settings H)
  unfolding read_settings
  read_file none = ok default_settings
  read_file (some text) = read_settings text (from_json text)

  unfoldable pub load_settings_checked :
      SettingsFaults → SettingsDisk → Result SettingsError (Settings H)
  unfolding read_file
  load_settings_checked f d = if f.read then err unreadable else read_file d.file

  -- What `let _ = fs::remove_file(&temp)` leaves.
  clean_up : SettingsFaults → SettingsDisk → SettingsDisk
  clean_up f d = if f.cleanup then d else record d { temp = none }

  -- Whether the file was written, and the states of the disk from the first system call on.
  unfoldable pub write_settings_file :
      SettingsFaults → Settings H → SettingsDisk → Bool × List SettingsDisk
  unfolding clean_up
  write_settings_file f s d =
      let text = to_json s ++ 10 ∷ [] in
      let created = record d { temp = some [] } in
      let torn = record d { temp = some f.torn } in
      let written = record d { temp = some text } in
      if f.serialize || f.create_dir
      then (false, [])
      else if f.create
      then (false, clean_up f d ∷ [])
      else if f.write
      then (false, created ∷ torn ∷ clean_up f torn ∷ [])
      else if f.sync || f.rename
      then (false, created ∷ written ∷ clean_up f written ∷ [])
      else (true, created ∷ written ∷ record { file = some text; temp = none } ∷ [])

  write_updated :
      SettingsFaults
      → Result SettingsError (Settings H)
      → SettingsDisk
      → Result SettingsError (Settings H) × List SettingsDisk
  write_updated f (err e) d = (err e, [])
  write_updated f (ok s) d =
      let written = write_settings_file f s d in
      ((if written.0 then ok s else err not_written), written.1)

  unfoldable pub apply_update :
      (Settings H → Result SettingsError (Settings H))
      → Result SettingsError (Settings H)
      → Result SettingsError (Settings H)
  apply_update update (err e) = err e
  apply_update update (ok s) = update s

  -- `update_settings`: the result, and the states of the disk.
  unfoldable pub update_settings :
      (Settings H → Result SettingsError (Settings H))
      → SettingsFaults
      → SettingsDisk
      → Result SettingsError (Settings H) × List SettingsDisk
  unfolding write_updated apply_update
  update_settings update f d = write_updated f (apply_update update (load_settings_checked f d)) d
