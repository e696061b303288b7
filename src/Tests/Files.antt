-- ===== src/Tests/Files.antt =====
-- The settings file.
use chat_x.Prelude.{
  ◌≡◌, refl, true, false, Option, none, some, [], ◌∷◌, ◌++◌, Str, codes, Result, ok, ◌==◌, str_eq,
  str_beq, if◌then◌else◌,
}
use chat_x.Desktop.Settings.{
  Settings, default_proxy, SettingsError, SettingsDisk, SettingsFaults, update_settings,
  apply_update, load_settings_checked,
}
use chat_x.Desktop.Settings.Saved.{IsAtomicUpdate, update_settings-IsAtomicUpdate}

-- The settings that the update stores, and a reader of their text.
abbrev new_settings : Settings (Unit {0})
new_settings = record {
  tunnel_id = codes "t";
  remember_key = false;
  auto_reconnect = true;
  connection_intent = true;
  monitor_enabled = false;
  monitor_port = 18_654;
  proxy = default_proxy;
  relay = record { enabled = false; base_url = [] };
  https_mcp = tt;
}

abbrev settings_of : Str → Option (Settings (Unit {0}))
settings_of text = if text == codes "{}" ++ 10 ∷ [] then some new_settings else none

abbrev json_of : Settings (Unit {0}) → Str
json_of s = codes "{}"

abbrev legacy : Str → Result SettingsError (Option Str)
legacy text = ok (some text)

abbrev store : Settings (Unit {0}) → Result SettingsError (Settings (Unit {0}))
store s = ok new_settings

abbrev working : SettingsFaults
working = record {
  read = false;
  serialize = false;
  create_dir = false;
  create = false;
  write = false;
  sync = false;
  rename = false;
  cleanup = false;
  torn = [];
}

abbrev no_sync : SettingsFaults
no_sync = record working { sync = true }

abbrev disk : SettingsDisk
disk = record { file = none; temp = none }

reads_back :
    (s : Settings (Unit {0}))
    → apply_update tt settings_of legacy json_of none false store
        (load_settings_checked tt settings_of legacy json_of none false no_sync disk)
      ≡ ok s
    → settings_of (json_of s ++ 10 ∷ []) ≡ some s
unfolding apply_update load_settings_checked str_beq
reads_back s e = cc

update_settings-IsAtomicUpdate_example :
    IsAtomicUpdate tt settings_of legacy json_of none false working disk
      (update_settings tt settings_of legacy json_of none false store no_sync disk)
update_settings-IsAtomicUpdate_example =
    update_settings-IsAtomicUpdate tt settings_of legacy json_of none false store no_sync working
      disk reads_back refl
