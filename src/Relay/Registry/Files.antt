-- ===== src/Relay/Registry/Files.antt =====
-- relay-server/src/registry.rs, `load` and `save`: the registry's file, its backup and its temporary
-- file. A text of the files is a value of `Text`; `print` and `parse` are serde_json's. A fault is a
-- system call that fails. `save` gives every state that the disk passes through, since the process
-- may end at any of them.
pub mod Crash
use chat_x.Prelude.{
  Bool, true, false, Option, none, some, List, [], ◌∷◌, ◌++◌, if◌then◌else◌, Result, ok, err,
}
use chat_x.Relay.Registry.{Registry, empty}

-- One constructor for each error of the source.
pub data FileError : Type 0 where
  corrupt read_failed backup_read_failed : FileError
  create_failed serialize_failed write_failed backup_failed replace_failed : FileError

module _ (Text : Type 0) where
  pub record Disk : Type 0 where
    pub primary : Option Text
    pub backup : Option Text
    pub temp : Option Text

-- A call that is `true` here fails.
pub record LoadFaults : Type 0 where
  pub read_primary : Bool
  pub read_backup : Bool
  pub rename_backup : Bool

pub record SaveFaults (Text : Type 0) : Type 0 where
  pub create_dir : Bool
  pub serialize : Bool
  pub write : Bool
  -- what a failed write leaves in the temporary file
  pub torn : Option Text
  pub remove_backup : Bool
  pub make_backup : Bool
  pub replace : Bool
  pub restore : Bool
  pub drop_backup : Bool

module _ {Text : Type 0} where
  -- `cfg(not(windows))`, after the temporary file is written.
  replace_unix : SaveFaults Text → Disk Text → Result FileError (Unit {0}) × List (Disk Text)
  replace_unix f d =
      if f.replace
      then (err replace_failed, d ∷ [])
      else (ok tt, d ∷ record d { primary = d.temp; temp = none } ∷ [])

  -- `cfg(windows)`: the last two steps, with the old file moved away if there was one.
  finish_windows : SaveFaults Text → Disk Text → Result FileError (Unit {0}) × List (Disk Text)
  finish_windows f d =
      if f.replace
      then (
        err replace_failed,
        d
            ∷ (if f.restore then d else elim d.backup [
              | none ↦ d
              | some text ↦ record d { primary = some text; backup = none }
            ])
            ∷ [],
      )
      else (
        ok tt,
        d
            ∷ record d { primary = d.temp; temp = none }
            ∷ record d {
              primary = d.temp;
              temp = none;
              backup = if f.drop_backup then d.backup else none;
            }
            ∷ [],
      )

  move_windows :
      SaveFaults Text → Disk Text → Option Text → Result FileError (Unit {0}) × List (Disk Text)
  unfolding finish_windows
  move_windows f d none = let (result, trace) = finish_windows f d in (result, d ∷ trace)
  move_windows f d (some old) =
      if f.make_backup
      then (err backup_failed, d ∷ [])
      else (let (result, trace) =
            finish_windows f (record d { primary = none; backup = some old }) in
          (result, d ∷ trace))

  replace_windows : SaveFaults Text → Disk Text → Result FileError (Unit {0}) × List (Disk Text)
  unfolding move_windows
  replace_windows f d =
      let cleared = if f.remove_backup then d else record d { backup = none } in
      let (result, trace) = move_windows f cleared d.primary in (result, d ∷ trace)

module _ {Text : Type 0} (print : Registry → Text) (parse : Text → Option Registry) where
  parse_registry : Text → Result FileError Registry
  parse_registry text = elim (parse text) [ none ↦ err corrupt | some r ↦ ok r ]

  load_backup : LoadFaults → Disk Text → Option Text → Result FileError Registry × Disk Text
  unfolding parse_registry
  load_backup f d none = (ok empty, d)
  load_backup f d (some text) = elim (parse text) [
    | none ↦ (err corrupt, d)
    | some r ↦
        (ok r, if f.rename_backup then d else record d { primary = some text; backup = none })
  ]

  load_primary : LoadFaults → Disk Text → Option Text → Result FileError Registry × Disk Text
  unfolding parse_registry load_backup
  load_primary f d (some text) = (parse_registry text, d)
  load_primary f d none =
      if f.read_backup then (err backup_read_failed, d) else load_backup f d d.backup

  unfoldable pub load : LoadFaults → Disk Text → Result FileError Registry × Disk Text
  unfolding load_primary
  load f d = if f.read_primary then (err read_failed, d) else load_primary f d d.primary

  -- `windows` is the build's `cfg(windows)`. The trace begins with the disk as it was.
  unfoldable pub save :
      Bool → SaveFaults Text → Registry → Disk Text → Result FileError (Unit {0}) × List (Disk Text)
  unfolding replace_unix replace_windows
  save windows f r d =
      if f.create_dir
      then (err create_failed, d ∷ [])
      else if f.serialize
      then (err serialize_failed, d ∷ [])
      else if f.write
      then (err write_failed, d ∷ record d { temp = f.torn } ∷ [])
      else (let written = record d { temp = some (print r) } in
          let (result, trace) =
            if windows then replace_windows f written else replace_unix f written in
          (result, d ∷ trace))
