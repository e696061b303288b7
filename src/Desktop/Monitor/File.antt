-- ===== src/Desktop/Monitor/File.antt =====
-- src-tauri/src/monitor_manager.rs, `load_monitor_devices_from_path` and `save_monitor_devices`: the file of
-- the paired phones. As in Relay.Registry.Files, a save gives every state that the disk passes through.
use chat_x.Prelude.{
  ◌≡◌, ◌⊎◌, refl, inl, inr, Bool, true, false, Option, none, some, List, [], ◌∷◌, ◌++◌,
  if◌then◌else◌, Result, ok, err, All, arith, Bool-cases,
}
use chat_x.Desktop.Monitor.{Devices, MonitorError, unreadable, not_saved}

module _ (Text : Type 0) where
  pub record MonitorFile : Type 0 where
    pub file : Option Text
    pub temp : Option Text

  -- A call that is `true` here fails; `torn` is what a failed write leaves in the temporary file.
  pub record MonitorFaults : Type 0 where
    pub serialize : Bool
    pub write : Bool
    pub torn : Option Text
    pub remove : Bool
    pub rename : Bool

module _ {Text : Type 0} (print : Devices → Text) (parse : Text → Option Devices) where
  -- `unread`: the file is there and cannot be read.
  unfoldable pub load_monitor_devices : Bool → MonitorFile Text → Result MonitorError Devices
  load_monitor_devices unread d = if unread then err unreadable else elim d.file [
    | none ↦ ok []
    | some text ↦ elim (parse text) [ none ↦ err unreadable | some devices ↦ ok devices ]
  ]

  rename_file :
      MonitorFaults Text
      → MonitorFile Text
      → Result MonitorError (Unit {0}) × List (MonitorFile Text)
  rename_file f d =
      if f.rename
      then (err not_saved, d ∷ [])
      else (ok tt, d ∷ record { file = d.temp; temp = none } ∷ [])

  -- `cfg(windows)`: a file that is there is removed first.
  remove_file :
      MonitorFaults Text
      → MonitorFile Text
      → Option Text
      → Result MonitorError (Unit {0}) × List (MonitorFile Text)
  unfolding rename_file
  remove_file f d none = rename_file f d
  remove_file f d (some old) =
      if f.remove
      then (err not_saved, d ∷ [])
      else (let (result, trace) = rename_file f (record d { file = none }) in (result, d ∷ trace))

  unfoldable pub save_monitor_devices :
      Bool
      → MonitorFaults Text
      → Devices
      → MonitorFile Text
      → Result MonitorError (Unit {0}) × List (MonitorFile Text)
  unfolding remove_file
  save_monitor_devices windows f devices d =
      if f.serialize
      then (err not_saved, d ∷ [])
      else if f.write
      then (err not_saved, d ∷ record d { temp = f.torn } ∷ [])
      else (let written = record d { temp = some (print devices) } in
          let (result, trace) =
            if windows then remove_file f written written.file else rename_file f written in
          (result, d ∷ trace))

  -- What a restart that can read the file loads.
  abbrev pub restarts : MonitorFile Text → Result MonitorError Devices
  restarts d = load_monitor_devices false d

  abbrev pub last_file : MonitorFile Text → List (MonitorFile Text) → MonitorFile Text
  last_file d [] = d
  last_file d (e ∷ trace) = last_file e trace

  abbrev pub ReadsEither : Devices → Devices → MonitorFile Text → Type 0
  ReadsEither old new d = (restarts d ≡ ok old) ⊎ (restarts d ≡ ok new)

  abbrev pub stands_for : Devices → Devices → Result MonitorError (Unit {0}) → Devices
  stands_for old new (ok _) = new
  stands_for old new (err _) = old

  -- Elsewhere than on Windows, a save that ends at any system call leaves a file from which a restart
  -- reads the old devices or the new ones; one that runs to its end leaves those that its result stands
  -- for.
  pub save_monitor_devices-elsewhere :
      (f : MonitorFaults Text) (old new : Devices) (d : MonitorFile Text)
      → parse (print new) ≡ some new
      → restarts d ≡ ok old
      → All (ReadsEither old new) (save_monitor_devices false f new d).1
        × (restarts (last_file d (save_monitor_devices false f new d).1)
            ≡ ok (stands_for old new (save_monitor_devices false f new d).0))
  unfolding save_monitor_devices rename_file load_monitor_devices
  save_monitor_devices-elsewhere f old new d law reads =
      let now : restarts (record { file = some (print new); temp = none }) ≡ ok new =
        ground (arith, law) in
      elim (Bool-cases f.serialize) [
        | inl s ↦ rw (s, save_monitor_devices) ((inl reads, tt), reads)
        | inr s ↦ elim (Bool-cases f.write) [
          | inl w ↦ rw (s, w, save_monitor_devices) ((inl reads, (inl reads, tt)), reads)
          | inr w ↦ elim (Bool-cases f.rename) [
            | inl r ↦
                rw (s, w, r, save_monitor_devices, rename_file)
                  ((inl reads, (inl reads, tt)), reads)
            | inr r ↦
                rw (s, w, r, save_monitor_devices, rename_file)
                  ((inl reads, (inl reads, (inr now, tt))), now)
          ]
        ]
      ]

  -- On Windows a save passes through a state in which no file is there: ended there, it leaves a desktop
  -- that has forgotten every phone, and so does one whose renaming fails.
  pub save_monitor_devices-forgets :
      (f : MonitorFaults Text) (new : Devices) (d : MonitorFile Text) (text : Text)
      → d.file ≡ some text
      → f.serialize ≡ false
      → f.write ≡ false
      → f.remove ≡ false
      → parse (print new) ≡ some new
      → ((before after : List (MonitorFile Text)) × (between : MonitorFile Text)
          × ((save_monitor_devices true f new d).1 ≡ before ++ between ∷ after)
          × (restarts between ≡ ok []))
        × ((save_monitor_devices true f new d).0 ≡ (if f.rename then err not_saved else ok tt))
        × (restarts (last_file d (save_monitor_devices true f new d).1)
            ≡ ok (if f.rename then [] else new))
  unfolding save_monitor_devices remove_file rename_file load_monitor_devices
  save_monitor_devices-forgets f new d text there s w r law =
      let written : MonitorFile Text = record d { temp = some (print new) } in
      let emptied : MonitorFile Text = record { file = none; temp = some (print new) } in
      elim (Bool-cases f.rename) [
        | inl fails ↦
            rw (there, s, w, r, fails, save_monitor_devices, remove_file, rename_file)
              ((d ∷ written ∷ [], [], emptied, cc there, refl), refl, refl)
        | inr works ↦
            rw (there, s, w, r, works, save_monitor_devices, remove_file, rename_file)
              (
                (
                  d ∷ written ∷ [],
                  record { file = some (print new); temp = none } ∷ [],
                  emptied,
                  cc there,
                  refl,
                ),
                refl,
                ground (arith, law),
              )
      ]
