-- ===== src/Desktop/Settings/Saved.antt =====
-- The settings file through an update that may end at any system call.
use chat_x.Prelude.{
  ◌≡◌, ◌⊎◌, refl, Bool, true, false, ◌||◌, Option, none, some, List, [], ◌∷◌, ◌++◌, Str, Result, ok,
  err, All, arith, Bool-cases, inl, inr,
}
use chat_x.Desktop.Settings.{
  Settings, SettingsError, not_written, SettingsDisk, SettingsFaults, check_intent,
  load_settings_checked, write_settings_file, write_updated, apply_update, update_settings,
  clean_up, read_file, read_settings,
}

abbrev IsOld : Option Str → List SettingsDisk → Type 0
IsOld file = All (λ e. e.file ≡ file)

module _ {H : Type 0} (default_https : H) (from_json : Str → Option (Settings H))
    (legacy_tunnel : Str → Result SettingsError (Option Str)) (to_json : Settings H → Str)
    (system : Option Str) (key_saved : Bool) where
  abbrev text_of : Settings H → Str
  text_of s = to_json s ++ 10 ∷ []

  clean_up-same :
      (f : SettingsFaults) (d : SettingsDisk)
      → (clean_up default_https from_json legacy_tunnel to_json system key_saved f d).file ≡ d.file
  unfolding clean_up
  clean_up-same f d = ground arith

  abbrev write : SettingsFaults → Settings H → SettingsDisk → Bool × List SettingsDisk
  write = write_settings_file default_https from_json legacy_tunnel to_json system key_saved

  write_settings_file-cases :
      (f : SettingsFaults) (s : Settings H) (d : SettingsDisk)
      → (((write f s d).0 ≡ false) × IsOld d.file (write f s d).1)
        ⊎ ((before : List SettingsDisk) × ((write f s d).0 ≡ true)
            × ((write f s d).1 ≡ before ++ (record { file = some (text_of s); temp = none }) ∷ [])
            × IsOld d.file before)
  unfolding write_settings_file
  write_settings_file-cases f s d =
      let created = record d { temp = some [] } in
      let torn = record d { temp = some f.torn } in
      let written = record d { temp = some (text_of s) } in
      elim (Bool-cases (f.serialize || f.create_dir)) [
        | inl early ↦ rw early (inl (refl, tt))
        | inr opened ↦ elim (Bool-cases f.create) [
          | inl unmade ↦ rw (opened, unmade) (inl (refl, (clean_up-same f d, tt)))
          | inr made ↦ elim (Bool-cases f.write) [
            | inl cut ↦
                rw (opened, made, cut) (inl (refl, (refl, (refl, (clean_up-same f torn, tt)))))
            | inr full ↦ elim (Bool-cases (f.sync || f.rename)) [
              | inl late ↦
                  rw (opened, made, full, late)
                    (inl (refl, (refl, (refl, (clean_up-same f written, tt)))))
              | inr done ↦
                  rw (opened, made, full, done)
                    (inr (created ∷ written ∷ [], refl, refl, (refl, (refl, tt))))
            ]
          ]
        ]
      ]

  abbrev load : SettingsFaults → SettingsDisk → Result SettingsError (Settings H)
  load = load_settings_checked default_https from_json legacy_tunnel to_json system key_saved

  read-text :
      (f : SettingsFaults) (s : Settings H) (temp : Option Str)
      → from_json (text_of s) ≡ some s
      → f.read ≡ false
      → load f (record { file = some (text_of s); temp = temp })
        ≡ check_intent default_https from_json legacy_tunnel to_json system key_saved s
  unfolding load_settings_checked read_file read_settings
  read-text f s temp trip reads = rw (reads, trip) refl

  -- What an update may come to: all states of the disk have the old file; or the last has the new one, the
  -- others the old, and the next reading gives what was stored, put in order, or refuses it.
  abbrev pub IsAtomicUpdate :
      SettingsFaults → SettingsDisk → Result SettingsError (Settings H) × List SettingsDisk → Type 0
  IsAtomicUpdate next d r =
      ((e : SettingsError) × (r.0 ≡ err e) × All (λ x. x.file ≡ d.file) r.1)
      ⊎ ((s : Settings H) × (before : List SettingsDisk) × (last : SettingsDisk) × (r.0 ≡ ok s)
          × (r.1 ≡ before ++ last ∷ [])
          × All (λ x. x.file ≡ d.file) before
          × (load_settings_checked default_https from_json legacy_tunnel to_json system key_saved
                next last
              ≡ check_intent default_https from_json legacy_tunnel to_json system key_saved s))

  write_updated-IsAtomicUpdate :
      (f next : SettingsFaults) (result : Result SettingsError (Settings H)) (d : SettingsDisk)
      → ((s : Settings H) → result ≡ ok s → from_json (to_json s ++ 10 ∷ []) ≡ some s)
      → next.read ≡ false
      → IsAtomicUpdate next d
          (write_updated default_https from_json legacy_tunnel to_json system key_saved f result d)
  unfolding write_updated
  write_updated-IsAtomicUpdate f next (err e) d trip reads = inl (e, refl, tt)
  write_updated-IsAtomicUpdate f next (ok s) d trip reads = elim (write_settings_file-cases f s d) [
    | inl (failed, old) ↦ inl (not_written, rw failed refl, old)
    | inr (before, done, states, old) ↦ inr (
      s,
      before,
      record { file = some (text_of s); temp = none },
      rw done refl,
      states,
      old,
      read-text next s none (trip s refl) reads,
    )
  ]

  -- An update of the settings that ends at any system call leaves a disk with the old file or the new one:
  -- where it fails every state has the old file, and where it succeeds only the last has another, from which
  -- the next reading gives the settings that it returned, put in order, or refuses them for an intent
  -- without a tunnel; where serde_json reads back what it writes of the new settings.
  pub update_settings-IsAtomicUpdate :
      (update : Settings H → Result SettingsError (Settings H)) (f next : SettingsFaults)
      (d : SettingsDisk)
      → ((s : Settings H)
          → apply_update default_https from_json legacy_tunnel to_json system key_saved update (
              load_settings_checked default_https from_json legacy_tunnel to_json system key_saved f
                d)
            ≡ ok s
          → from_json (to_json s ++ 10 ∷ []) ≡ some s)
      → next.read ≡ false
      → IsAtomicUpdate next d (
          update_settings default_https from_json legacy_tunnel to_json system key_saved update f d)
  unfolding update_settings
  update_settings-IsAtomicUpdate update f next d =
      write_updated-IsAtomicUpdate f next
        (apply_update default_https from_json legacy_tunnel to_json system key_saved update
          (load f d))
        d
