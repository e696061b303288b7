-- ===== src/Relay/Registry/Files/Crash.antt =====
-- The files that a save leaves when it ends at any point, and what `load` reads from them.
use chat_x.Prelude.{
  ◌≡◌, refl, ◌⊎◌, inl, inr, Bool, true, false, Option, none, some, List, [], ◌∷◌, Result, ok, err,
  All, arith, if◌then◌else◌,
}
use chat_x.Relay.Registry.{Registry, empty}
use chat_x.Relay.Registry.Files.{
  FileError, replace_failed, Disk, LoadFaults, SaveFaults, load, save, replace_unix,
  replace_windows, move_windows, finish_windows,
}

abbrev no_faults : LoadFaults
no_faults = record { read_primary = false; read_backup = false; rename_backup = false }

-- The last of a trace, which begins with the disk as it was.
abbrev pub last_of {ℓ} : {A : Type ℓ} → A → List A → A
last_of d [] = d
last_of d (e ∷ trace) = last_of e trace

-- The registry that a save's result stands for.
abbrev pub settled : Registry → Registry → Result FileError (Unit {0}) → Registry
settled old new (ok _) = new
settled old new (err e) = old

module _ {Text : Type 0} (print : Registry → Text) (parse : Text → Option Registry) where
  -- What a restart whose reads succeed loads.
  abbrev pub reads : Disk Text → Result FileError Registry
  reads d = (load print parse no_faults d).0

  abbrev pub IsEither : Registry → Registry → Disk Text → Type 0
  IsEither old new d = (reads d ≡ ok old) ⊎ (reads d ≡ ok new)

  -- The result of a save and the disks on the way.
  pub record IsAtomic (old new : Registry) (d : Disk Text)
      (outcome : Result FileError (Unit {0}) × List (Disk Text)) : Type 0 where
    pub on_the_way : All (IsEither old new) outcome.1
    pub at_the_end : reads (last_of d outcome.1) ≡ ok (settled old new outcome.0)

module _ {Text : Type 0} (print : Registry → Text) (parse : Text → Option Registry) {text : Text}
    {r : Registry} (holds : parse text ≡ some r) (d : Disk Text) where
  reads_primary : d.primary ≡ some text → reads print parse d ≡ ok r
  unfolding load
  reads_primary p = ground arith

  reads_backup : d.primary ≡ none → d.backup ≡ some text → reads print parse d ≡ ok r
  unfolding load
  reads_backup p b = ground arith

module _ {Text : Type 0} (print : Registry → Text) (parse : Text → Option Registry)
    (law : (r : Registry) → parse (print r) ≡ some r) (f : SaveFaults Text) (old new : Registry)
    (text : Text) (holds : parse text ≡ some old) where
  abbrev Atomic : Disk Text → Result FileError (Unit {0}) × List (Disk Text) → Type 0
  Atomic = IsAtomic print parse old new

  either_branch :
      (b : Bool) (d : Disk Text) (x y : Result FileError (Unit {0}) × List (Disk Text))
      → Atomic d x
      → Atomic d y
      → Atomic d (if b then x else y)
  either_branch true d x y hx hy = hx
  either_branch false d x y hx hy = hy

  -- One more disk in front that still reads as the old registry.
  after_disk :
      (d' d : Disk Text) (outcome : Result FileError (Unit {0}) × List (Disk Text))
      → reads print parse d ≡ ok old
      → Atomic d outcome
      → Atomic d' (outcome.0, d ∷ outcome.1)
  after_disk d' d outcome e a = record {
    on_the_way = (inl e, a.on_the_way);
    at_the_end = a.at_the_end;
  }

  -- A step that fails and leaves the old registry to be read.
  stops :
      (e : FileError) (d' d : Disk Text) → reads print parse d ≡ ok old → Atomic d' (err e, d ∷ [])
  stops e d' d h = record { on_the_way = (inl h, tt); at_the_end = h }

  finish_lem :
      (d d' : Disk Text)
      → d.primary ≡ none
      → d.backup ≡ some text
      → d.temp ≡ some (print new)
      → Atomic d' (finish_windows f d)
  unfolding finish_windows
  finish_lem d d' p b t =
      either_branch f.replace d' _ _ (after_disk d' d _ kept (stops _ d _ restored)) (
        after_disk d' d _ kept
          (record { on_the_way = (inr replaced, (inr dropped, tt)); at_the_end = dropped }))
    where
      kept : reads print parse d ≡ ok old
      kept = reads_backup print parse holds d p b

      replaced : reads print parse (record d { primary = d.temp; temp = none }) ≡ ok new
      replaced = reads_primary print parse (law new) _ t

      dropped :
          reads print parse (record d {
            primary = d.temp;
            temp = none;
            backup = if f.drop_backup then d.backup else none;
          })
          ≡ ok new
      dropped = reads_primary print parse (law new) _ t

      restored :
          reads print parse (
            if f.restore then d else elim d.backup [
              | none ↦ d
              | some text ↦ record d { primary = some text; backup = none }
            ])
          ≡ ok old
      restored = ground (
        arith,
        kept,
        reads_primary print parse holds (record d { primary = some text; backup = none }) refl,
      )

  move_lem :
      (d d' : Disk Text) (o : Option Text)
      → o ≡ some text
      → d.primary ≡ some text
      → d.temp ≡ some (print new)
      → Atomic d' (move_windows f d o)
  unfolding move_windows
  move_lem d d' none e p t = cc
  move_lem d d' (some old_text) e p t = either_branch f.make_backup d' _ _ (stops _ d' d read) (
      after_disk d' d _ read
        (finish_lem (record d { primary = none; backup = some old_text }) d refl e t))
    where
      read : reads print parse d ≡ ok old
      read = reads_primary print parse holds d p

  replace_lem :
      (d d' : Disk Text)
      → d.primary ≡ some text
      → d.temp ≡ some (print new)
      → Atomic d' (replace_windows f d)
  unfolding replace_windows
  replace_lem d d' p t = after_disk d' d _ (reads_primary print parse holds d p) (
      move_lem (if f.remove_backup then d else record d { backup = none }) d d.primary p
        (ground arith) (ground arith))

  unix_lem :
      (d d' : Disk Text)
      → d.primary ≡ some text
      → d.temp ≡ some (print new)
      → Atomic d' (replace_unix f d)
  unfolding replace_unix
  unix_lem d d' p t =
      either_branch f.replace d' _ _ (stops _ d' d read)
        (after_disk d' d _ read (record { on_the_way = (inr replaced, tt); at_the_end = replaced }))
    where
      read : reads print parse d ≡ ok old
      read = reads_primary print parse holds d p

      replaced : reads print parse (record d { primary = d.temp; temp = none }) ≡ ok new
      replaced = reads_primary print parse (law new) _ t

  -- From a registry that is in its file, a save that ends at any system call, on either platform,
  -- leaves a disk from which a restart reads the old registry or the new one, whole; one that runs to
  -- its end leaves the new registry if it returned `Ok` and the old one if it returned an error.
  pub save-IsAtomic :
      (windows : Bool) (d : Disk Text)
      → d.primary ≡ some text
      → IsAtomic print parse old new d (save print parse windows f new d)
  unfolding save
  save-IsAtomic windows d p = either_branch f.create_dir d _ _ (stops _ d d read) (
      either_branch f.serialize d _ _ (stops _ d d read) (
        either_branch f.write d _ _ (after_disk d d _ read (stops _ d _ torn)) (
          after_disk d d _ read
            (either_branch windows d _ _ (replace_lem _ d p refl) (unix_lem _ d p refl)))))
    where
      read : reads print parse d ≡ ok old
      read = reads_primary print parse holds d p

      torn : reads print parse (record d { temp = f.torn }) ≡ ok old
      torn = reads_primary print parse holds _ p

-- Two saves in which only the named calls fail.
abbrev pub replace_and_restore_fail : {Text : Type 0} → SaveFaults Text
replace_and_restore_fail = record {
  create_dir = false;
  serialize = false;
  write = false;
  torn = none;
  remove_backup = false;
  make_backup = false;
  replace = true;
  restore = true;
  drop_backup = false;
}

abbrev pub replace_fails : {Text : Type 0} → SaveFaults Text
replace_fails = record {
  create_dir = false;
  serialize = false;
  write = false;
  torn = none;
  remove_backup = false;
  make_backup = false;
  replace = true;
  restore = false;
  drop_backup = false;
}

module _ {Text : Type 0} (print : Registry → Text) (parse : Text → Option Registry) where
  -- On Windows, where a save cannot replace the file that holds a registry and cannot move the backup back
  -- either, a restart still reads that registry; after one more save that cannot replace the file, which
  -- first removes the backup, a restart reads an empty registry. Both saves return the error.
  pub save-loses :
      (d : Disk Text) (text : Text) (old new newer : Registry)
      → d.primary ≡ some text
      → parse text ≡ some old
      → ((save print parse true replace_and_restore_fail new d).0 ≡ err replace_failed)
        × (reads print parse (last_of d (save print parse true replace_and_restore_fail new d).1)
            ≡ ok old)
        × ((save print parse true replace_fails newer
              (last_of d (save print parse true replace_and_restore_fail new d).1)).0
            ≡ err replace_failed)
        × (reads print parse (
              last_of d
                (save print parse true replace_fails newer
                  (last_of d (save print parse true replace_and_restore_fail new d).1)).1)
            ≡ ok empty)
  unfolding save load
  save-loses d text old new newer p holds = rw p (refl, rw holds refl, refl, refl)
