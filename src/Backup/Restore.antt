-- ===== src/Backup/Restore.antt =====
-- What restoring an archive comes to.
use ripcale_backend.Prelude.{
  ◌≡◌, ◌≢◌, refl, ap, ◌∙◌, Bool, true, false, List, Option, none, some, Text, ==_iff, nat_eq,
  list_eq, if◌then◌else◌, is_some, contains, lookup, insert, lookup-insert, arith,
}
use ripcale_backend.Schema.{Instant}
use ripcale_backend.Settings.{Settings}
use ripcale_backend.Backup.{
  Archive, Disk, Place, archives, excess, without, prune, archive_name, snapshot, snapshot_live,
  backup_now, valid_archive_name, restored, raised, restore_content, restore_archive,
  restore_locked, restore,
}
use ripcale_backend.Backup.Retention.{lookup-without, lookup-without_gone}

module _ (settings : Settings) (place : Place) where
  -- The files with a safety backup, before the retention.
  abbrev pub with_snapshot : Text → Text → Disk → List (Text × Archive)
  with_snapshot stamp live disk =
      insert (archive_name stamp) (record { db = some live; intake = disk.intake }) disk.files

  -- Whether the retention that follows a backup deletes the name.
  abbrev pub is_pruned : Text → Text → Disk → Text → Bool
  is_pruned stamp live disk name =
      contains name (excess settings.backup_count (archives (with_snapshot stamp live disk)))

  -- Everything that `restore` checks before it takes its safety backup.
  pub record IsRestorable (disk : Disk) (live name : Text) (a : Archive) (content : Text)
      : Type 0 where
    pub enabled : place.enabled ≡ true
    pub is_sqlite : place.is_sqlite ≡ true
    pub writable : place.writable ≡ true
    pub is_live : disk.live ≡ some live
    pub valid : valid_archive_name name ≡ true
    pub stored : lookup name disk.files ≡ some a
    pub has_db : a.db ≡ some content
    pub is_database : place.is_database content ≡ true

  backup_of_live :
      (stamp live : Text) (disk : Disk)
      → place.enabled ≡ true
      → place.is_sqlite ≡ true
      → disk.live ≡ some live
      → backup_now settings place stamp disk ≡ snapshot settings place stamp live disk
  unfolding backup_now snapshot_live
  backup_of_live stamp live disk on lite has = ground arith

  restore_checked :
      (now : Instant) (stamp live name : Text) (a : Archive) (content : Text) (disk : Disk)
      → IsRestorable disk live name a content
      → restore settings place now stamp name disk
        ≡ restore_locked settings place now name (some (archive_name stamp)) (record disk {
          files =
              without
                (excess settings.backup_count (archives (with_snapshot stamp live disk)))
                (with_snapshot stamp live disk);
        })
  unfolding restore snapshot prune
  restore_checked now stamp live name a content disk h =
      ground (arith, backup_of_live stamp live disk h.enabled h.is_sqlite h.is_live)

  locked_found :
      (now : Instant) (name content : Text) (safety : Option Text) (a : Archive) (disk : Disk)
      → lookup name disk.files ≡ some a
      → a.db ≡ some content
      → place.is_database content ≡ true
      → let (after, outcome) = restore_locked settings place now name safety disk in
        (outcome ≡ restored name safety)
        × (after.live ≡ some content)
        × (after.intake ≡ (if is_some a.intake then a.intake else disk.intake))
  unfolding restore_locked restore_archive restore_content
  locked_found now name content safety a disk found db readable =
      rw found (rw db (rw readable (refl, refl, refl)))

  locked_missing :
      (now : Instant) (name : Text) (safety : Option Text) (disk : Disk)
      → lookup name disk.files ≡ none
      → let (after, outcome) = restore_locked settings place now name safety disk in
        (outcome ≡ raised) × (after.live ≡ disk.live) × (after.files ≡ disk.files)
  unfolding restore_locked restore_archive
  locked_missing now name safety disk missing = rw missing (refl, refl, refl)

  pub restore-outcome :
      (now : Instant) (stamp live name : Text) (a : Archive) (content : Text) (disk : Disk)
      → IsRestorable disk live name a content
      → archive_name stamp ≢ name
      → let (after, outcome) = restore settings place now stamp name disk in
        (is_pruned stamp live disk name ≡ false
          → (outcome ≡ restored name (some (archive_name stamp)))
            × (after.live ≡ some content)
            × (after.intake ≡ (if is_some a.intake then a.intake else disk.intake)))
        × (is_pruned stamp live disk name ≡ true
            → (outcome ≡ raised) × (after.live ≡ some live) × (lookup name after.files ≡ none))
  unfolding restore
  restore-outcome now stamp live name a content disk h other =
      let gone = excess settings.backup_count (archives (with_snapshot stamp live disk)) in
      let files = with_snapshot stamp live disk in
      let kept : lookup name files ≡ some a =
        lookup-insert (archive_name stamp) name (record { db = some live; intake = disk.intake })
          disk.files
        ∙ ground (arith, ==_iff (archive_name stamp) name, h.stored) in
      rw (restore_checked now stamp live name a content disk h) (
        (λ survives.
            locked_found now name content (some (archive_name stamp)) a
              (record disk { files = without gone files })
              (lookup-without name gone files survives ∙ kept) h.has_db h.is_database),
        (λ pruned.
            let lost = lookup-without_gone name gone files pruned in
            let (o, l, f) =
              locked_missing now name (some (archive_name stamp))
                (record disk { files = without gone files }) lost in
            (o, l ∙ h.is_live, ap (lookup name) f ∙ lost)),
      )
