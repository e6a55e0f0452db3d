-- ===== src/Backup.antt =====
-- services/backup.py: archives of the database and the intake file, their retention, and the way
-- back. SQLite and tar are outside: an archive is what it holds.
pub mod Retention
pub mod Restore
use ripcale_backend.Prelude.{
  ℕ, zero, suc, ◌-◌, Bool, true, false, ◌&&◌, ◌||◌, not, List, [], ◌∷◌, ◌++◌, map, Option, none,
  some, Text, codes, ◌==◌, nat_eq, list_eq, if◌then◌else◌, is_empty, is_some, or_else, keep,
  contains, length, take, insert, lookup, starts_with, ends_with,
}
use ripcale_backend.Prelude.Int.{ℤ, pos, negsuc}
use ripcale_backend.Prelude.Order.{sort_by, text_le}
use ripcale_backend.Schema.{Instant}
use ripcale_backend.Settings.{Settings}
use ripcale_backend.Lock.{LockFile, acquire, release}

-- The files of an archive, by their contents.
pub record Archive : Type 0 where
  pub db : Option Text
  pub intake : Option Text

-- The backup directory, where each name stands once, the live database, the intake file and the
-- ingest lock. A directory that is not there is one without files.
pub record Disk : Type 0 where
  pub files : List (Text × Archive)
  pub live : Option Text
  pub intake : Option Text
  pub lock : LockFile

-- What the settings and the operating system say: whether `backup_dir` is set, whether the database
-- is SQLite, whether it may be written, and whether a file is one that SQLite reads.
pub record Place : Type 0 where
  pub enabled : Bool
  pub is_sqlite : Bool
  pub writable : Bool
  pub is_database : Text → Bool

abbrev archive_prefix : Text
archive_prefix = codes "ripcale-"

abbrev archive_suffix : Text
archive_suffix = codes ".tar.gz"

-- `glob("ripcale-*.tar.gz")`; the prefix and the suffix cannot overlap.
unfoldable pub is_archive : Text → Bool
is_archive name = starts_with archive_prefix name && ends_with archive_suffix name

-- `sorted(dest_dir.glob(…))`
unfoldable pub archives : List (Text × Archive) → List Text
archives files = sort_by text_le (keep is_archive (map (λ (f : Text × Archive). f.0) files))

-- `archives[:-count] if count > 0 else []`, and nothing for a count of 0
unfoldable pub excess : ℤ → List Text → List Text
excess (pos (suc n)) names = take (length names - suc n) names
excess _ names = []

-- Every file of the list is unlinked.
unfoldable pub without : List Text → List (Text × Archive) → List (Text × Archive)
without names files = keep (λ (f : Text × Archive). not (contains f.0 names)) files

pub data Created : Type 0 where
  created : Text → ℕ → Created
  skipped : Text → Created

-- `stamp` is the text of the time.
abbrev pub archive_name : Text → Text
archive_name stamp = archive_prefix ++ (stamp ++ archive_suffix)

unfoldable pub valid_archive_name : Text → Bool
valid_archive_name name =
    not (
      is_empty name
      || contains b'/' name
      || contains b'\\' name
      || (name == codes ".")
      || (name == codes ".."))
    && is_archive name

-- `refused` is a dict with its reason, `raised` an exception.
pub data Restored : Type 0 where
  restored : Text → Option Text → Restored
  refused : Text → Restored
  raised : Restored

abbrev pub safety_name : Created → Option Text
safety_name (created name pruned) = some name
safety_name (skipped reason) = none

module _ (settings : Settings) (place : Place) where
  -- `prune`, and the number of archives that it deletes
  unfoldable pub prune : List (Text × Archive) → List (Text × Archive) × ℕ
  prune files =
      let gone = excess settings.backup_count (archives files) in
      if place.enabled then (without gone files, length gone) else (files, 0)

  unfoldable pub snapshot : Text → Text → Disk → Disk × Created
  snapshot stamp content disk =
      let name = archive_name stamp in
      let (files, pruned) =
        prune (insert name (record { db = some content; intake = disk.intake }) disk.files) in
      (record disk { files = files }, created name pruned)

  unfoldable pub snapshot_live : Text → Option Text → Disk → Disk × Created
  snapshot_live stamp none disk = (disk, skipped (codes "database file not found"))
  snapshot_live stamp (some content) disk = snapshot stamp content disk

  unfoldable pub backup_now : Text → Disk → Disk × Created
  backup_now stamp disk =
      if not place.enabled
      then (disk, skipped (codes "backup_dir is empty (backups disabled)"))
      else if not place.is_sqlite
      then (disk, skipped (codes "database is not SQLite"))
      else snapshot_live stamp disk.live disk

  -- What is done with an archive that was opened.
  unfoldable pub restore_content :
      Text → Option Text → Option Text → Option Text → Disk → Disk × Restored
  restore_content name safety none intake disk = (disk, refused (codes "archive has no ripcale.db"))
  restore_content name safety (some content) intake disk =
      if place.is_database content
      then (
        record disk {
          live = some content;
          intake = if is_some intake then intake else disk.intake;
        },
        restored name safety,
      )
      else (disk, refused (codes "restore failed"))

  -- `tarfile.open` raises where the file is not there.
  unfoldable pub restore_archive : Text → Option Text → Option Archive → Disk → Disk × Restored
  restore_archive name safety none disk = (disk, raised)
  restore_archive name safety (some a) disk = restore_content name safety a.db a.intake disk

  abbrev pub released : Bool → Disk → Disk
  released acquired disk = record disk { lock = if acquired then release disk.lock else disk.lock }

  -- From the lock on, behind the safety backup.
  unfoldable pub restore_locked : Instant → Text → Option Text → Disk → Disk × Restored
  restore_locked now name safety disk =
      let (held, acquired) = acquire settings now disk.lock in
      let (after, outcome) =
        restore_archive name safety (lookup name disk.files) (record disk { lock = held }) in
      (released acquired after, outcome)

  unfoldable pub restore : Instant → Text → Text → Disk → Disk × Restored
  restore now stamp name disk =
      let (saved, safety) = backup_now stamp disk in
      if not (valid_archive_name name)
      then (disk, refused (codes "invalid backup name"))
      else if not place.enabled
      then (disk, refused (codes "backup_dir is empty (backups disabled)"))
      else if not (is_some (lookup name disk.files))
      then (disk, refused (codes "backup not found"))
      else if not place.is_sqlite || not (is_some disk.live)
      then (disk, refused (codes "live database is not present"))
      else if not place.writable
      then (disk, refused (codes "live database is not writable"))
      else restore_locked now name (safety_name safety) saved
