-- ===== src/Tests/Files.antt =====
-- Runs of the backups and of the hosted images.
use ripcale_backend.Prelude.{
  ◌≤◌, ◌≡◌, ◌≢◌, refl, true, false, List, [], ◌∷◌, none, some, Text, codes, length, list_beq, keep,
  list_eq, nat_eq, arith, contains, lookup, insert, is_some, All, if◌then◌else◌, starts_with,
  ends_with, text_lt,
}
use ripcale_backend.Prelude.Int.{pos}
use ripcale_backend.Prelude.Order.{text_le, sort_by, insert_by}
use ripcale_backend.Schema.{ImageRef, image_eq, ScrapedEvent}
use ripcale_backend.Models.{Event, event_row, Db}
use ripcale_backend.Backup.{
  Archive, Disk, Place, is_archive, archives, excess, prune, archive_name, valid_archive_name,
  restored, raised, restore,
}
use ripcale_backend.Backup.Retention.{IsDistinct, smaller, prune_keeps_latest}
use ripcale_backend.Backup.Restore.{is_pruned, IsRestorable, restore-outcome}
use ripcale_backend.Identity
use ripcale_backend.Images
use ripcale_backend.Images.Bounds.{length-host_images}
use ripcale_backend.Images.Addressed.{AreHosted, Extends, host_images-AreHosted}
use ripcale_backend.Images.Prune.{IsUnshown, prune_spares}
use ripcale_backend.Tests.Samples.{platform, settings, event, row, db_with}

abbrev machine : Place
machine = record { enabled = true; is_sqlite = true; writable = true; is_database = λ s. true }

abbrev named : Text → Text × Archive
named content = (archive_name content, record { db = some content; intake = none })

abbrev disk : Disk
disk = record {
  files = named (codes "1") ∷ named (codes "2") ∷ [];
  live = some (codes "now");
  intake = some (codes "sources");
  lock = none;
}

archives-IsDistinct : IsDistinct (archives disk.files)
unfolding is_archive starts_with ends_with archives sort_by insert_by keep list_beq text_lt
archives-IsDistinct = ((refl, tt), (tt, tt))

prune_keeps_latest_example :
    let after = (prune settings machine disk.files).0 in
    (length (archives after) ≡ smaller 2 (length (archives disk.files)))
    × All
        (λ x. contains x (archives after) ≡ false → All (λ y. text_le x y ≡ true) (archives after))
        (archives disk.files)
    × All (λ y. lookup y after ≡ lookup y disk.files) (archives after)
    × ((name : Text) → is_archive name ≡ false → lookup name after ≡ lookup name disk.files)
prune_keeps_latest_example =
    prune_keeps_latest settings machine 1 disk.files refl refl archives-IsDistinct

restorable :
    IsRestorable settings machine disk
      (codes "now")
      (archive_name (codes "1"))
      (named (codes "1")).1
      (codes "1")
unfolding valid_archive_name is_archive starts_with ends_with lookup contains list_beq
restorable = record {
  enabled = refl;
  is_sqlite = refl;
  writable = refl;
  is_live = refl;
  valid = refl;
  stored = refl;
  has_db = refl;
  is_database = refl;
}

oldest_is_pruned :
    is_pruned settings machine (codes "3") (codes "now") disk (archive_name (codes "1")) ≡ true
unfolding is_archive starts_with ends_with archives excess contains insert sort_by insert_by keep
    list_beq text_lt
oldest_is_pruned = refl

other_name : archive_name (codes "3") ≢ archive_name (codes "1")
other_name e = ground arith

restore-outcome_example :
    let (after, outcome) =
      restore settings machine (pos 9) (codes "3") (archive_name (codes "1")) disk in
    (is_pruned settings machine (codes "3") (codes "now") disk (archive_name (codes "1")) ≡ false
      → (outcome ≡ restored (archive_name (codes "1")) (some (archive_name (codes "3"))))
        × (after.live ≡ some (codes "1"))
        × (after.intake ≡ (if false then none else disk.intake)))
    × (is_pruned settings machine (codes "3") (codes "now") disk (archive_name (codes "1")) ≡ true
        → (outcome ≡ raised)
          × (after.live ≡ some (codes "now"))
          × (lookup (archive_name (codes "1")) after.files ≡ none))
restore-outcome_example =
    restore-outcome settings machine (pos 9) (codes "3") (codes "now") (archive_name (codes "1"))
      (named (codes "1")).1 (codes "1") disk restorable other_name

-- Two archives are kept and the third backup deletes the oldest, which was to be restored.
oldest_is_lost :
    (restore settings machine (pos 9) (codes "3") (archive_name (codes "1")) disk).1 ≡ raised
oldest_is_lost = (restore-outcome_example.1 oldest_is_pruned).0

abbrev no_backups : Disk
no_backups = record disk { files = [] }

abbrev changed : Disk
changed = record disk {
  files =
      (
        archive_name (codes "3"),
        record { db = some (codes "now"); intake = some (codes "sources") },
      )
      ∷ [];
  live = some (codes "later");
}

abbrev images : Images.World
images = record {
  download = λ url. some (record { content = url; content_type = none });
  sha256 = λ s. s;
  suffix = λ s. codes ".png";
  strip = λ s. s;
}

abbrev store : Images.Store
store = record { memo = []; files = (codes "old.png", codes "old") ∷ [] }

abbrev batch : List ScrapedEvent
batch = event (codes "a") (codes "A") ∷ []

length-host_images_example : length (Images.host_images images (pos 9) batch store).0.memo ≤ 1000
length-host_images_example = length-host_images images (pos 9) batch store (omega arith)

host_images-AreHosted_example :
    let (after, hosted) = Images.host_images images (pos 9) batch store in
    AreHosted images (pos 9) after.files batch hosted
    × Extends images (pos 9) store.files after.files
host_images-AreHosted_example = host_images-AreHosted images (pos 9) batch store

abbrev shown_db : Db
shown_db = db_with (row (codes "club:a") true none ∷ [])

prune_spares_example :
    ((e : Event) (img : ImageRef) (name : Text)
      → event_row e.id shown_db.events ≡ some e
      → is_some e.archived_at ≡ false
      → contains img (Identity.load_images platform e.images) ≡ true
      → Images.filename_from_url img.url ≡ some name
      → lookup name (Images.prune platform false shown_db store.files).0 ≡ lookup name store.files)
    × ((name : Text)
        → Images.is_filename name ≡ false
        → lookup name (Images.prune platform false shown_db store.files).0
          ≡ lookup name store.files)
    × ((name : Text)
        → Images.is_filename name ≡ true
        → IsUnshown platform name shown_db.events
        → lookup name (Images.prune platform false shown_db store.files).0 ≡ none)
    × ((Images.prune platform true shown_db store.files).0 ≡ store.files)
prune_spares_example = prune_spares platform shown_db store.files
