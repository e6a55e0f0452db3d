-- ===== src/Archive.antt =====
-- services/archive.py: the soft delete of expired and removed events, and its undo.
pub mod Laws
use mathlib.Core.Option
use ripcale_backend.Prelude.{
  ℕ, Bool, true, false, ◌&&◌, ◌||◌, not, List, [], ◌∷◌, map, Option, none, some, Text, codes, ◌==◌,
  nat_eq, list_eq, option_eq, bool_eq, if◌then◌else◌, keep, length, lookup, is_none, is_some,
  or_else,
}
use ripcale_backend.Prelude.Int.{ℤ, pos, ◌-ℤ◌, ◌*ℤ◌, leb_ℤ, int_eq}
use ripcale_backend.Prelude.Order.{sort_by}
use ripcale_backend.Schema.{Instant, ImageRef}
use ripcale_backend.Settings.{Settings}
use ripcale_backend.Platform.{Platform}
use ripcale_backend.Models.{Source, Event, event_key, event_row, Db}
use ripcale_backend.Table.{modify_row}
use ripcale_backend.Identity.{dump_images, load_images}
use ripcale_backend.Registry.{gatherer_permanent}
use ripcale_backend.Expiry.{or_option, is_expired}
use ripcale_backend.Events.{capped}

-- `timedelta(hours=hours)` in microseconds
pub hours_delta : ℤ → ℤ
hours_delta hours = hours *ℤ pos 3600000000

abbrev unseen_for : Instant → Instant → ℤ → Bool
unseen_for now seen hours = leb_ℤ (hours_delta hours) (now -ℤ seen)

abbrev stale_seen : Option Instant → Option Instant → Instant → ℤ → Bool
stale_seen none fetched_at now hours = true
stale_seen (some seen) fetched_at now hours =
    if fetched_at == some seen then false else unseen_for now seen hours

pub removed_candidate : Event → Option Instant → Instant → Option ℤ → Bool
unfolding hours_delta
removed_candidate event fetched_at now none = false
removed_candidate event fetched_at now (some hours) =
    stale_seen event.last_seen_at fetched_at now hours

pub data Reason : Type 0 where
  expired removed : Reason

abbrev pub reason_text : Reason → Text
reason_text expired = codes "expired"
reason_text removed = codes "removed"

abbrev pub reason_beq : Reason → Reason → Bool
reason_beq expired expired = true
reason_beq removed removed = true
reason_beq _ _ = false

-- `{s.id: s.last_fetched_at for s in sources}` and `{s.id: gatherer_permanent(s.gatherer) …}`
abbrev pub fetched_times : List Source → List (ℕ × Option Instant)
fetched_times = map (λ (s : Source). (s.id, s.last_fetched_at))

abbrev pub permanents : List Source → List (ℕ × Bool)
permanents = map (λ (s : Source). (s.id, gatherer_permanent s.gatherer))

pub record ArchiveReport : Type 0 where
  pub expired : ℕ
  pub removed : ℕ
  pub dry_run : Bool
  pub preview : List (Text × Text × Reason)

module _ (p : Platform) (settings : Settings) (now : Instant) where
  -- The reason to archive a live row, if there is one.
  unfoldable pub reason_for : List Source → Event → Option Reason
  reason_for sources e =
      if is_expired p e.start_at e.end_at e.rrule now settings.expire_past_days
      then some expired
      else if not (or_else (lookup e.source_id (permanents sources)) false)
          && removed_candidate e (or_else (lookup e.source_id (fetched_times sources)) none) now
              settings.archive_grace_hours
      then some removed
      else none

  abbrev with_reason : Event → Option Reason → List (Event × Reason) → List (Event × Reason)
  with_reason e none rest = rest
  with_reason e (some reason) rest = (e, reason) ∷ rest

  pub candidates : List Source → List Event → List (Event × Reason)
  candidates sources [] = []
  candidates sources (e ∷ es) =
      let rest = candidates sources es in
      if is_some e.archived_at then rest else with_reason e (reason_for sources e) rest

  abbrev archive_with : Event → Option Reason → Event
  archive_with e none = e
  archive_with e (some reason) = record e {
    archived_at = some now;
    archived_reason = some (reason_text reason);
  }

  pub archive_row : List Source → Event → Event
  archive_row sources e = if is_some e.archived_at then e else archive_with e (reason_for sources e)

  -- `key=lambda e_r: e.end_at or e.start_at or now, reverse=True`
  abbrev reference_time : Event × Reason → Instant
  reference_time (e, r) = or_else (or_option e.end_at e.start_at) now

  abbrev by_time : Event × Reason → Event × Reason → Bool
  by_time a b = leb_ℤ (reference_time b) (reference_time a)

  abbrev pub count_of : Reason → List (Event × Reason) → ℕ
  count_of reason l = length (keep (λ (c : Event × Reason). reason_beq c.1 reason) l)

  abbrev preview_row : Event × Reason → Text × Text × Reason
  preview_row (e, r) = (e.id, e.title, r)

  pub archive : Bool → Option ℕ → Db → Db × ArchiveReport
  unfolding candidates archive_row
  archive dry_run limit db =
      let found = candidates db.sources db.events in
      (
        (if dry_run then db else record db { events = map (archive_row db.sources) db.events }),
        record {
          expired = count_of expired found;
          removed = count_of removed found;
          dry_run = dry_run;
          preview = map preview_row (capped limit (sort_by by_time found));
        },
      )

-- `rehost` downloads again what was pruned (`images.rehost_missing_images`).
pub restored : Platform → (List ImageRef → List ImageRef) → Event → Event
restored p rehost e = record e {
  archived_at = none;
  archived_reason = none;
  images = dump_images p (rehost (load_images p e.images));
}

abbrev is_archived : Option Event → Bool
is_archived none = false
is_archived (some e) = is_some e.archived_at

pub restore : Platform → (List ImageRef → List ImageRef) → Text → Db → Db × Bool
unfolding restored
restore p rehost event_id db =
    if is_archived (event_row event_id db.events)
    then (record db { events = modify_row event_key event_id (restored p rehost) db.events }, true)
    else (db, false)
