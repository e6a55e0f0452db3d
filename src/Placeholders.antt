-- ===== src/Placeholders.antt =====
-- services/placeholders.py: the declared recurring placeholders of a source. Parsing the dates and
-- the rule of a declaration (`_parse_start`, `normalize_rrule`) is a parameter, which has no value
-- where they raise.
pub mod Removal
pub mod Appliers
use ripcale_backend.Prelude.{
  ℕ, ◌+◌, suc, Bool, true, false, ◌&&◌, not, List, [], ◌∷◌, ◌++◌, map, Option, none, some, Text,
  codes, ◌==◌, nat_eq, list_eq, option_eq, if◌then◌else◌, keep, length, contains, is_none, is_some,
}
use ripcale_backend.Schema.{Instant, RecurrenceConfig, ScrapedEvent, SourceConfig}
use ripcale_backend.Platform.{Platform}
use ripcale_backend.Models.{Source, Event, event_key, event_row, Db}
use ripcale_backend.Table.{modify_row}
use ripcale_backend.Identity.{stable_id, content_hash}

abbrev pub Dates : Type 0
Dates = RecurrenceConfig → Option (Option Instant × Text)

pub record Report : Type 0 where
  pub created : ℕ
  pub updated : ℕ
  pub archived : ℕ

-- `existing.last_seen_at = now` and the others; `uid` stays.
module _ (p : Platform) (dates : Dates) (now utcnow : Instant) (source_id : ℕ) where
  pub series_uid : Text → RecurrenceConfig → Text
  series_uid source_name decl =
      codes "recurrence:"
      ++ p.sha256
          (source_name ++ (b':' ∷ (decl.title ++ (b':' ∷ (decl.rrule ++ (b':' ∷ decl.start_at))))))

  pub scraped_of : Text → RecurrenceConfig → Option Instant → Text → ScrapedEvent
  scraped_of uid decl start_at rrule = record {
    uid = some uid;
    title = decl.title;
    description = decl.description;
    location = decl.location;
    url = none;
    images = [];
    start_at = start_at;
    end_at = none;
    timezone = decl.timezone;
    all_day = false;
    rrule = some rrule;
    recurrence_id = none;
    exdates = [];
    categories = [];
  }

  pub new_master : Text → Text → ScrapedEvent → Event
  new_master id uid e = record {
    id = id;
    source_id = source_id;
    uid = some uid;
    title = e.title;
    description = e.description;
    location = e.location;
    geo = none;
    url = none;
    images = codes "[]";
    start_at = e.start_at;
    end_at = none;
    timezone = e.timezone;
    all_day = false;
    rrule = e.rrule;
    recurrence_id = none;
    exdates = codes "[]";
    redirect_to_id = none;
    priority = none;
    categories = [];
    content_hash = content_hash p e;
    last_seen_at = some now;
    archived_at = none;
    archived_reason = none;
    pinned = true;
    placeholder = true;
    created_at = utcnow;
    updated_at = utcnow;
  }

  pub redeclared : ScrapedEvent → Event → Event
  redeclared e old = record old {
    title = e.title;
    description = e.description;
    location = e.location;
    timezone = e.timezone;
    start_at = e.start_at;
    rrule = e.rrule;
    content_hash = content_hash p e;
    last_seen_at = some now;
    pinned = true;
    placeholder = true;
    archived_at = none;
    archived_reason = none;
    updated_at = utcnow;
  }

  -- The key of a row that is added is free.
  pub upsert_master :
      Text → Text → ScrapedEvent → Option Event → List Event × Report → List Event × Report
  unfolding new_master redeclared
  upsert_master id uid e none (rows, r) =
      (rows ++ new_master id uid e ∷ [], record r { created = suc r.created })
  upsert_master id uid e (some old) (rows, r) =
      (modify_row event_key id (redeclared e) rows, record r { updated = suc r.updated })

  declare_dated :
      Text
      → RecurrenceConfig
      → Option (Option Instant × Text)
      → List Event × Report
      → List Event × Report
  unfolding series_uid scraped_of upsert_master
  declare_dated source_name decl none (rows, r) = (rows, r)
  declare_dated source_name decl (some (start_at, rrule)) (rows, r) =
      let uid = series_uid source_name decl in
      let e = scraped_of uid decl start_at rrule in
      let id = stable_id p source_name e in upsert_master id uid e (event_row id rows) (rows, r)

  pub declare_all : Text → List RecurrenceConfig → List Event × Report → List Event × Report
  unfolding declare_dated
  declare_all source_name [] (rows, r) = (rows, r)
  declare_all source_name (decl ∷ decls) (rows, r) =
      declare_all source_name decls (declare_dated source_name decl (dates decl) (rows, r))

  -- A live placeholder of the source.
  pub is_master : Event → Bool
  is_master e = (e.source_id == source_id) && e.placeholder && is_none e.archived_at

  pub is_override : Option Text → Event → Bool
  is_override uid e =
      (e.source_id == source_id)
      && (e.uid == uid)
      && is_some e.recurrence_id
      && is_none e.archived_at

  abbrev pub removed : Event → Event
  removed e = record e {
    archived_at = some now;
    archived_reason = some (codes "removed");
    updated_at = utcnow;
  }

  abbrev pub is_kept : List Text → Option Text → Bool
  is_kept kept none = false
  is_kept kept (some uid) = contains uid kept

  abbrev remove_override : Option Text → Event → Event
  remove_override uid e = if is_override uid e then removed e else e

  -- One round of `for master in masters`: the master, then the overrides that share its uid.
  pub remove_master : List Text → Event → List Event × ℕ → List Event × ℕ
  unfolding is_override
  remove_master kept master (rows, n) =
      let rows' = modify_row event_key master.id removed rows in
      if is_kept kept master.uid then (rows, n) else (
        map (remove_override master.uid) rows',
        suc n + length (keep (is_override master.uid) rows'),
      )

  pub remove_all : List Text → List Event → List Event × ℕ → List Event × ℕ
  unfolding remove_master
  remove_all kept [] (rows, n) = (rows, n)
  remove_all kept (m ∷ ms) (rows, n) = remove_all kept ms (remove_master kept m (rows, n))

  abbrev no_report : Report
  no_report = record { created = 0; updated = 0; archived = 0 }

  pub materialize : SourceConfig → Db → Db × Report
  unfolding declare_all remove_all series_uid is_master
  materialize cfg db =
      let kept = map (series_uid cfg.name) cfg.recurrences in
      let (rows, r) = declare_all cfg.name cfg.recurrences (db.events, no_report) in
      let (after, n) = remove_all kept (keep is_master rows) (rows, 0) in
      (record db { events = after }, record r { archived = n })
