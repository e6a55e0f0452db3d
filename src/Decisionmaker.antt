-- ===== src/Decisionmaker.antt =====
-- decisionmaker/decisionmaker.py: writes the sieve's verdict to the database. The session flushes
-- what was added before the next query, so a key that is taken raises within `apply`.
pub mod Rows
pub mod Frozen
pub mod Settled
pub mod Stable
pub mod Content
use ripcale_backend.Prelude.{
  ℕ, ◌+◌, suc, Bool, true, false, ◌&&◌, ◌||◌, not, List, [], ◌∷◌, ◌++◌, map, Option, none, some,
  Text, ◌==◌, nat_eq, list_eq, option_eq, if◌then◌else◌, keep, length, is_none, join, contains, any,
}
use ripcale_backend.Prelude.Int.{int_eq}
use ripcale_backend.Prelude.Order.{sorted_set}
use ripcale_backend.Result.{Result, ok, err, ◌>>=◌}
use ripcale_backend.Schema.{Instant, ScrapedEvent, ClassifiedEvent, SieveResult}
use ripcale_backend.Platform.{Platform}
use ripcale_backend.Models.{Source, Event, event_key, EventConflict, ConflictStatus, Db}
use ripcale_backend.Table.{get_row, add_row, modify_row}
use ripcale_backend.Categories.{comma}
use ripcale_backend.Identity.{dump_images, dump_exdates}
use ripcale_backend.Registry.{gatherer_permanent}
use ripcale_backend.Models.{event_row}

pub record Report : Type 0 where
  pub inserted : ℕ
  pub updated : ℕ
  pub unchanged : ℕ
  pub removed : ℕ

-- `",".join(sorted(set(categories)))`
abbrev pub stored_names : List Text → Text
stored_names names = join comma (sorted_set names)

abbrev pub conflict_key : EventConflict → Text
conflict_key c = c.id

abbrev is_pending : ConflictStatus → Bool
is_pending ConflictStatus.pending = true
is_pending _ = false

abbrev pub seen_at : Instant → Event → Event
seen_at run_ts e = record e { last_seen_at = some run_ts }

-- `run_ts` is the pipeline's clock, `utcnow` the wall clock that stamps the rows.
module _ (p : Platform) (run_ts utcnow : Instant) where
  pub new_event : ℕ → ClassifiedEvent → Event
  new_event source_id c =
      let e = c.event in
      record {
        id = c.id;
        source_id = source_id;
        uid = e.uid;
        title = e.title;
        description = e.description;
        location = e.location;
        geo = none;
        url = e.url;
        images = dump_images p e.images;
        start_at = e.start_at;
        end_at = e.end_at;
        timezone = e.timezone;
        all_day = e.all_day;
        rrule = e.rrule;
        recurrence_id = e.recurrence_id;
        exdates = dump_exdates p e.exdates;
        redirect_to_id = none;
        priority = none;
        categories = stored_names e.categories;
        content_hash = c.content_hash;
        last_seen_at = some run_ts;
        archived_at = none;
        archived_reason = none;
        pinned = false;
        placeholder = false;
        created_at = utcnow;
        updated_at = utcnow;
      }

  pub apply_update : ClassifiedEvent → Event → Event
  apply_update c old =
      let e = c.event in
      record old {
        uid = e.uid;
        title = e.title;
        description = e.description;
        location = e.location;
        url = e.url;
        images = dump_images p e.images;
        start_at = e.start_at;
        end_at = e.end_at;
        timezone = e.timezone;
        all_day = e.all_day;
        rrule = e.rrule;
        recurrence_id = e.recurrence_id;
        exdates = dump_exdates p e.exdates;
        categories = stored_names e.categories;
        content_hash = c.content_hash;
        last_seen_at = some run_ts;
        updated_at = utcnow;
      }

  -- `for classified in sieved.new`
  pub insert_all : ℕ → List ClassifiedEvent → List Event → Result (List Event)
  insert_all source_id [] rows = ok rows
  insert_all source_id (c ∷ cs) rows = do
    rows' ← add_row event_key (new_event source_id c) rows
    insert_all source_id cs rows'

  -- One round of `for classified in sieved.updated`, with the two counts; a row that is gone is
  -- inserted again.
  pub update_one : ℕ → ClassifiedEvent → Option Event → List Event → Result (List Event × ℕ × ℕ)
  update_one source_id c none rows = do
    rows' ← add_row event_key (new_event source_id c) rows
    ok (rows', 1, 0)
  update_one source_id c (some old) rows =
      ok (modify_row event_key c.id (apply_update c) rows, 0, 1)

  pub update_all : ℕ → List ClassifiedEvent → List Event → Result (List Event × ℕ × ℕ)
  unfolding update_one
  update_all source_id [] rows = ok (rows, 0, 0)
  update_all source_id (c ∷ cs) rows = do
    (rows', i, u) ← update_one source_id c (event_row c.id rows) rows
    (rows'', is', us) ← update_all source_id cs rows'
    ok (rows'', i + is', u + us)

  -- `row.last_seen_at = run_ts` on the rows of `unchanged_ids`
  pub stamp_row : List Text → Event → Event
  stamp_row ids e = if contains e.id ids then seen_at run_ts e else e

  pub stamp_all : List Text → List Event → List Event
  unfolding stamp_row
  stamp_all ids rows = map (stamp_row ids) rows

  -- `_upsert_conflict`; `uuid` is the key that `uuid4` draws for the conflict of an event.
  abbrev pending_for : Text → EventConflict → Bool
  pending_for event_id c = (c.event_id == event_id) && is_pending c.status

  fresh_conflict : Text → ClassifiedEvent → EventConflict
  fresh_conflict id c = record {
    id = id;
    event_id = c.id;
    incoming = p.dumps_event c.event;
    changed_fields = p.dumps_names c.changed_fields;
    status = ConflictStatus.pending;
    created_at = utcnow;
    updated_at = utcnow;
    resolved_at = none;
  }

  refreshed : ClassifiedEvent → EventConflict → EventConflict
  refreshed c row = record row {
    incoming = p.dumps_event c.event;
    changed_fields = p.dumps_names c.changed_fields;
    updated_at = utcnow;
  }

  -- The first row that the query finds is refreshed.
  refresh_first : ClassifiedEvent → List EventConflict → List EventConflict
  unfolding refreshed
  refresh_first c [] = []
  refresh_first c (row ∷ rows) =
      let rest = refresh_first c rows in
      if pending_for c.id row then refreshed c row ∷ rows else row ∷ rest

  unfoldable pub upsert_conflict :
      (Text → Text) → ClassifiedEvent → List EventConflict → Result (List EventConflict)
  unfolding fresh_conflict refresh_first
  upsert_conflict uuid c rows =
      if any (pending_for c.id) rows
      then ok (refresh_first c rows)
      else add_row conflict_key (fresh_conflict (uuid c.id) c) rows

  -- One round of `for classified in sieved.conflicts`.
  pub conflict_one :
      (Text → Text)
      → ClassifiedEvent
      → Option Event
      → List Event
      → List EventConflict
      → Result (List Event × List EventConflict)
  conflict_one uuid c none rows conflicts = ok (rows, conflicts)
  conflict_one uuid c (some stored) rows conflicts = do
    conflicts' ← upsert_conflict uuid c conflicts
    ok (modify_row event_key c.id (seen_at run_ts) rows, conflicts')

  pub conflict_all :
      (Text → Text)
      → List ClassifiedEvent
      → List Event
      → List EventConflict
      → Result (List Event × List EventConflict)
  unfolding conflict_one
  conflict_all uuid [] rows conflicts = ok (rows, conflicts)
  conflict_all uuid (c ∷ cs) rows conflicts = do
    (rows', conflicts') ← conflict_one uuid c (event_row c.id rows) rows conflicts
    conflict_all uuid cs rows' conflicts'

  -- Live rows of the source that this run did not see.
  pub is_stale : ℕ → Event → Bool
  is_stale source_id e =
      (e.source_id == source_id)
      && is_none e.archived_at
      && (is_none e.last_seen_at || not (e.last_seen_at == some run_ts))

  count_removed : Source → List Event → ℕ
  unfolding is_stale
  count_removed source rows =
      if gatherer_permanent source.gatherer then 0 else length (keep (is_stale source.id) rows)

  fetched_source : Source → Source → Source
  fetched_source source s =
      if s.id == source.id then record s { last_fetched_at = some run_ts } else s

  -- The writes to the `event` and `eventconflict` tables, in order, and the counts.
  pub write_rows :
      (Text → Text)
      → ℕ
      → SieveResult
      → List Event
      → List EventConflict
      → Result (List Event × List EventConflict × ℕ × ℕ)
  unfolding insert_all update_all stamp_all conflict_all
  write_rows uuid source_id sieved rows conflicts = do
    inserted ← insert_all source_id sieved.new rows
    (changed, i, u) ← update_all source_id sieved.updated inserted
    (seen, conflicts') ←
        conflict_all uuid sieved.conflicts (stamp_all sieved.unchanged_ids changed) conflicts
    ok (seen, conflicts', length sieved.new + i, u)

  unfoldable pub apply : (Text → Text) → Source → SieveResult → Db → Result (Db × Report)
  unfolding write_rows fetched_source count_removed
  apply uuid source sieved db = do
    (rows, conflicts, i, u) ← write_rows uuid source.id sieved db.events db.conflicts
    ok (
      record db {
        events = rows;
        conflicts = conflicts;
        sources = map (fetched_source source) db.sources;
      },
      record {
        inserted = i;
        updated = u;
        unchanged = sieved.unchanged;
        removed = count_removed source rows;
      },
    )
