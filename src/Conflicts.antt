-- ===== src/Conflicts.antt =====
-- services/conflicts.py: what is done with a pending conflict of a pinned event. A call is one
-- transaction, and an exception within it writes nothing.
pub mod Resolve
use ripcale_backend.Prelude.{
  Bool, true, false, List, Option, none, some, Text, codes, ◌==◌, nat_eq, list_eq, if◌then◌else◌,
  is_empty, [], ◌∷◌, ◌++◌,
}
use ripcale_backend.Result.{Result, ok, err, failure, ◌>>=◌}
use ripcale_backend.Schema.{Instant, ScrapedEvent}
use ripcale_backend.Platform.{Platform}
use ripcale_backend.Models.{Event, event_key, event_row, EventConflict, ConflictStatus, Db}
use ripcale_backend.Table.{get_row, modify_row}
use ripcale_backend.Identity.{dump_images, dump_exdates, content_hash}
use ripcale_backend.Decisionmaker.{conflict_key, stored_names}
use ripcale_backend.Events.{Edit, title, description, location, url, timezone, update_event}

-- What `deepseek.chat` replies for a pinned event, the incoming one and the list of changed fields:
-- the items of the dict that it parses to, with the values that are texts, and nothing where it is
-- no dict; the call may fail.
abbrev pub Chat : Type 0
Chat = Event → ScrapedEvent → Text → Result (Option (List (Text × Option Text)))

-- The items of the dict whose key is of `_SYNCRETIZE_FIELDS` and whose value is a text.
edit_of : Text → Text → List Edit
edit_of key v =
    if key == codes "title"
    then title v ∷ []
    else if key == codes "description"
    then description (some v) ∷ []
    else if key == codes "location"
    then location (some v) ∷ []
    else if key == codes "url"
    then url (some v) ∷ []
    else if key == codes "timezone"
    then timezone (some v) ∷ []
    else []

pub merged_fields : List (Text × Option Text) → List Edit
unfolding edit_of
merged_fields [] = []
merged_fields ((key, none) ∷ items) = merged_fields items
merged_fields ((key, some v) ∷ items) = edit_of key v ++ merged_fields items

abbrev fields_of : Option (List (Text × Option Text)) → List Edit
fields_of none = []
fields_of (some items) = merged_fields items

abbrev pub conflict_row : Text → Db → Option EventConflict
conflict_row id db = get_row conflict_key id db.conflicts

abbrev pub settled : ConflictStatus → Instant → EventConflict → EventConflict
settled status utcnow c = record c {
  status = status;
  resolved_at = some utcnow;
  updated_at = utcnow;
}

abbrev pub settle : ConflictStatus → Instant → Text → Db → Db
settle status utcnow id db = record db {
  conflicts = modify_row conflict_key id (settled status utcnow) db.conflicts;
}

-- `ScrapedEvent(**json.loads(conflict.incoming))`
abbrev pub parsed : Option ScrapedEvent → Result ScrapedEvent
parsed none = err (failure (codes "JSONDecodeError"))
parsed (some e) = ok e

pub data Action : Type 0 where
  ignore adopt syncretize : Action

-- The names `ignore`, `apply` and `syncretize`; any other is refused.
pub action_named : Text → Option Action
action_named name =
    if name == codes "ignore"
    then some ignore
    else if name == codes "apply"
    then some adopt
    else if name == codes "syncretize"
    then some syncretize
    else none

module _ (p : Platform) (utcnow : Instant) where
  pub write_incoming : ScrapedEvent → Event → Event
  write_incoming e old = record old {
    title = e.title;
    description = e.description;
    location = e.location;
    url = e.url;
    images = dump_images p e.images;
    start_at = e.start_at;
    end_at = e.end_at;
    timezone = e.timezone;
    all_day = e.all_day;
    rrule = e.rrule;
    recurrence_id = e.recurrence_id;
    exdates = dump_exdates p e.exdates;
    categories = stored_names e.categories;
    content_hash = content_hash p e;
    pinned = true;
    updated_at = utcnow;
  }

  apply_to : EventConflict → Option Event → Db → Result Db
  unfolding write_incoming
  apply_to c none db = ok db
  apply_to c (some event) db = do
    e ← parsed (p.loads_event c.incoming)
    ok (record db { events = modify_row event_key c.event_id (write_incoming e) db.events })

  -- `if fields: update_event(…)`
  abbrev merged_into : Text → List Edit → Db → Db
  merged_into event_id [] db = db
  merged_into event_id (f ∷ fs) db = (update_event p utcnow event_id (f ∷ fs) true db).0

  syncretize_to : Chat → EventConflict → Option Event → Db → Result Db
  syncretize_to chat c none db = ok db
  syncretize_to chat c (some event) db = do
    e ← parsed (p.loads_event c.incoming)
    reply ← chat event e c.changed_fields
    ok (merged_into event.id (fields_of reply) db)

  resolve_pending : Chat → EventConflict → Action → Db → Result Db
  unfolding apply_to syncretize_to
  resolve_pending chat c ignore db = ok (settle ConflictStatus.ignored utcnow c.id db)
  resolve_pending chat c adopt db = do
    written ← apply_to c (event_row c.event_id db.events) db
    ok (settle ConflictStatus.applied utcnow c.id written)
  resolve_pending chat c syncretize db = do
    written ← syncretize_to chat c (event_row c.event_id db.events) db
    ok (settle ConflictStatus.merged utcnow c.id written)

  with_status : Chat → EventConflict → Action → ConflictStatus → Db → Result (Db × Bool)
  unfolding resolve_pending
  with_status chat c action ConflictStatus.pending db = do
    after ← resolve_pending chat c action db
    ok (after, true)
  with_status chat c action _ db = ok (db, false)

  resolve_found : Chat → Option EventConflict → Action → Db → Result (Db × Bool)
  unfolding with_status
  resolve_found chat none action db = ok (db, false)
  resolve_found chat (some c) action db = with_status chat c action c.status db

  resolve_action : Chat → Text → Option Action → Db → Result (Db × Bool)
  unfolding resolve_found
  resolve_action chat id none db = ok (db, false)
  resolve_action chat id (some action) db = resolve_found chat (conflict_row id db) action db

  pub resolve : Chat → Text → Text → Db → Result (Db × Bool)
  unfolding resolve_action action_named
  resolve chat id action db = resolve_action chat id (action_named action) db
