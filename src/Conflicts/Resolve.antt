-- ===== src/Conflicts/Resolve.antt =====
-- The outcomes of a resolution, and what the next run makes of them.
use mathlib.Core.Option
use ripcale_backend.Prelude.{
  ◌≡◌, refl, ap, ◌∙◌, Bool, true, false, List, Option, none, some, Text, codes, arith, ◌==◌, ==_iff,
  ==_refl, list_beq, nat_eq, list_eq, if◌then◌else◌,
}
use ripcale_backend.Result.{ok, ◌>>=◌}
use ripcale_backend.Schema.{Instant, ScrapedEvent}
use ripcale_backend.Platform.{Platform}
use ripcale_backend.Models.{Event, event_key, event_row, EventConflict, ConflictStatus, Db}
use ripcale_backend.Table.{get_row-key, get_row-modify_row, modify_row}
use ripcale_backend.Identity.{content_hash, dump_images, dump_exdates}
use ripcale_backend.Prelude.{join}
use ripcale_backend.Prelude.Order.{sorted_set}
use ripcale_backend.Categories.{comma}
use ripcale_backend.Decisionmaker.{conflict_key}
use ripcale_backend.Sieve.Verdict.{is_same, bucket_of}
use ripcale_backend.Conflicts.{
  Chat, conflict_row, settled, settle, write_incoming, apply_to, Action, ignore, adopt,
  action_named, resolve_pending, with_status, resolve_found, resolve_action, resolve,
}

abbrev pub is_pending : Option EventConflict → Bool
is_pending none = false
is_pending (some c) = elim c.status [ ConflictStatus.pending ↦ true | _ ↦ false ]

resolve_action_final :
    (p : Platform) (utcnow : Instant) (chat : Chat) (id : Text) (action : Option Action) (db : Db)
    → is_pending (conflict_row id db) ≡ false
    → resolve_action p utcnow chat id action db ≡ ok (db, false)
unfolding resolve_action
resolve_action_final p utcnow chat id none db h = refl
resolve_action_final p utcnow chat id (some action) db h = ground arith

-- An action of another name does nothing, and a conflict that is absent or was resolved before is
-- not resolved again: in both cases nothing is written and the answer is no.
pub resolve_refused :
    (p : Platform) (utcnow : Instant) (chat : Chat) (id action : Text) (db : Db)
    → (action_named action ≡ none → resolve p utcnow chat id action db ≡ ok (db, false))
      × (is_pending (conflict_row id db) ≡ false
          → resolve p utcnow chat id action db ≡ ok (db, false))
unfolding resolve
resolve_refused p utcnow chat id action db =
    ((λ h. rw (h, resolve_action)), resolve_action_final p utcnow chat id (action_named action) db)

resolve_of_pending :
    (p : Platform) (utcnow : Instant) (chat : Chat) (id name : Text) (action : Action) (db : Db)
    (c : EventConflict)
    → action_named name ≡ some action
    → conflict_row id db ≡ some c
    → c.status ≡ ConflictStatus.pending
    → resolve p utcnow chat id name db
      ≡ (resolve_pending p utcnow chat c action db >>= λ after. ok (after, true))
unfolding resolve
resolve_of_pending p utcnow chat id name action db c named found pending =
    rw (named, resolve_action) (rw (found, resolve_found) (rw (pending, with_status)))

settle_row :
    (status : ConflictStatus) (utcnow : Instant) (id j : Text) (db : Db)
    → conflict_row j (settle status utcnow id db) ≡ (
        if id == j
        then Option.map (settled status utcnow) (conflict_row j db)
        else conflict_row j db)
settle_row status utcnow id j db =
    get_row-modify_row conflict_key id j (settled status utcnow) db.conflicts (λ r. refl)

settled_row :
    (status : ConflictStatus) (utcnow : Instant) (id j : Text) (db : Db) (c : EventConflict)
    → conflict_row id db ≡ some c
    → conflict_row j (settle status utcnow c.id db)
      ≡ (if id == j then some (settled status utcnow c) else conflict_row j db)
settled_row status utcnow id j db c found = ground (
  arith,
  get_row-key conflict_key id db.conflicts c found,
  settle_row status utcnow c.id j db,
  ==_iff id j,
)

-- Ignoring a pending conflict marks it ignored, with the time; every other conflict and every event
-- stay as they were.
pub resolve_ignore :
    (p : Platform) (utcnow : Instant) (chat : Chat) (id j : Text) (db : Db) (c : EventConflict)
    → conflict_row id db ≡ some c
    → c.status ≡ ConflictStatus.pending
    → (after : Db) × (resolve p utcnow chat id (codes "ignore") db ≡ ok (after, true))
      × (after.events ≡ db.events)
      × (conflict_row j after
          ≡ (if id == j then some (settled ConflictStatus.ignored utcnow c) else conflict_row j db))
resolve_ignore p utcnow chat id j db c found pending = (
  settle ConflictStatus.ignored utcnow c.id db,
  resolve_of_pending p utcnow chat id (codes "ignore") ignore db c
        (unfold action_named list_beq in refl) found pending
      ∙ unfold resolve_pending in refl,
  refl,
  settled_row ConflictStatus.ignored utcnow id j db c found,
)

written_row :
    (p : Platform) (utcnow : Instant) (k j : Text) (rows : List Event) (e : ScrapedEvent)
    (old : Event)
    → event_row k rows ≡ some old
    → event_row j (modify_row event_key k (write_incoming p utcnow e) rows)
      ≡ (if k == j then some (write_incoming p utcnow e old) else event_row j rows)
written_row p utcnow k j rows e old stored = ground (
  arith,
  get_row-modify_row event_key k j (write_incoming p utcnow e) rows
      (λ r. unfold write_incoming in refl),
  ==_iff k j,
)

now_same :
    (p : Platform) (utcnow : Instant) (e : ScrapedEvent) (old : Event)
    → old.archived_at ≡ none
    → bucket_of (content_hash p e) (some (write_incoming p utcnow e old)) ≡ is_same
unfolding bucket_of write_incoming
now_same p utcnow e old h = rw h (ground (arith, ==_iff (content_hash p e) (content_hash p e)))

-- A row that has the incoming content, column by column, is pinned, and is otherwise the old one.
pub record IsAdopted (p : Platform) (utcnow : Instant) (e : ScrapedEvent) (old row : Event)
    : Type 0 where
  pub title : row.title ≡ e.title
  pub description : row.description ≡ e.description
  pub location : row.location ≡ e.location
  pub url : row.url ≡ e.url
  pub images : row.images ≡ p.dumps_images e.images
  pub start_at : row.start_at ≡ e.start_at
  pub end_at : row.end_at ≡ e.end_at
  pub timezone : row.timezone ≡ e.timezone
  pub all_day : row.all_day ≡ e.all_day
  pub rrule : row.rrule ≡ e.rrule
  pub recurrence_id : row.recurrence_id ≡ e.recurrence_id
  pub exdates : row.exdates ≡ p.dumps_exdates e.exdates
  pub categories : row.categories ≡ join comma (sorted_set e.categories)
  pub hash : row.content_hash ≡ content_hash p e
  pub pinned : row.pinned ≡ true
  pub updated_at : row.updated_at ≡ utcnow
  pub id : row.id ≡ old.id
  pub source_id : row.source_id ≡ old.source_id
  pub uid : row.uid ≡ old.uid
  pub geo : row.geo ≡ old.geo
  pub priority : row.priority ≡ old.priority
  pub redirect_to_id : row.redirect_to_id ≡ old.redirect_to_id
  pub last_seen_at : row.last_seen_at ≡ old.last_seen_at
  pub archived_at : row.archived_at ≡ old.archived_at
  pub archived_reason : row.archived_reason ≡ old.archived_reason
  pub placeholder : row.placeholder ≡ old.placeholder
  pub created_at : row.created_at ≡ old.created_at

write_incoming-IsAdopted :
    (p : Platform) (utcnow : Instant) (e : ScrapedEvent) (old : Event)
    → IsAdopted p utcnow e old (write_incoming p utcnow e old)
unfolding write_incoming
write_incoming-IsAdopted p utcnow e old =
    unfold dump_images dump_exdates in
    record {
      title = refl;
      description = refl;
      location = refl;
      url = refl;
      images = refl;
      start_at = refl;
      end_at = refl;
      timezone = refl;
      all_day = refl;
      rrule = refl;
      recurrence_id = refl;
      exdates = refl;
      categories = refl;
      hash = refl;
      pinned = refl;
      updated_at = refl;
      id = refl;
      source_id = refl;
      uid = refl;
      geo = refl;
      priority = refl;
      redirect_to_id = refl;
      last_seen_at = refl;
      archived_at = refl;
      archived_reason = refl;
      placeholder = refl;
      created_at = refl;
    }

-- Applying a pending conflict, whose incoming text parses and whose event is stored, writes every
-- column of the incoming content to the event and pins it, leaves its other columns and every other
-- event as they were and marks the conflict applied; unless the event is archived, the sieve then
-- finds the incoming content unchanged.
pub resolve_adopt :
    (p : Platform) (utcnow : Instant) (chat : Chat) (id j : Text) (db : Db) (c : EventConflict)
    (e : ScrapedEvent) (old : Event)
    → conflict_row id db ≡ some c
    → c.status ≡ ConflictStatus.pending
    → p.loads_event c.incoming ≡ some e
    → event_row c.event_id db.events ≡ some old
    → (after : Db) × (row : Event) × (resolve p utcnow chat id (codes "apply") db
        ≡ ok (after, true))
      × IsAdopted p utcnow e old row
      × (event_row j after.events ≡ (if c.event_id == j then some row else event_row j db.events))
      × (conflict_row id after ≡ some (settled ConflictStatus.applied utcnow c))
      × (old.archived_at ≡ none
          → bucket_of (content_hash p e) (event_row c.event_id after.events) ≡ is_same)
resolve_adopt p utcnow chat id j db c e old found pending parsed stored =
    let rows = modify_row event_key c.event_id (write_incoming p utcnow e) db.events in
    let at = written_row p utcnow c.event_id c.event_id db.events e old stored in
    (
      settle ConflictStatus.applied utcnow c.id (record db { events = rows }),
      write_incoming p utcnow e old,
      resolve_of_pending p utcnow chat id (codes "apply") adopt db c
            (unfold action_named list_beq in refl) found pending
          ∙ unfold resolve_pending in rw (stored, apply_to) (rw parsed),
      write_incoming-IsAdopted p utcnow e old,
      written_row p utcnow c.event_id j db.events e old stored,
      ground (arith, ==_iff id id, settled_row ConflictStatus.applied utcnow id id db c found),
      λ live.
          ap (bucket_of (content_hash p e)) (
            at
            ∙ ap
                (λ b.
                  if b
                  then some (write_incoming p utcnow e old)
                  else event_row c.event_id db.events)
                (==_refl c.event_id))
          ∙ now_same p utcnow e old live,
    )
