-- ===== src/Llm/Apply.antt =====
-- services/llm.py: `apply_decision` and the writes of each action.
use ripcale_backend.Prelude.{
  Bool, true, false, ◌||◌, not, List, [], ◌∷◌, ◌++◌, Option, none, some, Text, codes, if◌then◌else◌,
  is_none, is_some, or_else, keep, contains, find, split, ◌==◌, nat_eq,
}
use ripcale_backend.Prelude.Int.{int_eq}
use ripcale_backend.Result.{Result, ok, err, ◌>>=◌}
use ripcale_backend.Schema.{Instant, ScrapedEvent}
use ripcale_backend.Settings.{IntakeSettings}
use ripcale_backend.Platform.{Platform}
use ripcale_backend.Models.{Source, Event, PendingPost, PostStatus, Db, event_key, event_row}
use ripcale_backend.Table.{modify_row}
use ripcale_backend.Identity.{stable_id, dump_exdates, load_exdates, truthy}
use ripcale_backend.Categories.{comma, normalize_proposed}
use ripcale_backend.Recurrence.Normalize.{normalize_rrule}
use ripcale_backend.Approvals.{create_in_session}
use ripcale_backend.Llm.{
  EventFields, RecurrenceFields, Action, Decision, create, modify, delete, ignore, add_recurrence,
  remove_recurrence, parse_dt, scraped_of, is_occurrence, event_from_scraped, overwrite,
}

-- `json.dumps` of a proposal's payload, and `s.strip()`.
pub record Proposals : Type 0 where
  pub dumps_recurrence : RecurrenceFields → Text
  pub dumps_title : Text → Text
  pub strip : Text → Text

abbrev pub failed_with : Text → PendingPost → PendingPost
failed_with message post = record post { status = PostStatus.failed; error = some message }

abbrev pub settled_as : PostStatus → Text → PendingPost → PendingPost
settled_as status event_id post = record post { status = status; match_event_id = some event_id }

-- `session.get(Event, decision.match_id) if decision.match_id else None`
abbrev pub matched : Option Text → List Event → Option Event
matched none events = none
matched (some []) events = none
matched (some (c ∷ id)) events = event_row (c ∷ id) events

-- `session.get(Source, post.source_id)`
abbrev pub source_of : PendingPost → Db → Option Source
source_of post db = find (λ (s : Source). s.id == post.source_id) db.sources

-- `if rid not in exdates: exdates.append(rid)`
unfoldable pub added : Instant → List Instant → List Instant
added rid exdates = if contains rid exdates then exdates else exdates ++ rid ∷ []

module _ (p : Platform) (intake : IntakeSettings) (clock_now utcnow : Instant) where
  module _ (post : PendingPost) (source_name : Text) where
    abbrev pub upserted : ScrapedEvent → List Text → Text → Option Event → List Event → List Event
    upserted e categories id none events =
        events ++ event_from_scraped p clock_now utcnow post source_name e categories ∷ []
    upserted e categories id (some old) events =
        modify_row event_key id (overwrite p clock_now utcnow e categories) events

    -- Adds the event, or writes over the row with its id.
    unfoldable pub upsert : ScrapedEvent → List Text → List Event → List Event
    upsert e categories events =
        let id = stable_id p source_name e in upserted e categories id (event_row id events) events

    unfoldable pub fill_in :
        EventFields → List Text → Event → Instant → List Event → Result (List Event × PendingPost)
    fill_in f categories master rid events =
        let written = scraped_of p post f categories master.uid (some rid) in
        if is_occurrence p master rid
        then (written >>= λ e. ok (
          upsert e categories events,
          settled_as PostStatus.modified (stable_id p source_name e) post,
        ))
        else ok (
          events,
          failed_with (codes "modify: recurrence_id is not an occurrence of the series") post,
        )

    unfoldable pub modify_event :
        EventFields → List Text → Event → List Event → Result (List Event × PendingPost)
    modify_event f categories old events =
        let written = scraped_of p post f categories old.uid none in
        if is_some old.rrule
        then ok (
          events,
          failed_with (codes "modify: match_id is a recurring series — use recurrence_id") post,
        )
        else (written >>= λ e. ok (
          modify_row event_key old.id (overwrite p clock_now utcnow e categories) events,
          settled_as PostStatus.modified old.id post,
        ))

    unfoldable pub create_event :
        EventFields → List Text → List Event → Result (List Event × PendingPost)
    create_event f categories events = do
      e ← scraped_of p post f categories (some post.uid) none
      ok (
        upsert e categories events,
        settled_as PostStatus.created (stable_id p source_name e) post,
      )

    -- The three branches: the row that `match_id` names, and the parsed `recurrence_id`.
    unfoldable pub create_or_modify :
        EventFields
        → List Text
        → Action
        → Option Event
        → Option Instant
        → List Event
        → Result (List Event × PendingPost)
    create_or_modify f categories action (some master) (some rid) events =
        fill_in f categories master rid events
    create_or_modify f categories modify (some old) none events =
        modify_event f categories old events
    create_or_modify f categories action found rid events = create_event f categories events

    unfoldable pub apply_create_modify :
        List Text → EventFields → Decision → List Event → Result (List Event × PendingPost)
    apply_create_modify default_names f decision events = do
      rid ← parse_dt p decision.recurrence_id f.timezone
      create_or_modify f (normalize_proposed intake (default_names ++ f.categories)) decision.action
          (matched decision.match_id events) rid events

  abbrev pub with_exdate : Instant → Event → Event
  with_exdate rid e = record e {
    exdates = dump_exdates p (added rid (load_exdates p e.exdates));
    updated_at = utcnow;
  }

  abbrev pub cancelled : Event → Event
  cancelled e = record e {
    archived_at = some clock_now;
    archived_reason = some (codes "cancelled");
    updated_at = utcnow;
  }

  unfoldable pub delete_found :
      PendingPost → Event → Option Instant → List Event → List Event × PendingPost
  delete_found post e none events =
      (modify_row event_key e.id cancelled events, settled_as PostStatus.deleted e.id post)
  delete_found post e (some rid) events =
      if is_occurrence p e rid
      then (
        modify_row event_key e.id (with_exdate rid) events,
        settled_as PostStatus.deleted e.id post,
      )
      else (
        events,
        failed_with (codes "delete: recurrence_id is not an occurrence of the series") post,
      )

  unfoldable pub delete_matched :
      PendingPost → Decision → Option Event → List Event → Result (List Event × PendingPost)
  delete_matched post decision none events =
      ok (events, failed_with (codes "delete: match_id not found") post)
  delete_matched post decision (some e) events = do
    rid ← parse_dt p decision.recurrence_id e.timezone
    ok (delete_found post e rid events)

  unfoldable pub apply_delete :
      PendingPost → Decision → List Event → Result (List Event × PendingPost)
  apply_delete post decision events =
      delete_matched post decision (matched decision.match_id events) events

abbrev pub is_adding : Action → Bool
is_adding add_recurrence = true
is_adding _ = false

abbrev pub action_text : Action → Text
action_text action = if is_adding action then codes "add_recurrence" else codes "remove_recurrence"

module _ (p : Platform) (proposals : Proposals) (uuid : Text) (utcnow : Instant) where
  abbrev pub proposed : PendingPost → PendingPost
  proposed post = record post { status = PostStatus.proposed }

  -- What is wrong with a series that is to be added; `rrulestr` sees the normalized rule.
  abbrev rule_parses : Option Text → Bool
  rule_parses none = false
  rule_parses (some rule) = p.is_rule rule

  unfoldable pub add_error : RecurrenceFields → Result (Option Text)
  add_error rec =
      let start = parse_dt p rec.start_at rec.timezone in
      if not (truthy rec.rrule) || not (truthy rec.start_at)
      then ok (some (codes "add_recurrence: rrule and start_at are required"))
      else if not (rule_parses (normalize_rrule p (or_else rec.rrule []) rec.timezone))
      then ok (some (codes "add_recurrence: invalid rrule"))
      else (start >>= λ t.
          ok (if is_none t then some (codes "add_recurrence: invalid start_at") else none))

  unfoldable pub propose : Text → Text → Text → Text → PendingPost → Db → Result (Db × PendingPost)
  propose kind source_name payload reason post db = do
    after ← create_in_session uuid utcnow kind source_name payload reason db
    ok (after, proposed post)

  unfoldable pub propose_add :
      Text → RecurrenceFields → Text → Option Text → PendingPost → Db → Result (Db × PendingPost)
  unfolding propose
  propose_add source_name rec reason none post db =
      propose (codes "recurrence_add") source_name (proposals.dumps_recurrence rec) reason post db
  propose_add source_name rec reason (some message) post db = ok (db, failed_with message post)

  unfoldable pub propose_series :
      Text → RecurrenceFields → Decision → PendingPost → Db → Result (Db × PendingPost)
  unfolding propose
  propose_series source_name rec decision post db =
      if p.is_blank rec.title
      then ok
          (db, failed_with (action_text decision.action ++ codes ": recurrence is required") post)
      else if is_adding decision.action
      then (add_error rec >>= λ problem.
          propose_add source_name rec decision.reason problem post db)
      else propose (codes "recurrence_remove") source_name
          (proposals.dumps_title (proposals.strip rec.title)) decision.reason post db

  unfoldable pub apply_recurrence :
      Text → Decision → Option RecurrenceFields → PendingPost → Db → Result (Db × PendingPost)
  apply_recurrence source_name decision none post db =
      ok (db, failed_with (action_text decision.action ++ codes ": recurrence is required") post)
  apply_recurrence source_name decision (some rec) post db =
      propose_series source_name rec decision post db

abbrev pub source_name : Option Source → Text
source_name none = []
source_name (some s) = s.name

abbrev pub default_names : Platform → Option Source → List Text
default_names p none = []
default_names p (some s) = keep (λ c. not (p.is_blank c)) (split comma s.default_categories)

module _ (p : Platform) (intake : IntakeSettings) (proposals : Proposals) (uuid : Text)
    (clock_now utcnow : Instant) where
  abbrev pub with_events : Db → Result (List Event × PendingPost) → Result (Db × PendingPost)
  with_events db (err raised) = err raised
  with_events db (ok (events, post)) = ok (record db { events = events }, post)

  abbrev no_event : Action → Text
  no_event modify = codes "decision had no event for action 'modify'"
  no_event _ = codes "decision had no event for action 'create'"

  unfoldable pub apply_event :
      Option EventFields → Decision → PendingPost → Db → Result (Db × PendingPost)
  apply_event none decision post db = ok (db, failed_with (no_event decision.action) post)
  apply_event (some f) decision post db =
      let source = source_of post db in
      with_events db (
        apply_create_modify p intake clock_now utcnow post (source_name source)
          (default_names p source) f decision db.events)

  -- The dispatch on the action.
  unfoldable pub apply_action : Action → Decision → PendingPost → Db → Result (Db × PendingPost)
  apply_action ignore decision post db = ok (db, record post { status = PostStatus.ignored })
  apply_action add_recurrence decision post db =
      apply_recurrence p proposals uuid utcnow (source_name (source_of post db)) decision
        decision.recurrence post db
  apply_action remove_recurrence decision post db =
      apply_recurrence p proposals uuid utcnow (source_name (source_of post db)) decision
        decision.recurrence post db
  apply_action delete decision post db =
      with_events db (apply_delete p intake clock_now utcnow post decision db.events)
  apply_action create decision post db = apply_event decision.event decision post db
  apply_action modify decision post db = apply_event decision.event decision post db

  -- The post is handed on; its row is written by the caller.
  unfoldable pub apply_decision : PendingPost → Decision → Db → Result (Db × PendingPost)
  apply_decision post decision db = do
    (after, settled) ← apply_action decision.action decision post db
    ok (after, record settled { processed_at = some utcnow; updated_at = utcnow })
