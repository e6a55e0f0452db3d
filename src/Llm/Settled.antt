-- ===== src/Llm/Settled.antt =====
-- Applying a decision settles the post.
use ripcale_backend.Prelude.{
  ◌≡◌, refl, ap, Bool, true, false, List, Option, none, some, Text, Bool-cases, inl, inr, arith,
  is_some,
}
use ripcale_backend.Result.{Result, ok, err, is_ok}
use ripcale_backend.Schema.{Instant, ScrapedEvent}
use ripcale_backend.Settings.{IntakeSettings}
use ripcale_backend.Platform.{Platform}
use ripcale_backend.Models.{Event, PendingPost, PostStatus, Db}
use ripcale_backend.Table.{add_row-is_ok}
use ripcale_backend.Approvals.{approval_key, approval_row, proposal, create_in_session}
use ripcale_backend.Llm.{
  EventFields, RecurrenceFields, Action, Decision, create, modify, delete, ignore, add_recurrence,
  remove_recurrence, parse_dt, scraped_of, is_occurrence,
}
use ripcale_backend.Llm.Apply.{
  Proposals, fill_in, modify_event, create_event, create_or_modify, apply_create_modify,
  delete_found, delete_matched, apply_delete, propose, propose_add, propose_series,
  apply_recurrence, failed_with, is_adding, add_error, with_events, apply_event, apply_action,
  apply_decision,
}

-- Neither waiting nor in the hands of the worker.
abbrev pub is_final : PostStatus → Bool
is_final PostStatus.pending = false
is_final PostStatus.processing = false
is_final _ = true

-- From the database and the post to those behind a decision. Where it fails, nothing else is
-- written.
pub record Settles (db : Db) (post : PendingPost) (after : Db) (settled : PendingPost)
    : Type 0 where
  pub final : is_final settled.status ≡ true
  pub uid : settled.uid ≡ post.uid
  pub posts : after.posts ≡ db.posts
  pub unchanged : settled.status ≡ PostStatus.failed → after ≡ db

-- Every time that a decision writes out is a time in the years 1 to 9999 once it is in UTC, in
-- whatever zone the start of an occurrence is taken.
pub record DatesFit (p : Platform) (decision : Decision) : Type 0 where
  pub occurrence : (tz : Option Text) → is_ok (parse_dt p decision.recurrence_id tz) ≡ true
  pub event :
      (f : EventFields)
      → decision.event ≡ some f
      → (is_ok (parse_dt p f.start_at f.timezone) ≡ true)
        × (is_ok (parse_dt p f.end_at f.timezone) ≡ true)
  pub series :
      (rec : RecurrenceFields)
      → decision.recurrence ≡ some rec
      → is_ok (parse_dt p rec.start_at rec.timezone) ≡ true

ok_of : {T : Type 0} (r : Result T) → is_ok r ≡ true → (t : T) × (r ≡ ok t)
ok_of (err e) h = cc
ok_of (ok t) h = (t, refl)

-- The same of the rows of the events.
record SettlesEvents (events : List Event) (post : PendingPost) (out : List Event × PendingPost)
    : Type 0 where
  final : is_final out.1.status ≡ true
  uid : out.1.uid ≡ post.uid
  unchanged : out.1.status ≡ PostStatus.failed → out.0 ≡ events

abbrev Yields : List Event → PendingPost → Result (List Event × PendingPost) → Type 0
Yields events post r =
    (out : List Event × PendingPost) × (r ≡ ok out) × SettlesEvents events post out

-- The times of an event's fields fit.
abbrev FieldsFit : Platform → EventFields → Type 0
FieldsFit p f =
    (is_ok (parse_dt p f.start_at f.timezone) ≡ true)
    × (is_ok (parse_dt p f.end_at f.timezone) ≡ true)

module _ (p : Platform) (intake : IntakeSettings) (clock_now utcnow : Instant) where
  scraped_fits :
      (post : PendingPost) (f : EventFields) (categories : List Text) (uid : Option Text)
      (rid : Option Instant)
      → FieldsFit p f
      → (e : ScrapedEvent) × (scraped_of p post f categories uid rid ≡ ok e)
  unfolding scraped_of
  scraped_fits post f categories uid rid fit =
      let (start, s) = ok_of (parse_dt p f.start_at f.timezone) fit.0 in
      let (end, t) = ok_of (parse_dt p f.end_at f.timezone) fit.1 in rw (s, t) (_, refl)

  fill_in_settles :
      (post : PendingPost) (name : Text) (f : EventFields) (categories : List Text) (master : Event)
      (rid : Instant) (events : List Event)
      → FieldsFit p f
      → Yields events post
          (fill_in p intake clock_now utcnow post name f categories master rid events)
  unfolding fill_in
  fill_in_settles post name f categories master rid events fit =
      let (e, s) = scraped_fits post f categories master.uid (some rid) fit in
      elim (Bool-cases (is_occurrence p master rid)) [
        | inl occurs ↦
            rw (occurs, s) (_, refl, record { final = refl; uid = refl; unchanged = λ h. cc })
        | inr not_one ↦
            rw not_one (_, refl, record { final = refl; uid = refl; unchanged = λ h. refl })
      ]

  modify_event_settles :
      (post : PendingPost) (name : Text) (f : EventFields) (categories : List Text) (old : Event)
      (events : List Event)
      → FieldsFit p f
      → Yields events post
          (modify_event p intake clock_now utcnow post name f categories old events)
  unfolding modify_event
  modify_event_settles post name f categories old events fit =
      let (e, s) = scraped_fits post f categories old.uid none fit in
      elim (Bool-cases (is_some old.rrule)) [
        | inl series ↦
            rw series (_, refl, record { final = refl; uid = refl; unchanged = λ h. refl })
        | inr single ↦
            rw (single, s) (_, refl, record { final = refl; uid = refl; unchanged = λ h. cc })
      ]

  create_event_settles :
      (post : PendingPost) (name : Text) (f : EventFields) (categories : List Text)
      (events : List Event)
      → FieldsFit p f
      → Yields events post (create_event p intake clock_now utcnow post name f categories events)
  unfolding create_event
  create_event_settles post name f categories events fit =
      let (e, s) = scraped_fits post f categories (some post.uid) none fit in
      rw s (_, refl, record { final = refl; uid = refl; unchanged = λ h. cc })

  create_or_modify_settles :
      (post : PendingPost) (name : Text) (f : EventFields) (categories : List Text)
      (action : Action) (found : Option Event) (rid : Option Instant) (events : List Event)
      → FieldsFit p f
      → Yields events post (
          create_or_modify p intake clock_now utcnow post name f categories action found rid events)
  unfolding create_or_modify
  create_or_modify_settles post name f categories action (some master) (some rid) events fit =
      fill_in_settles post name f categories master rid events fit
  create_or_modify_settles post name f categories modify (some old) none events fit =
      modify_event_settles post name f categories old events fit
  create_or_modify_settles post name f categories action found rid events fit =
      create_event_settles post name f categories events fit

  delete_found_settles :
      (post : PendingPost) (e : Event) (rid : Option Instant) (events : List Event)
      → SettlesEvents events post (delete_found p intake clock_now utcnow post e rid events)
  unfolding delete_found
  delete_found_settles post e none events = ground arith
  delete_found_settles post e (some rid) events = ground arith

  delete_matched_settles :
      (post : PendingPost) (decision : Decision) (found : Option Event) (events : List Event)
      → DatesFit p decision
      → Yields events post (delete_matched p intake clock_now utcnow post decision found events)
  unfolding delete_matched
  delete_matched_settles post decision none events fit =
      (_, refl, record { final = refl; uid = refl; unchanged = λ h. refl })
  delete_matched_settles post decision (some e) events fit =
      let (rid, s) =
        ok_of (parse_dt p decision.recurrence_id e.timezone) (fit.occurrence e.timezone) in
      rw s (_, refl, delete_found_settles post e rid events)

-- What a call of the apply family returns, and that it settles the post.
abbrev Returns : Db → PendingPost → Result (Db × PendingPost) → Type 0
Returns db post result =
    (after : Db) × (settled : PendingPost) × (result ≡ ok (after, settled))
    × Settles db post after settled

module _ (p : Platform) (intake : IntakeSettings) (proposals : Proposals) (uuid : Text)
    (clock_now utcnow : Instant) (post : PendingPost) (db : Db)
    (fresh : approval_row uuid db ≡ none) where
  refused-Returns : (message : Text) → Returns db post (ok (db, failed_with message post))
  refused-Returns message =
      (_, _, refl, record { final = refl; uid = refl; posts = refl; unchanged = λ e. refl })

  propose-Returns :
      (kind name payload reason : Text)
      → Returns db post (propose p proposals uuid utcnow kind name payload reason post db)
  unfolding propose create_in_session
  propose-Returns kind name payload reason =
      rw
        (add_row-is_ok approval_key (proposal uuid utcnow kind name payload reason) db.approvals
          fresh)
        (_, _, refl, record { final = refl; uid = refl; posts = refl; unchanged = λ e. cc })

  propose_add-Returns :
      (name : Text) (rec : RecurrenceFields) (reason : Text) (problem : Option Text)
      → Returns db post (propose_add p proposals uuid utcnow name rec reason problem post db)
  unfolding propose_add
  propose_add-Returns name rec reason none = propose-Returns _ name _ reason
  propose_add-Returns name rec reason (some message) = refused-Returns message

  add_error_fits :
      (rec : RecurrenceFields)
      → is_ok (parse_dt p rec.start_at rec.timezone) ≡ true
      → (problem : Option Text) × (add_error p proposals uuid utcnow rec ≡ ok problem)
  unfolding add_error
  add_error_fits rec fit =
      let (start, s) = ok_of (parse_dt p rec.start_at rec.timezone) fit in
      ok_of _ (ground (arith, s))

  propose_series-Returns :
      (name : Text) (rec : RecurrenceFields) (decision : Decision)
      → is_ok (parse_dt p rec.start_at rec.timezone) ≡ true
      → Returns db post (propose_series p proposals uuid utcnow name rec decision post db)
  unfolding propose_series
  propose_series-Returns name rec decision fit = elim (Bool-cases (p.is_blank rec.title)) [
    | inl blank ↦ rw blank (refused-Returns _)
    | inr titled ↦ rw titled (elim (Bool-cases (is_adding decision.action)) [
      | inl adding ↦
          let (problem, s) = add_error_fits rec fit in
          rw (adding, s) (propose_add-Returns name rec decision.reason problem)
      | inr removing ↦ rw removing (propose-Returns _ name _ decision.reason)
    ])
  ]

  apply_recurrence-Returns :
      (name : Text) (decision : Decision) (rec : Option RecurrenceFields)
      → ((r : RecurrenceFields) → rec ≡ some r → is_ok (parse_dt p r.start_at r.timezone) ≡ true)
      → Returns db post (apply_recurrence p proposals uuid utcnow name decision rec post db)
  unfolding apply_recurrence
  apply_recurrence-Returns name decision none fit = refused-Returns _
  apply_recurrence-Returns name decision (some rec) fit =
      propose_series-Returns name rec decision (fit rec refl)

  with_events-Returns :
      (r : Result (List Event × PendingPost))
      → Yields db.events post r
      → Returns db post (with_events p intake proposals uuid clock_now utcnow db r)
  with_events-Returns r (out, s, h) = rw s (
    _,
    _,
    refl,
    record {
      final = h.final;
      uid = h.uid;
      posts = refl;
      unchanged = λ e. ap (λ l. record db { events = l }) (h.unchanged e);
    },
  )

  apply_event-Returns :
      (decision : Decision) (f : Option EventFields)
      → DatesFit p decision
      → ((g : EventFields) → f ≡ some g → FieldsFit p g)
      → Returns db post (apply_event p intake proposals uuid clock_now utcnow f decision post db)
  unfolding apply_event
  apply_event-Returns decision none fit fields = refused-Returns _
  apply_event-Returns decision (some f) fit fields =
      let (rid, s) =
        ok_of (parse_dt p decision.recurrence_id f.timezone) (fit.occurrence f.timezone) in
      with_events-Returns _ (
        unfold apply_create_modify in
        rw s (
          create_or_modify_settles p intake clock_now utcnow post _ f _ decision.action _ rid
            db.events (fields f refl)))

  apply_action-Returns :
      (action : Action) (decision : Decision)
      → DatesFit p decision
      → Returns db post
          (apply_action p intake proposals uuid clock_now utcnow action decision post db)
  unfolding apply_action
  apply_action-Returns ignore decision fit =
      (_, _, refl, record { final = refl; uid = refl; posts = refl; unchanged = λ e. cc })
  apply_action-Returns add_recurrence decision fit =
      apply_recurrence-Returns _ decision decision.recurrence fit.series
  apply_action-Returns remove_recurrence decision fit =
      apply_recurrence-Returns _ decision decision.recurrence fit.series
  apply_action-Returns delete decision fit = with_events-Returns _ (
      unfold apply_delete in
      delete_matched_settles p intake clock_now utcnow post decision _ db.events fit)
  apply_action-Returns create decision fit =
      apply_event-Returns decision decision.event fit fit.event
  apply_action-Returns modify decision fit =
      apply_event-Returns decision decision.event fit fit.event

  -- If the id drawn for a proposal is free, and every time of the decision lies in the years 1 to
  -- 9999 in UTC, applying it returns, whatever the decision: the post is in a final status, with the
  -- time it was processed and its uid, no row of a post is written on the way, and where the post is
  -- marked failed, nothing at all is.
  pub apply_decision-Settles :
      (decision : Decision)
      → DatesFit p decision
      → (after : Db) × (settled : PendingPost) × (apply_decision p intake proposals uuid clock_now
            utcnow post decision db
          ≡ ok (after, settled))
        × (settled.processed_at ≡ some utcnow)
        × Settles db post after settled
  unfolding apply_decision
  apply_decision-Settles decision fit =
      let (after, s, e, h) = apply_action-Returns decision.action decision fit in
      (
        after,
        record s { processed_at = some utcnow; updated_at = utcnow },
        rw e refl,
        refl,
        record { final = h.final; uid = h.uid; posts = h.posts; unchanged = h.unchanged },
      )
