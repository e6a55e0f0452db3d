-- ===== src/Llm/Frame.antt =====
-- Which events a decision writes.
use ripcale_backend.Prelude.{
  Bool-cases, inl, inr, is_some, ◌≡◌, ◌≢◌, refl, ◌∙◌, List, ◌++◌, Option, none, some, Text, codes,
  arith, ==_iff, nat_eq, list_eq,
}
use mathlib.Core.Path.{subst}
use ripcale_backend.Result.{Result, ok, err, ◌>>=◌, >>=-eq-ok}
use ripcale_backend.Schema.{Instant, ScrapedEvent}
use ripcale_backend.Settings.{IntakeSettings}
use ripcale_backend.Platform.{Platform}
use ripcale_backend.Models.{Event, PendingPost, Db, event_key, event_row}
use ripcale_backend.Table.{get_row-append, get_row-modify_row, modify_row}
use ripcale_backend.Identity.{stable_id}
use ripcale_backend.Categories.{normalize_proposed}
use ripcale_backend.Approvals.{create_in_session}
use ripcale_backend.Llm.{
  EventFields, RecurrenceFields, Action, Decision, create, modify, delete, ignore, add_recurrence,
  remove_recurrence, parse_dt, scraped_of, is_occurrence, event_from_scraped, overwrite,
}
use ripcale_backend.Llm.Apply.{
  Proposals, upsert, upserted, fill_in, modify_event, create_event, create_or_modify,
  apply_create_modify, delete_found, delete_matched, apply_delete, propose, propose_add,
  propose_series, add_error, source_name, source_of, default_names, matched, with_exdate, cancelled,
  failed_with, apply_recurrence, with_events, is_adding, apply_event, apply_action, apply_decision,
}

-- Every event but the one that the post is matched with is as it was.
unfoldable pub Frames : List Event → List Event × PendingPost → Type 0
Frames events out =
    (j : Text) → out.1.match_event_id ≢ some j → event_row j out.0 ≡ event_row j events

ok-eq : {T : Type 0} {x y : T} → ok x ≡ ok y → x ≡ y
ok-eq h = cc

-- What a call yields, if it returns, frames the events.
abbrev FramesAll : List Event → Result (List Event × PendingPost) → Type 0
FramesAll events r = (out : List Event × PendingPost) → r ≡ ok out → Frames events out

modify_row_frames :
    (id j : Text) (f : Event → Event) (events : List Event)
    → ((e : Event) → (f e).id ≡ e.id)
    → some id ≢ some j
    → event_row j (modify_row event_key id f events) ≡ event_row j events
modify_row_frames id j f events keeps other =
    get_row-modify_row event_key id j f events keeps ∙ ground (arith, ==_iff id j)

module _ (p : Platform) (intake : IntakeSettings) (clock_now utcnow : Instant) where
  module _ (post : PendingPost) (name : Text) where
    upserted_frames :
        (e : ScrapedEvent) (categories : List Text) (old : Option Event) (events : List Event)
        (j : Text)
        → some (stable_id p name e) ≢ some j
        → event_row j (
            upserted p intake clock_now utcnow post name e categories
              (stable_id p name e)
              old
              events)
          ≡ event_row j events
    upserted_frames e categories none events j other =
        get_row-append event_key j events
          (event_from_scraped p clock_now utcnow post name e categories)
        ∙ unfold event_from_scraped in ground (arith, ==_iff (stable_id p name e) j)
    upserted_frames e categories (some old) events j other =
        modify_row_frames (stable_id p name e) j (overwrite p clock_now utcnow e categories) events
          (λ x. unfold overwrite in refl) other

    -- What is written of a scraped event that is there, and framed where it is.
    after_scraped :
        (written : Result ScrapedEvent) (events : List Event)
        (put : ScrapedEvent → List Event × PendingPost)
        → ((e : ScrapedEvent) → Frames events (put e))
        → FramesAll events (written >>= λ e. ok (put e))
    after_scraped (err raised) events put framed out h = cc
    after_scraped (ok e) events put framed out h = subst (Frames events) (ok-eq h) (framed e)

    fill_in-Frames :
        (f : EventFields) (categories : List Text) (master : Event) (rid : Instant)
        (events : List Event)
        → FramesAll events
            (fill_in p intake clock_now utcnow post name f categories master rid events)
    unfolding fill_in upsert
    fill_in-Frames f categories master rid events = elim (Bool-cases (is_occurrence p master rid)) [
      | inl occurs ↦ rw occurs (
          after_scraped (scraped_of p post f categories master.uid (some rid)) events _
            (λ e. unfold Frames in λ j other. upserted_frames e categories _ events j other))
      | inr not_one ↦
          rw not_one (λ out h. subst (Frames events) (ok-eq h) (unfold Frames in λ j other. refl))
    ]

    modify_event-Frames :
        (f : EventFields) (categories : List Text) (old : Event) (events : List Event)
        → FramesAll events
            (modify_event p intake clock_now utcnow post name f categories old events)
    unfolding modify_event
    modify_event-Frames f categories old events = elim (Bool-cases (is_some old.rrule)) [
      | inl series ↦
          rw series (λ out h. subst (Frames events) (ok-eq h) (unfold Frames in λ j other. refl))
      | inr single ↦ rw single (
          after_scraped (scraped_of p post f categories old.uid none) events _ (λ e.
            unfold Frames in
            λ j other.
              modify_row_frames old.id j (overwrite p clock_now utcnow e categories) events
                (λ x. unfold overwrite in refl) other))
    ]

    create_event-Frames :
        (f : EventFields) (categories : List Text) (events : List Event)
        → FramesAll events (create_event p intake clock_now utcnow post name f categories events)
    unfolding create_event upsert
    create_event-Frames f categories events =
        after_scraped (scraped_of p post f categories (some post.uid) none) events _
          (λ e. unfold Frames in λ j other. upserted_frames e categories _ events j other)

    create_or_modify-Frames :
        (f : EventFields) (categories : List Text) (action : Action) (found : Option Event)
        (rid : Option Instant) (events : List Event)
        → FramesAll events (
            create_or_modify p intake clock_now utcnow post name f categories action found rid
              events)
    unfolding create_or_modify
    create_or_modify-Frames f categories action (some master) (some rid) events =
        fill_in-Frames f categories master rid events
    create_or_modify-Frames f categories modify (some old) none events =
        modify_event-Frames f categories old events
    create_or_modify-Frames f categories action found rid events =
        create_event-Frames f categories events

  delete_found-Frames :
      (post : PendingPost) (e : Event) (rid : Option Instant) (events : List Event)
      → Frames events (delete_found p intake clock_now utcnow post e rid events)
  unfolding delete_found Frames
  delete_found-Frames post e none events j other =
      modify_row_frames e.id j (cancelled p intake clock_now utcnow) events (λ x. refl) other
  delete_found-Frames post e (some rid) events j other = ground (
    arith,
    modify_row_frames e.id j (with_exdate p intake clock_now utcnow rid) events (λ x. refl),
  )

  delete_matched-Frames :
      (post : PendingPost) (decision : Decision) (found : Option Event) (events : List Event)
      → FramesAll events (delete_matched p intake clock_now utcnow post decision found events)
  unfolding delete_matched
  delete_matched-Frames post decision none events out h =
      subst (Frames events) (ok-eq h) (unfold Frames in λ j other. refl)
  delete_matched-Frames post decision (some e) events out h =
      let (rid, s, k) = >>=-eq-ok (parse_dt p decision.recurrence_id e.timezone) _ h in
      subst (Frames events) (ok-eq k) (delete_found-Frames post e rid events)

module _ (p : Platform) (intake : IntakeSettings) (proposals : Proposals) (uuid : Text)
    (clock_now utcnow : Instant) (post : PendingPost) (db : Db) where
  -- What a call returns, if it returns, frames the events.
  abbrev FramesResult : Result (Db × PendingPost) → Type 0
  FramesResult result =
      (after : Db) (settled : PendingPost)
      → result ≡ ok (after, settled)
      → Frames db.events (after.events, settled)

  refused_frames : (message : Text) → FramesResult (ok (db, failed_with message post))
  unfolding Frames
  refused_frames message after settled h j other = ground arith

  propose_frames :
      (kind name payload reason : Text)
      → FramesResult (propose p proposals uuid utcnow kind name payload reason post db)
  unfolding propose create_in_session Frames
  propose_frames kind name payload reason after settled h j other = ground arith

  propose_add_frames :
      (name : Text) (rec : RecurrenceFields) (reason : Text) (problem : Option Text)
      → FramesResult (propose_add p proposals uuid utcnow name rec reason problem post db)
  unfolding propose_add
  propose_add_frames name rec reason none =
      propose_frames (codes "recurrence_add") name (proposals.dumps_recurrence rec) reason
  propose_add_frames name rec reason (some message) = refused_frames message

  propose_series_frames :
      (name : Text) (rec : RecurrenceFields) (decision : Decision)
      → FramesResult (propose_series p proposals uuid utcnow name rec decision post db)
  unfolding propose_series
  propose_series_frames name rec decision = elim (Bool-cases (p.is_blank rec.title)) [
    | inl blank ↦ rw blank (refused_frames _)
    | inr titled ↦ rw titled (elim (Bool-cases (is_adding decision.action)) [
      | inl adding ↦ rw adding (λ after settled h.
          let (problem, s, k) = >>=-eq-ok (add_error p proposals uuid utcnow rec) _ h in
          propose_add_frames name rec decision.reason problem after settled k)
      | inr removing ↦ rw removing (propose_frames _ name _ decision.reason)
    ])
  ]

  apply_recurrence_frames :
      (name : Text) (decision : Decision) (rec : Option RecurrenceFields)
      → FramesResult (apply_recurrence p proposals uuid utcnow name decision rec post db)
  unfolding apply_recurrence
  apply_recurrence_frames name decision none = refused_frames _
  apply_recurrence_frames name decision (some rec) = propose_series_frames name rec decision

  with_events_frames :
      (r : Result (List Event × PendingPost))
      → FramesAll db.events r
      → FramesResult (with_events p intake proposals uuid clock_now utcnow db r)
  with_events_frames (err raised) framed after settled h = cc
  with_events_frames (ok out) framed after settled h =
      subst (λ (x : Db × PendingPost). Frames db.events (x.0.events, x.1)) (ok-eq h)
        (framed out refl)

  apply_event_frames :
      (decision : Decision) (f : Option EventFields)
      → FramesResult (apply_event p intake proposals uuid clock_now utcnow f decision post db)
  unfolding apply_event
  apply_event_frames decision none = refused_frames _
  apply_event_frames decision (some f) = with_events_frames _ (
      unfold apply_create_modify in
      λ out h.
        let (rid, s, k) = >>=-eq-ok (parse_dt p decision.recurrence_id f.timezone) _ h in
        create_or_modify-Frames p intake clock_now utcnow post (source_name (source_of post db)) f
          (normalize_proposed intake (default_names p (source_of post db) ++ f.categories))
          decision.action (matched decision.match_id db.events) rid db.events out k)

  apply_action_frames :
      (action : Action) (decision : Decision)
      → FramesResult (apply_action p intake proposals uuid clock_now utcnow action decision post db)
  unfolding apply_action
  apply_action_frames ignore decision = λ after settled h. unfold Frames in λ j other. ground arith
  apply_action_frames add_recurrence decision =
      apply_recurrence_frames _ decision decision.recurrence
  apply_action_frames remove_recurrence decision =
      apply_recurrence_frames _ decision decision.recurrence
  apply_action_frames delete decision = with_events_frames _ (
      unfold apply_delete in
      delete_matched-Frames p intake clock_now utcnow post decision
        (matched decision.match_id db.events) db.events)
  apply_action_frames create decision = apply_event_frames decision decision.event
  apply_action_frames modify decision = apply_event_frames decision decision.event

  -- Where applying a decision returns, every event is as it was, but for the one that the post is
  -- marked as matched with.
  pub apply_decision_frames :
      (decision : Decision) (after : Db) (settled : PendingPost) (j : Text)
      → apply_decision p intake proposals uuid clock_now utcnow post decision db
        ≡ ok (after, settled)
      → settled.match_event_id ≢ some j
      → event_row j after.events ≡ event_row j db.events
  unfolding apply_decision
  apply_decision_frames decision after settled j h other =
      let (t, e, k) =
        >>=-eq-ok
          (apply_action p intake proposals uuid clock_now utcnow decision.action decision post db) _
          h in
      let framed : t.1.match_event_id ≢ some j → event_row j t.0.events ≡ event_row j db.events =
        unfold Frames in apply_action_frames decision.action decision t.0 t.1 e j in
      ground arith
