-- ===== src/Overseer/Redirects.antt =====
-- What a merge writes.
use mathlib.Core.Option
use ripcale_backend.Prelude.{
  Option, false, ◌≡◌, ◌≢◌, refl, ap, sym, ◌∙◌, Bool, true, false, List, [], ◌∷◌, ◌++◌, some, Text,
  codes, ◌==◌, ==_iff, ==_refl, nat_eq, list_eq, option_eq, if◌then◌else◌, any, arith, Bool-cases,
  inl, inr,
}
use ripcale_backend.Result.{ok}
use ripcale_backend.Schema.{Instant}
use ripcale_backend.Models.{Event, Approval, Db, event_key, event_row}
use ripcale_backend.Table.{get_row-modify_row, modify_row, add_row}
use ripcale_backend.Events.{Edit, set_field, set_fields, edited, update_event}
use ripcale_backend.Approvals.{proposal, create_in_session}
use ripcale_backend.Overseer.{
  World, Merge, missing, enrich_edits, fields_of, enriched, merge_rows, apply_event_merge, proposes,
  propose_merge,
}

set_fields-append :
    (fs gs : List Edit) (e : Event) → set_fields (fs ++ gs) e ≡ set_fields gs (set_fields fs e)
unfolding set_fields
set_fields-append [] gs e = refl
set_fields-append (f ∷ fs) gs e = set_fields-append fs gs (set_field f e)

module _ (w : World) where
  -- The value of a key behind the items of a proposal: the last that has the key, or else the old.
  abbrev pub offered : Text → Option Text → List (Text × Text) → Option Text
  offered key old [] = old
  offered key old (item ∷ items) = offered key (if item.0 == key then some item.1 else old) items

  abbrev pub offered_text : Text → Text → List (Text × Text) → Text
  offered_text key old [] = old
  offered_text key old (item ∷ items) =
      offered_text key (if item.0 == key then item.1 else old) items

  -- From a row to the row behind an enrichment that is made for the winner: a field in which the
  -- winner has something is as it was, one in which it has nothing has what the proposal offers, and
  -- every other column but the pin, the hash and the time of the update is as it was.
  pub record Enriches (winner : Event) (enrich : List (Text × Text)) (before after : Event)
      : Type 0 where
    pub title : after.title ≡ (
        if w.platform.is_blank winner.title
        then offered_text (codes "title") before.title enrich
        else before.title)
    pub description : after.description ≡ (
        if missing w winner.description
        then offered (codes "description") before.description enrich
        else before.description)
    pub location : after.location ≡ (
        if missing w winner.location
        then offered (codes "location") before.location enrich
        else before.location)
    pub url :
        after.url
        ≡ (if missing w winner.url then offered (codes "url") before.url enrich else before.url)
    pub timezone : after.timezone ≡ (
        if missing w winner.timezone
        then offered (codes "timezone") before.timezone enrich
        else before.timezone)
    pub id : after.id ≡ before.id
    pub source_id : after.source_id ≡ before.source_id
    pub uid : after.uid ≡ before.uid
    pub images : after.images ≡ before.images
    pub start_at : after.start_at ≡ before.start_at
    pub end_at : after.end_at ≡ before.end_at
    pub all_day : after.all_day ≡ before.all_day
    pub rrule : after.rrule ≡ before.rrule
    pub categories : after.categories ≡ before.categories
    pub archived_at : after.archived_at ≡ before.archived_at
    pub redirect : after.redirect_to_id ≡ before.redirect_to_id
    pub recurrence_id : after.recurrence_id ≡ before.recurrence_id
    pub exdates : after.exdates ≡ before.exdates
    pub geo : after.geo ≡ before.geo
    pub priority : after.priority ≡ before.priority
    pub last_seen_at : after.last_seen_at ≡ before.last_seen_at
    pub archived_reason : after.archived_reason ≡ before.archived_reason
    pub placeholder : after.placeholder ≡ before.placeholder
    pub created_at : after.created_at ≡ before.created_at

  one-Enriches :
      (winner e : Event) (key value : Text)
      → Enriches winner ((key, value) ∷ []) e (set_fields (enrich_edits w winner key value) e)
  unfolding enrich_edits set_fields set_field
  one-Enriches winner e key value = ground (
    arith,
    ==_iff key (codes "title"),
    ==_iff key (codes "description"),
    ==_iff key (codes "location"),
    ==_iff key (codes "url"),
    ==_iff key (codes "timezone"),
  )

  offered_first :
      (b : Bool) (key : Text) (old now : Option Text) (item : Text × Text)
      (items : List (Text × Text)) (end : Option Text)
      → now ≡ (if b then offered key old (item ∷ []) else old)
      → end ≡ (if b then offered key now items else now)
      → end ≡ (if b then offered key old (item ∷ items) else old)
  offered_first true key old now item items end h k = k ∙ ap (λ o. offered key o items) h
  offered_first false key old now item items end h k = k ∙ h

  offered_text_first :
      (b : Bool) (key old now : Text) (item : Text × Text) (items : List (Text × Text)) (end : Text)
      → now ≡ (if b then offered_text key old (item ∷ []) else old)
      → end ≡ (if b then offered_text key now items else now)
      → end ≡ (if b then offered_text key old (item ∷ items) else old)
  offered_text_first true key old now item items end h k = k ∙ ap (λ o. offered_text key o items) h
  offered_text_first false key old now item items end h k = k ∙ h

  Enriches-first :
      (winner a b c : Event) (item : Text × Text) (items : List (Text × Text))
      → Enriches winner (item ∷ []) a b
      → Enriches winner items b c
      → Enriches winner (item ∷ items) a c
  Enriches-first winner a b c item items h k = record {
    title =
        offered_text_first (w.platform.is_blank winner.title) (codes "title") a.title b.title item
          items c.title h.title k.title;
    description =
        offered_first (missing w winner.description) (codes "description") a.description
          b.description item items c.description h.description k.description;
    location =
        offered_first (missing w winner.location) (codes "location") a.location b.location item
          items c.location h.location k.location;
    url =
        offered_first (missing w winner.url) (codes "url") a.url b.url item items c.url h.url k.url;
    timezone =
        offered_first (missing w winner.timezone) (codes "timezone") a.timezone b.timezone item
          items c.timezone h.timezone k.timezone;
    id = k.id ∙ h.id;
    source_id = k.source_id ∙ h.source_id;
    uid = k.uid ∙ h.uid;
    images = k.images ∙ h.images;
    start_at = k.start_at ∙ h.start_at;
    end_at = k.end_at ∙ h.end_at;
    all_day = k.all_day ∙ h.all_day;
    rrule = k.rrule ∙ h.rrule;
    categories = k.categories ∙ h.categories;
    archived_at = k.archived_at ∙ h.archived_at;
    redirect = k.redirect ∙ h.redirect;
    recurrence_id = k.recurrence_id ∙ h.recurrence_id;
    exdates = k.exdates ∙ h.exdates;
    geo = k.geo ∙ h.geo;
    priority = k.priority ∙ h.priority;
    last_seen_at = k.last_seen_at ∙ h.last_seen_at;
    archived_reason = k.archived_reason ∙ h.archived_reason;
    placeholder = k.placeholder ∙ h.placeholder;
    created_at = k.created_at ∙ h.created_at;
  }

  none-Enriches : (winner e : Event) → Enriches winner [] e e
  none-Enriches winner e = ground arith

  fields_enrich :
      (winner : Event) (enrich : List (Text × Text)) (e : Event)
      → Enriches winner enrich e (set_fields (fields_of w winner enrich) e)
  unfolding fields_of set_fields
  fields_enrich winner [] e = none-Enriches winner e
  fields_enrich winner ((key, value) ∷ enrich) e =
      rw (set_fields-append (enrich_edits w winner key value) (fields_of w winner enrich) e) (
        Enriches-first winner e _ _ (key, value) enrich (one-Enriches winner e key value)
          (fields_enrich winner enrich (set_fields (enrich_edits w winner key value) e)))

  -- The winner's row behind the enrichment.
  abbrev enriched_row : Instant → List Edit → Event → Event
  enriched_row utcnow [] e = record e { pinned = true; updated_at = utcnow }
  enriched_row utcnow (f ∷ fields) e = edited w.platform utcnow (f ∷ fields) true e

  enriched_rows :
      (utcnow : Instant) (id : Text) (fields : List Edit) (db : Db)
      → enriched w utcnow id fields db
        ≡ record db { events = modify_row event_key id (enriched_row utcnow fields) db.events }
  unfolding enriched update_event
  enriched_rows utcnow id [] db = refl
  enriched_rows utcnow id (f ∷ fields) db = refl

  enriched_row-Enriches :
      (utcnow : Instant) (winner e : Event) (enrich : List (Text × Text)) (fields : List Edit)
      → Enriches winner enrich e (set_fields fields e)
      → Enriches winner enrich e (enriched_row utcnow fields e)
        × ((enriched_row utcnow fields e).pinned ≡ true)
  unfolding edited set_fields
  enriched_row-Enriches utcnow winner e enrich [] h = (
    record {
      title = h.title;
      description = h.description;
      location = h.location;
      url = h.url;
      timezone = h.timezone;
      id = h.id;
      source_id = h.source_id;
      uid = h.uid;
      images = h.images;
      start_at = h.start_at;
      end_at = h.end_at;
      all_day = h.all_day;
      rrule = h.rrule;
      categories = h.categories;
      archived_at = h.archived_at;
      redirect = h.redirect;
      recurrence_id = h.recurrence_id;
      exdates = h.exdates;
      geo = h.geo;
      priority = h.priority;
      last_seen_at = h.last_seen_at;
      archived_reason = h.archived_reason;
      placeholder = h.placeholder;
      created_at = h.created_at;
    },
    refl,
  )
  enriched_row-Enriches utcnow winner e enrich (f ∷ fields) h = (
    record {
      title = h.title;
      description = h.description;
      location = h.location;
      url = h.url;
      timezone = h.timezone;
      id = h.id;
      source_id = h.source_id;
      uid = h.uid;
      images = h.images;
      start_at = h.start_at;
      end_at = h.end_at;
      all_day = h.all_day;
      rrule = h.rrule;
      categories = h.categories;
      archived_at = h.archived_at;
      redirect = h.redirect;
      recurrence_id = h.recurrence_id;
      exdates = h.exdates;
      geo = h.geo;
      priority = h.priority;
      last_seen_at = h.last_seen_at;
      archived_reason = h.archived_reason;
      placeholder = h.placeholder;
      created_at = h.created_at;
    },
    refl,
  )

  -- The rows of a merge are there, under different ids, and the proposal names them.
  pub record IsMergeOf (db : Db) (winner loser : Event) (approval : Approval) (m : Merge)
      : Type 0 where
    pub payload : w.loads_merge approval.payload ≡ some m
    pub canonical : m.canonical_id ≡ some winner.id
    pub other : m.loser_id ≡ some loser.id
    pub winner_row : event_row winner.id db.events ≡ some winner
    pub loser_row : event_row loser.id db.events ≡ some loser
    pub distinct : winner.id ≢ loser.id

  merge_applied :
      (utcnow : Instant) (db : Db) (winner loser : Event) (approval : Approval) (m : Merge)
      → IsMergeOf db winner loser approval m
      → apply_event_merge w utcnow approval db
        ≡ merge_rows w utcnow (some winner) (some loser) m.enrich db
  unfolding apply_event_merge
  merge_applied utcnow db winner loser approval m h =
      ground (arith, h.payload, h.canonical, h.other, h.winner_row, h.loser_row)

  abbrev redirected : Instant → Event → Event → Event
  redirected utcnow winner e = record e { redirect_to_id = some winner.id; updated_at = utcnow }

  -- The table behind both writes.
  abbrev merged : Instant → Event → Event → List Edit → List Event → List Event
  merged utcnow winner loser fields events =
      modify_row event_key loser.id (redirected utcnow winner)
        (modify_row event_key winner.id (enriched_row utcnow fields) events)

  row_of_merged :
      (utcnow : Instant) (winner loser : Event) (fields : List Edit) (events : List Event)
      (j : Text)
      → ((e : Event) → (enriched_row utcnow fields e).id ≡ e.id)
      → event_row j (merged utcnow winner loser fields events) ≡ (
          if loser.id == j
          then Option.map
              (redirected utcnow winner)
              (event_row j (modify_row event_key winner.id (enriched_row utcnow fields) events))
          else (if winner.id == j
              then Option.map (enriched_row utcnow fields) (event_row j events)
              else event_row j events))
  row_of_merged utcnow winner loser fields events j same = ground (
    arith,
    get_row-modify_row event_key loser.id j (redirected utcnow winner)
        (modify_row event_key winner.id (enriched_row utcnow fields) events) (λ e. refl),
    get_row-modify_row event_key winner.id j (enriched_row utcnow fields) events same,
  )

  -- Approving a merge pins the winner, fills in each field in which it has nothing and for which the
  -- proposal has a value, with the last of these, leaves its other columns but its hash and the time
  -- of its update as they were, redirects the loser to the winner and changes nothing else of the
  -- loser but the time of its update, and leaves every other event as it was.
  pub merge_outcome :
      (utcnow : Instant) (db : Db) (winner loser : Event) (approval : Approval) (m : Merge)
      → IsMergeOf db winner loser approval m
      → (after : Db) × (now : Event) × (apply_event_merge w utcnow approval db ≡ ok after)
        × (event_row winner.id after.events ≡ some now)
        × Enriches winner m.enrich winner now
        × (now.pinned ≡ true)
        × (event_row loser.id after.events
            ≡ some (record loser { redirect_to_id = some winner.id; updated_at = utcnow }))
        × ((j : Text)
            → j ≢ winner.id
            → j ≢ loser.id
            → event_row j after.events ≡ event_row j db.events)
  unfolding merge_rows
  merge_outcome utcnow db winner loser approval m h =
      let fields = fields_of w winner m.enrich in
      let rows = merged utcnow winner loser fields db.events in
      let enriches : (e : Event)
          → Enriches winner m.enrich e (enriched_row utcnow fields e)
            × ((enriched_row utcnow fields e).pinned ≡ true) =
        λ e.
          enriched_row-Enriches utcnow winner e m.enrich fields (fields_enrich winner m.enrich e) in
      let row = λ (j : Text).
        row_of_merged utcnow winner loser fields db.events j (λ e. (enriches e).0.id) in
      let ne : (loser.id == winner.id) ≡ false =
        ground (arith, ==_iff loser.id winner.id, h.distinct) in
      let en : (winner.id == loser.id) ≡ false =
        ground (arith, ==_iff winner.id loser.id, h.distinct) in
      (
        record db { events = rows },
        enriched_row utcnow fields winner,
        merge_applied utcnow db winner loser approval m h
            ∙ ap
                (λ (d : Db). ok (record d {
                  events = modify_row event_key loser.id (redirected utcnow winner) d.events;
                }))
                (enriched_rows utcnow winner.id fields db),
        row winner.id ∙ ground (arith, ne, ==_refl winner.id, h.winner_row),
        (enriches winner).0,
        (enriches winner).1,
        row loser.id
            ∙ ground (
              arith,
              ==_refl loser.id,
              en,
              h.loser_row,
              get_row-modify_row event_key winner.id loser.id (enriched_row utcnow fields) db.events
                  (λ e. (enriches e).0.id),
            ),
        λ j a b. row j ∙ ground (arith, ==_iff loser.id j, ==_iff winner.id j),
      )

  -- Two proposals for one pair that name each a different winner can both be approved: then each of
  -- the two events is redirected to the other.
  pub merges_both_ways :
      (utcnow later : Instant) (db : Db) (a b : Event) (first second : Approval) (m n : Merge)
      → IsMergeOf db a b first m
      → w.loads_merge second.payload ≡ some n
      → n.canonical_id ≡ some b.id
      → n.loser_id ≡ some a.id
      → (once : Db) × (twice : Db) × (apply_event_merge w utcnow first db ≡ ok once)
        × (apply_event_merge w later second once ≡ ok twice)
        × (Option.map (λ (e : Event). e.redirect_to_id) (event_row a.id twice.events)
            ≡ some (some b.id))
        × (Option.map (λ (e : Event). e.redirect_to_id) (event_row b.id twice.events)
            ≡ some (some a.id))
  merges_both_ways utcnow later db a b first second m n h payload canonical other =
      let (once, now, e, row, enr, pin, gone, rest) = merge_outcome utcnow db a b first m h in
      let loser = record b { redirect_to_id = some a.id; updated_at = utcnow } in
      let (twice, now2, e2, row2, enr2, pin2, gone2, rest2) =
        merge_outcome later once loser now second n (record {
          payload = payload;
          canonical = canonical;
          other = other ∙ ap some (sym enr.id);
          winner_row = gone;
          loser_row = ap (λ i. event_row i once.events) enr.id ∙ row;
          distinct = λ same. h.distinct (sym (same ∙ enr.id));
        }) in
      (
        once,
        twice,
        e,
        e2,
        ap (Option.map (λ (x : Event). x.redirect_to_id))
            (ap (λ i. event_row i twice.events) (sym enr.id) ∙ gone2),
        ap (Option.map (λ (x : Event). x.redirect_to_id)) row2 ∙ ap some enr2.redirect,
      )

  any-append :
      (test : Approval → Bool) (rows : List Approval) (r : Approval)
      → test r ≡ true
      → any test (rows ++ r ∷ []) ≡ true
  unfolding any
  any-append test [] r h = ground arith
  any-append test (x ∷ rows) r h = ground (arith, any-append test rows r h)

  abbrev merge_of : Event → Event → List (Text × Text) → Merge
  merge_of winner loser enrich = record {
    canonical_id = some winner.id;
    loser_id = some loser.id;
    enrich = enrich;
  }

  refused_where_proposed :
      (uuid : Text) (utcnow : Instant) (winner loser : Event) (enrich : List (Text × Text))
      (reason : Text) (db : Db)
      → any (proposes w winner.id loser.id) db.approvals ≡ true
      → propose_merge w uuid utcnow winner loser enrich reason db ≡ ok (db, false)
  unfolding propose_merge
  refused_where_proposed uuid utcnow winner loser enrich reason db h = rw h refl

  proposes_own :
      (uuid : Text) (utcnow : Instant) (winner loser : Event) (enrich : List (Text × Text))
      (reason : Text)
      → let m = merge_of winner loser enrich in
        w.loads_merge (w.dumps_merge m) ≡ some m
        → proposes w winner.id loser.id
            (proposal uuid utcnow (codes "event_merge") [] (w.dumps_merge m) reason)
          ≡ true
  unfolding proposes
  proposes_own uuid utcnow winner loser enrich reason h =
      rw h (ground (arith, ==_refl (codes "event_merge"), ==_refl winner.id, ==_refl loser.id))

  proposes_new :
      (uuid : Text) (utcnow : Instant) (winner loser : Event) (enrich : List (Text × Text))
      (reason : Text) (db after : Db) (made : Bool)
      → any (proposes w winner.id loser.id) db.approvals ≡ false
      → propose_merge w uuid utcnow winner loser enrich reason db ≡ ok (after, made)
      → after.approvals
        ≡ db.approvals
          ++ proposal uuid utcnow
              (codes "event_merge")
              []
              (w.dumps_merge (merge_of winner loser enrich))
              reason
            ∷ []
  unfolding propose_merge create_in_session add_row
  proposes_new uuid utcnow winner loser enrich reason db after made new h = ground arith

  -- A merge is proposed once: after a proposal that returned, made or not, the same winner and loser
  -- are not proposed again, and nothing is written, as long as none of the proposals is resolved,
  -- where JSON reads back what it wrote.
  pub propose_once :
      (uuid next : Text) (utcnow later : Instant) (winner loser : Event)
      (enrich more : List (Text × Text)) (reason why : Text) (db after : Db) (made : Bool)
      → ((m : Merge) → w.loads_merge (w.dumps_merge m) ≡ some m)
      → propose_merge w uuid utcnow winner loser enrich reason db ≡ ok (after, made)
      → propose_merge w next later winner loser more why after ≡ ok (after, false)
  unfolding propose_merge create_in_session
  propose_once uuid next utcnow later winner loser enrich more reason why db after made back h =
      elim (Bool-cases (any (proposes w winner.id loser.id) db.approvals)) [
        | inl there ↦ ground arith
        | inr new ↦
            let m = merge_of winner loser enrich in
            let row = proposal uuid utcnow (codes "event_merge") [] (w.dumps_merge m) reason in
            let made_row : after.approvals ≡ db.approvals ++ row ∷ [] =
              proposes_new uuid utcnow winner loser enrich reason db after made new h in
            refused_where_proposed next later winner loser more why after (
              ap (any (proposes w winner.id loser.id)) made_row
              ∙ any-append (proposes w winner.id loser.id) db.approvals row
                  (proposes_own uuid utcnow winner loser enrich reason (back m)))
      ]
