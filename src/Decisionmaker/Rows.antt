-- ===== src/Decisionmaker/Rows.antt =====
-- What each loop of `apply` does to the row with a given id.
use ripcale_backend.Prelude.{
  ℕ, ◌≡◌, refl, ◌∙◌, false, List, [], ◌∷◌, Option, none, some, Text, ◌==◌, ==_iff, nat_eq, list_eq,
  if◌then◌else◌, contains, arith,
}
use ripcale_backend.Result.{ok, >>=-eq-ok}
use ripcale_backend.Schema.{Instant, ClassifiedEvent}
use ripcale_backend.Platform.{Platform}
use ripcale_backend.Models.{Event, event_key, EventConflict}
use ripcale_backend.Table.{add_row, get_row-add_row_old, get_row-modify_row, get_row-map}
use ripcale_backend.Models.{event_row}
use ripcale_backend.Sieve.Verdict.{ids_of}
use ripcale_backend.Decisionmaker.{
  seen_at, new_event, apply_update, insert_all, update_one, update_all, stamp_row, stamp_all,
  upsert_conflict, conflict_one, conflict_all,
}

module _ (p : Platform) (run_ts utcnow : Instant) where
  -- A row that is there is not touched by the inserts.
  pub insert_all-keeps :
      (source_id : ℕ) (j : Text) (r : Event) (cs : List ClassifiedEvent) (rows rows' : List Event)
      → insert_all p run_ts utcnow source_id cs rows ≡ ok rows'
      → event_row j rows ≡ some r
      → event_row j rows' ≡ some r
  unfolding insert_all
  insert_all-keeps source_id j r [] rows rows' h e = ground arith
  insert_all-keeps source_id j r (c ∷ cs) rows rows' h e =
      let (next, added, later) = >>=-eq-ok (add_row event_key _ rows) _ h in
      insert_all-keeps source_id j r cs next rows' later
        (get_row-add_row_old event_key j _ r rows next added e)

  update_one-keeps :
      (source_id : ℕ) (j : Text) (r : Event) (c : ClassifiedEvent) (o : Option Event)
      (rows next : List Event) (i u : ℕ)
      → (c.id == j) ≡ false
      → update_one p run_ts utcnow source_id c o rows ≡ ok (next, i, u)
      → event_row j rows ≡ some r
      → event_row j next ≡ some r
  unfolding update_one apply_update
  update_one-keeps source_id j r c none rows next i u differs h e =
      let new = new_event p run_ts utcnow source_id c in
      let (added, fits, same) = >>=-eq-ok (add_row event_key new rows) _ h in
      ground (arith, get_row-add_row_old event_key j new r rows added fits e)
  update_one-keeps source_id j r c (some old) rows next i u differs h e =
      ground (
        arith,
        get_row-modify_row event_key c.id j (apply_update p run_ts utcnow c) rows (λ x. refl),
      )

  -- The updates touch only the rows that they name.
  pub update_all-keeps :
      (source_id : ℕ) (j : Text) (r : Event) (cs : List ClassifiedEvent) (rows rows' : List Event)
      (i u : ℕ)
      → contains j (ids_of cs) ≡ false
      → update_all p run_ts utcnow source_id cs rows ≡ ok (rows', i, u)
      → event_row j rows ≡ some r
      → event_row j rows' ≡ some r
  unfolding update_all contains
  update_all-keeps source_id j r [] rows rows' i u absent h e = ground arith
  update_all-keeps source_id j r (c ∷ cs) rows rows' i u absent h e =
      let ((next, i₁, u₁), first, rest) =
        >>=-eq-ok (update_one p run_ts utcnow source_id c (event_row c.id rows) rows) _ h in
      let ((last, i₂, u₂), later, same) =
        >>=-eq-ok (update_all p run_ts utcnow source_id cs next) _ rest in
      let kept =
        update_one-keeps source_id j r c (event_row c.id rows) rows next i₁ u₁ (ground arith) first
          e in
      ground (arith, update_all-keeps source_id j r cs next last i₂ u₂ (ground arith) later kept)

  -- The stamp sets `last_seen_at` on the named rows and nothing else.
  pub event_row-stamp_all :
      (j : Text) (r : Event) (ids : List Text) (rows : List Event)
      → event_row j rows ≡ some r
      → r.id ≡ j
      → event_row j (stamp_all p run_ts utcnow ids rows)
        ≡ some (if contains j ids then seen_at run_ts r else r)
  unfolding stamp_all stamp_row
  event_row-stamp_all j r ids rows e same =
      get_row-map event_key j (stamp_row p run_ts utcnow ids) rows (λ x. ground arith)
      ∙ rw (e, same)

  -- A conflict sets `last_seen_at` on its row and nothing else.
  conflict_one-keeps :
      (uuid : Text → Text) (j : Text) (r : Event) (c : ClassifiedEvent) (o : Option Event)
      (rows next : List Event) (conflicts conflicts' : List EventConflict)
      → conflict_one p run_ts utcnow uuid c o rows conflicts ≡ ok (next, conflicts')
      → o ≡ event_row c.id rows
      → event_row j rows ≡ some r
      → event_row j next ≡ some (if c.id == j then seen_at run_ts r else r)
  unfolding conflict_one
  conflict_one-keeps uuid j r c none rows next conflicts conflicts' h found e =
      ground (arith, ==_iff c.id j)
  conflict_one-keeps uuid j r c (some old) rows next conflicts conflicts' h found e =
      let (written, fits, same) =
        >>=-eq-ok (upsert_conflict p run_ts utcnow uuid c conflicts) _ h in
      ground (arith, get_row-modify_row event_key c.id j (seen_at run_ts) rows (λ x. refl))

  pub conflict_all-keeps :
      (uuid : Text → Text) (j : Text) (r : Event) (cs : List ClassifiedEvent)
      (rows rows' : List Event) (conflicts conflicts' : List EventConflict)
      → conflict_all p run_ts utcnow uuid cs rows conflicts ≡ ok (rows', conflicts')
      → event_row j rows ≡ some r
      → event_row j rows' ≡ some (if contains j (ids_of cs) then seen_at run_ts r else r)
  unfolding conflict_all contains
  conflict_all-keeps uuid j r [] rows rows' conflicts conflicts' h e = ground arith
  conflict_all-keeps uuid j r (c ∷ cs) rows rows' conflicts conflicts' h e =
      let ((next, middle), first, rest) =
        >>=-eq-ok (conflict_one p run_ts utcnow uuid c (event_row c.id rows) rows conflicts) _ h in
      let kept =
        conflict_one-keeps uuid j r c (event_row c.id rows) rows next conflicts middle first refl
          e in
      ground (
        arith,
        conflict_all-keeps uuid j (if c.id == j then seen_at run_ts r else r) cs next rows' middle
            conflicts' rest kept,
      )
