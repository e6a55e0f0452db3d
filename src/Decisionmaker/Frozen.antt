-- ===== src/Decisionmaker/Frozen.antt =====
-- What a run may change in a row that is archived or pinned: sieve and decisionmaker together.
use ripcale_backend.Prelude.{
  ℕ, ◌≡◌, ◌∙◌, Bool, true, false, ◌||◌, List, some, Text, nat_eq, list_eq, if◌then◌else◌, contains,
  arith, is_some,
}
use ripcale_backend.Result.{ok, >>=-eq-ok}
use ripcale_backend.Schema.{Instant, GathererResult, SieveResult}
use ripcale_backend.Settings.{Settings}
use ripcale_backend.Platform.{Platform}
use ripcale_backend.Models.{Source, Event, EventConflict, event_key, event_row, Db}
use ripcale_backend.Table.{get_row-key}
use ripcale_backend.Sieve.{incoming, classify}
use ripcale_backend.Sieve.Verdict.{ids_of, verdict, classify-verdict}
use ripcale_backend.Sieve.Kept.{is_frozen_or_pinned, not_updated, not_conflicting, not_stamped}
use ripcale_backend.Decisionmaker.{
  Report, seen_at, insert_all, update_all, stamp_all, conflict_all, write_rows, apply,
}
use ripcale_backend.Decisionmaker.Rows.{
  insert_all-keeps, update_all-keeps, event_row-stamp_all, conflict_all-keeps,
}

-- Whether the verdict has the run stamp a stored row.
abbrev pub is_seen : Text → SieveResult → Bool
is_seen j v = contains j v.unchanged_ids || contains j (ids_of v.conflicts)

module _ (p : Platform) (run_ts utcnow : Instant) where
  seen_twice :
      (a b : Bool) (r : Event)
      → (if b
          then seen_at run_ts (if a then seen_at run_ts r else r)
          else if a
          then seen_at run_ts r
          else r)
        ≡ (if a || b then seen_at run_ts r else r)
  seen_twice a b r = ground arith

  -- A row that the verdict does not update keeps all but its `last_seen_at`.
  write_rows-keeps :
      (uuid : Text → Text) (source_id : ℕ) (v : SieveResult) (j : Text) (r : Event)
      (rows rows' : List Event) (conflicts conflicts' : List EventConflict) (i u : ℕ)
      → write_rows p run_ts utcnow uuid source_id v rows conflicts ≡ ok (rows', conflicts', i, u)
      → contains j (ids_of v.updated) ≡ false
      → event_row j rows ≡ some r
      → event_row j rows' ≡ some (if is_seen j v then seen_at run_ts r else r)
  unfolding write_rows
  write_rows-keeps uuid source_id v j r rows rows' conflicts conflicts' i u h absent e =
      let (inserted, h₁, rest₁) = >>=-eq-ok (insert_all p run_ts utcnow source_id v.new rows) _ h in
      let ((changed, i₁, u₁), h₂, rest₂) =
        >>=-eq-ok (update_all p run_ts utcnow source_id v.updated inserted) _ rest₁ in
      let ((seen, conflicts₁), h₃, same) =
        >>=-eq-ok
          (conflict_all p run_ts utcnow uuid v.conflicts
            (stamp_all p run_ts utcnow v.unchanged_ids changed) conflicts)
          _ rest₂ in
      let e₁ = insert_all-keeps p run_ts utcnow source_id j r v.new rows inserted h₁ e in
      let e₂ =
        update_all-keeps p run_ts utcnow source_id j r v.updated inserted changed i₁ u₁ absent h₂
          e₁ in
      let e₃ =
        event_row-stamp_all p run_ts utcnow j r v.unchanged_ids changed e₂
          (get_row-key event_key j rows r e) in
      let e₄ =
        conflict_all-keeps p run_ts utcnow uuid j
          (if contains j v.unchanged_ids then seen_at run_ts r else r) v.conflicts
          (stamp_all p run_ts utcnow v.unchanged_ids changed) seen conflicts conflicts₁ h₃ e₃ in
      ground (arith, seen_twice (contains j v.unchanged_ids) (contains j (ids_of v.conflicts)) r)

  pub apply-keeps :
      (uuid : Text → Text) (source : Source) (v : SieveResult) (db db' : Db) (report : Report)
      (j : Text) (r : Event)
      → apply p run_ts utcnow uuid source v db ≡ ok (db', report)
      → contains j (ids_of v.updated) ≡ false
      → event_row j db.events ≡ some r
      → event_row j db'.events ≡ some (if is_seen j v then seen_at run_ts r else r)
  unfolding apply
  apply-keeps uuid source v db db' report j r h absent e =
      let ((rows, conflicts, i, u), written, same) =
        >>=-eq-ok (write_rows p run_ts utcnow uuid source.id v db.events db.conflicts) _ h in
      ground (
        arith,
        write_rows-keeps uuid source.id v j r db.events rows db.conflicts conflicts i u written
            absent e,
      )

-- One source's run: the sieve reads the database that the decisionmaker then writes.
module _ (p : Platform) (settings : Settings) (now run_ts utcnow : Instant) (uuid : Text → Text)
    (source : Source) (result : GathererResult) (db db' : Db) (report : Report)
    (done : apply p run_ts utcnow uuid source (classify p settings db result now) db
      ≡ ok (db', report))
    (j : Text) (r : Event) (found : event_row j db.events ≡ some r) where
  updated_absent :
      is_frozen_or_pinned r ≡ true
      → contains j (ids_of (classify p settings db result now).updated) ≡ false
  updated_absent h = rw (classify-verdict p settings db result now) (
      unfold verdict in
      not_updated p db.events result.source.name j r found (incoming p settings result now) h)

  -- After a run that succeeds, an archived row is as it was, whatever the feed says.
  pub archived_untouched : is_some r.archived_at ≡ true → event_row j db'.events ≡ some r
  archived_untouched archived =
      let es = incoming p settings result now in
      let name = result.source.name in
      apply-keeps p run_ts utcnow uuid source (classify p settings db result now) db db' report j r
        done (updated_absent (ground arith)) found
      ∙ rw (classify-verdict p settings db result now) (
          unfold verdict in
          rw (
            not_stamped p db.events name j r found es archived,
            not_conflicting p db.events name j r found es archived,
          ))

  -- After a run that succeeds, a pinned row is as it was but for `last_seen_at`, which is the run's
  -- time if the verdict lists the event as unchanged or in conflict.
  pub pinned_content :
      r.pinned ≡ true
      → event_row j db'.events
        ≡ some (if is_seen j (classify p settings db result now) then seen_at run_ts r else r)
  pinned_content pinned =
      apply-keeps p run_ts utcnow uuid source (classify p settings db result now) db db' report j r
        done (updated_absent (ground arith)) found
