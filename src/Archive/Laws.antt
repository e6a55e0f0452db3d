-- ===== src/Archive/Laws.antt =====
-- What an archive run does to the rows.
use ripcale_backend.Prelude.{
  ℕ, ◌+◌, ◌≡◌, refl, ◌↔◌, ◌≢◌, Bool-cases, inl, inr, option_eq, Bool, true, false, List, [], ◌∷◌,
  map, Option, none, some, ==_iff, nat_eq, list_eq, keep, length, arith, is_none, lookup, or_else,
}
use ripcale_backend.Prelude.Int.{ℤ, ◌+ℤ◌, ◌≤ℤ◌, +ℤ_parts, -ℤ_parts, int_eq}
use ripcale_backend.Schema.{Instant}
use ripcale_backend.Settings.{Settings}
use ripcale_backend.Platform.{Platform}
use ripcale_backend.Models.{Source, Event, Db}
use ripcale_backend.Expiry.{is_expired}
use ripcale_backend.Archive.{
  expired, removed, permanents, fetched_times, removed_candidate, reason_for, stale_seen,
  hours_delta, candidates, archive_row, count_of, archive,
}

abbrev pub is_live : Event → Bool
is_live e = is_none e.archived_at

module _ (p : Platform) (settings : Settings) (now : Instant) where
  candidates-archive_row :
      (sources : List Source) (es : List Event)
      → candidates p settings now sources (map (archive_row p settings now sources) es) ≡ []
  unfolding candidates archive_row
  candidates-archive_row sources [] = refl
  candidates-archive_row sources (e ∷ es) = ground (arith, candidates-archive_row sources es)

  -- A second run at the same time finds nothing to archive.
  pub archive_twice :
      (limit : Option ℕ) (db : Db)
      → let again = archive p settings now false limit (archive p settings now false limit db).0 in
        (again.1.expired ≡ 0) × (again.1.removed ≡ 0)
  unfolding archive
  archive_twice limit db =
      let none_left = candidates-archive_row db.sources db.events in
      (rw none_left (unfold keep in refl), rw none_left (unfold keep in refl))

  live_counts :
      (sources : List Source) (es : List Event)
      → length (keep is_live es)
        ≡ length (keep is_live (map (archive_row p settings now sources) es))
          + count_of p settings now expired (candidates p settings now sources es)
          + count_of p settings now removed (candidates p settings now sources es)
  unfolding candidates archive_row keep
  live_counts sources [] = refl
  live_counts sources (e ∷ es) = ground (arith, live_counts sources es)

  -- The two counts of the report are the number of live rows that the run archives.
  pub archive_counts :
      (limit : Option ℕ) (db : Db)
      → let run = archive p settings now false limit db in
        length (keep is_live db.events)
        ≡ length (keep is_live run.0.events) + run.1.expired + run.1.removed
  unfolding archive
  archive_counts limit db = live_counts db.sources db.events

  -- A preview changes no row, and reports the counts of the run that it previews.
  pub archive_preview :
      (limit : Option ℕ) (db : Db)
      → let preview = archive p settings now true limit db in
        let run = archive p settings now false limit db in
        (preview.0 ≡ db)
        × (preview.1.expired ≡ run.1.expired)
        × (preview.1.removed ≡ run.1.removed)
        × (preview.1.preview ≡ run.1.preview)
  unfolding archive
  archive_preview limit db = (refl, refl, refl, refl)

  -- The row was not seen at the last fetch, and by now not for the given hours; or never.
  abbrev pub Unseen : Option Instant → Option Instant → Option ℤ → Type 0
  Unseen seen fetched_at none = ⊥
  Unseen none fetched_at (some hours) = Unit
  Unseen (some t) fetched_at (some hours) = (fetched_at ≢ some t) × (t +ℤ hours_delta hours ≤ℤ now)

  stale_seen_iff :
      (seen fetched_at : Option Instant) (hours : ℤ)
      → (stale_seen seen fetched_at now hours ≡ true) ↔ Unseen seen fetched_at (some hours)
  stale_seen_iff none fetched_at hours = ground arith
  stale_seen_iff (some t) fetched_at hours =
      ground (arith, ==_iff fetched_at (some t), +ℤ_parts t (hours_delta hours), -ℤ_parts now t)

  removed_candidate_iff :
      (e : Event) (fetched_at : Option Instant) (grace : Option ℤ)
      → (removed_candidate e fetched_at now grace ≡ true) ↔ Unseen e.last_seen_at fetched_at grace
  unfolding removed_candidate
  removed_candidate_iff e fetched_at none = ground arith
  removed_candidate_iff e fetched_at (some hours) = stale_seen_iff e.last_seen_at fetched_at hours

  -- A row is archived as removed exactly if it has not expired, its source is not permanent, and
  -- it was never seen, or not at the last fetch and not within the grace period.
  pub reason_for-eq-removed_iff :
      (sources : List Source) (e : Event)
      → (reason_for p settings now sources e ≡ some removed) ↔ (
          (is_expired p e.start_at e.end_at e.rrule now settings.expire_past_days ≡ false)
          × (or_else (lookup e.source_id (permanents sources)) false ≡ false)
          × Unseen e.last_seen_at
              (or_else (lookup e.source_id (fetched_times sources)) none)
              settings.archive_grace_hours)
  unfolding reason_for
  reason_for-eq-removed_iff sources e =
      let fetched_at = or_else (lookup e.source_id (fetched_times sources)) none in
      let (to, from) = removed_candidate_iff e fetched_at settings.archive_grace_hours in
      elim (Bool-cases (is_expired p e.start_at e.end_at e.rrule now settings.expire_past_days)) [
        | inl gone ↦ rw gone (ground arith)
        | inr stays ↦
            rw stays (elim (Bool-cases (or_else (lookup e.source_id (permanents sources)) false)) [
              | inl kept ↦ rw kept (ground arith)
              | inr free ↦ rw free ((λ h. (refl, refl, to (ground arith))), λ h. rw (from h.2) refl)
            ])
      ]
