-- ===== src/Tests/Pipeline.antt =====
-- Runs of the sieve, the decisionmaker and the ingest.
use ripcale_backend.Prelude.{
  is_none, ◌&&◌, ◌||◌, nat_eq, list_eq, ◌+◌, ◌≡◌, refl, true, false, List, [], ◌∷◌, none, some,
  Text, codes, length, if◌then◌else◌, list_beq, keep, contains, any, All, map, lookup, arith,
}
use ripcale_backend.Prelude.Int.{pos, ◌*ℤ◌, ◌-ℤ◌}
use ripcale_backend.Prelude.Order.{sorted_set, sort_by}
use ripcale_backend.Result.{Result, ok, err, failure}
use ripcale_backend.Models.{event_row, Db}
use ripcale_backend.Sieve.{classify, incoming, relevance, merge_default_location}
use ripcale_backend.Sieve.Verdict.{
  feed_ids, ids_of, is_archived_row, is_live_row, verdict, dropped_count, classify-verdict,
  classify_conserves,
}
use ripcale_backend.Decisionmaker.{apply, upsert_conflict, seen_at, new_event, apply_update, Report}
use ripcale_backend.Decisionmaker.Frozen.{is_seen, archived_untouched, pinned_content}
use ripcale_backend.Decisionmaker.Stable.{IsConsistent, second_run_finds_nothing}
use ripcale_backend.Decisionmaker.Content.{written_hash}
use ripcale_backend.Schema.{ClassifiedEvent, ScrapedEvent}
use ripcale_backend.Identity.{content_hash, stable_id, identity_key, payload}
use ripcale_backend.Events.Hash.{IsCategorized}
use ripcale_backend.Events.{recompute_hash}
use ripcale_backend.Ingest.{State, run, run_sources, attempt}
use ripcale_backend.Ingest.Isolation.{failed_source_is_skipped, dry_run_writes_nothing}
use ripcale_backend.Categorize
use ripcale_backend.Table.{get_row, add_row}
use ripcale_backend.Expiry.{
  is_relevant, past_cutoff, future_cutoff, is_past_expired, is_future_expired, is_expired,
  days_delta,
}
use ripcale_backend.Categorize.Outcome.{apply-IsCategorized}
use ripcale_backend.Registry.{gatherer_decide_before_insert}
use ripcale_backend.Tests.Samples.{
  platform, platform_laws, settings, intake, club, event, feed, source, row, empty_db, db_with,
  world, broken,
}

classify_conserves_example :
    let v = classify platform settings empty_db feed (pos 9) in
    let fed =
      contains
        (codes "club:a")
        (feed_ids platform [] (codes "club") (incoming platform settings feed (pos 9))) in
    (v.dropped
        + length v.new
        + length v.updated
        + v.unchanged
        + length v.archived_ids
        + length v.conflicts
      ≡ 1)
    × (contains (codes "club:a") (ids_of v.new)
        ≡ (fed && is_none (event_row (codes "club:a") empty_db.events)))
    × (contains (codes "club:a") v.archived_ids
        ≡ (fed && is_archived_row (event_row (codes "club:a") empty_db.events)))
    × ((contains (codes "club:a") (ids_of v.updated) || contains (codes "club:a") v.unchanged_ids)
        ≡ (fed && is_live_row (event_row (codes "club:a") empty_db.events)))
classify_conserves_example =
    classify_conserves platform settings empty_db feed (pos 9) (codes "club:a")

classify-verdict_example :
    classify platform settings empty_db feed (pos 9)
    ≡ verdict platform []
        (codes "club")
        club
        (dropped_count platform settings feed (pos 9))
        (incoming platform settings feed (pos 9))
classify-verdict_example = classify-verdict platform settings empty_db feed (pos 9)

abbrev frozen_db : Db
frozen_db = db_with (row (codes "club:a") false (some (pos 1)) ∷ [])

abbrev pinned_db : Db
pinned_db = db_with (row (codes "club:a") true none ∷ [])

abbrev no_report : Report
no_report = record { inserted = 0; updated = 0; unchanged = 0; removed = 0 }

-- What a run that succeeds returns.
abbrev value : Db × Report → Result (Db × Report) → Db × Report
value d (ok a) = a
value d (err e) = d

abbrev no_uuid : Text → Text
no_uuid id = codes "k"

abbrev run_on : Db → Result (Db × Report)
run_on db =
    apply platform (pos 9) (pos 9) no_uuid source (classify platform settings db feed (pos 9)) db

abbrev after : Db → Db × Report
after db = value (db, no_report) (run_on db)

-- The runs succeed.
runs :
    (run_on frozen_db ≡ ok (after frozen_db))
    × (run_on pinned_db ≡ ok (after pinned_db))
    × (run_on empty_db ≡ ok (after empty_db))
unfolding apply classify merge_default_location relevance is_relevant past_cutoff future_cutoff
    is_past_expired is_future_expired is_expired days_delta ◌*ℤ◌ ◌-ℤ◌ stable_id identity_key
    content_hash payload keep get_row list_beq contains add_row upsert_conflict any sorted_set
    sort_by
runs = (refl, refl, refl)

archived_untouched_example :
    event_row (codes "club:a") (after frozen_db).0.events
    ≡ some (row (codes "club:a") false (some (pos 1)))
unfolding get_row list_beq
archived_untouched_example =
    archived_untouched platform settings (pos 9) (pos 9) (pos 9) no_uuid source feed frozen_db
      (after frozen_db).0 (after frozen_db).1 runs.0 (codes "club:a")
      (row (codes "club:a") false (some (pos 1))) refl refl

pinned_content_example :
    event_row (codes "club:a") (after pinned_db).0.events
    ≡ some (
        if is_seen (codes "club:a") (classify platform settings pinned_db feed (pos 9))
        then seen_at (pos 9) (row (codes "club:a") true none)
        else row (codes "club:a") true none)
unfolding get_row list_beq
pinned_content_example =
    pinned_content platform settings (pos 9) (pos 9) (pos 9) no_uuid source feed pinned_db
      (after pinned_db).0 (after pinned_db).1 runs.1 (codes "club:a")
      (row (codes "club:a") true none) refl refl

feed-IsConsistent : IsConsistent platform (codes "club") (incoming platform settings feed (pos 9))
unfolding incoming merge_default_location relevance is_relevant past_cutoff future_cutoff
    is_past_expired is_future_expired is_expired days_delta ◌*ℤ◌ ◌-ℤ◌ keep
feed-IsConsistent = (((λ same. refl), tt), tt)

second_run_finds_nothing_example :
    ((classify platform settings (after empty_db).0 feed (pos 9)).new ≡ [])
    × ((classify platform settings (after empty_db).0 feed (pos 9)).updated ≡ [])
second_run_finds_nothing_example =
    second_run_finds_nothing platform settings (pos 9) (pos 9) (pos 9) no_uuid source feed empty_db
      (after empty_db).0 (after empty_db).1 runs.2 feed-IsConsistent

abbrev sample_classified : ClassifiedEvent
sample_classified = record {
  id = codes "club:a";
  content_hash = content_hash platform (event (codes "a") (codes "A"));
  event = event (codes "a") (codes "A");
  changed_fields = [];
}

abbrev start : State
start = record { committed = empty_db; session = empty_db; statuses = []; summaries = [] }

sample-IsCategorized : IsCategorized (event (codes "a") (codes "A"))
sample-IsCategorized = record { ascending = (tt, tt); storable = ground arith }

written_hash_example :
    ((new_event platform (pos 9) (pos 9) 1 sample_classified).content_hash
      ≡ recompute_hash platform (new_event platform (pos 9) (pos 9) 1 sample_classified))
    × ((apply_update platform
          (pos 9)
          (pos 9)
          sample_classified
          (row (codes "club:a") false none)).content_hash
        ≡ recompute_hash platform (
            apply_update platform
              (pos 9)
              (pos 9)
              sample_classified
              (row (codes "club:a") false none)))
written_hash_example =
    written_hash platform (pos 9) (pos 9) 1 sample_classified (row (codes "club:a") false none)
      platform_laws sample-IsCategorized refl

down :
    attempt broken settings intake (pos 9) (pos 9) false club empty_db
    ≡ err (failure (codes "down"))
unfolding attempt gatherer_decide_before_insert list_beq
down = refl

failed_source_is_skipped_example :
    let with_it = run_sources broken settings intake (pos 9) (pos 9) false (club ∷ []) start in
    let without = run_sources broken settings intake (pos 9) (pos 9) false [] start in
    (with_it.committed ≡ without.committed) × (with_it.session ≡ without.session)
failed_source_is_skipped_example =
    failed_source_is_skipped broken settings intake (pos 9) (pos 9) club [] start
      (failure (codes "down")) refl down

dry_run_writes_nothing_example :
    (run world settings intake (pos 9) (pos 9) true none pinned_db []).1 ≡ pinned_db
dry_run_writes_nothing_example =
    dry_run_writes_nothing world settings intake (pos 9) (pos 9) none pinned_db []

abbrev categorized_events : List ScrapedEvent
categorized_events =
    map (Categorize.with_qualified intake)
      (map (Categorize.add_categories (codes "Music" ∷ [])) feed.events)

categorized_feed : Categorize.apply platform intake club feed.events none ≡ ok categorized_events
unfolding Categorize.apply Categorize.apply_rules Categorize.apply_rule Categorize.resolve_rules
    lookup
categorized_feed = refl

apply-IsCategorized_example : All IsCategorized categorized_events
apply-IsCategorized_example =
    apply-IsCategorized platform intake club feed.events categorized_events none categorized_feed
