-- ===== src/Tests/Overseer.antt =====
-- Runs of the search for pairs and of the merges.
use mathlib.Core.Option
use ripcale_backend.Prelude.{
  ◌≡◌, ◌≢◌, refl, true, false, [], ◌∷◌, none, some, Text, codes, list_beq, arith,
}
use ripcale_backend.Prelude.Int.{pos}
use ripcale_backend.Result.{ok}
use ripcale_backend.Models.{Event, Approval, ApprovalStatus, Db, event_row}
use ripcale_backend.Table.{get_row}
use ripcale_backend.Deepseek.{transient}
use ripcale_backend.Overseer.{World, Merge, find_candidate_pairs, eligible, apply_event_merge}
use ripcale_backend.Overseer.Pairs.{all_pairs, find_candidate_pairs-all_pairs}
use ripcale_backend.Overseer.Redirects.{Enriches, IsMergeOf, merge_outcome, merges_both_ways}
use ripcale_backend.Tests.Samples.{platform, row, db_with}

abbrev merge : Text → Text → Merge
merge winner loser = record {
  canonical_id = some winner;
  loser_id = some loser;
  enrich = (codes "location", codes "Hall") ∷ [];
}

-- The payload `ab` says that `a` wins over `b`.
abbrev world : World
world = record {
  platform = platform;
  reaches = λ s t. true;
  zero_reaches = false;
  ask = λ a b. transient (codes "503");
  dumps_merge = λ m. [];
  loads_merge = λ s. elim s [ [] ↦ none | ◌∷◌ c rest ↦ some (merge (c ∷ []) rest) ];
}

abbrev first_event : Event
first_event = row (codes "a") false none

abbrev second_event : Event
second_event = record (row (codes "b") false none) { source_id = 2 }

abbrev db : Db
db = db_with (first_event ∷ second_event ∷ [])

abbrev approved : Text → Approval
approved payload = record {
  id = payload;
  kind = codes "event_merge";
  source_name = [];
  payload = payload;
  reason = [];
  status = ApprovalStatus.approved;
  created_at = pos 0;
  updated_at = pos 0;
  resolved_at = none;
}

find_candidate_pairs-all_pairs_example :
    find_candidate_pairs world (pos 0) 14 db ≡ all_pairs world (eligible world (pos 0) 14 db)
find_candidate_pairs-all_pairs_example = find_candidate_pairs-all_pairs world (pos 0) 14 db

is_merge :
    IsMergeOf world db first_event second_event
      (approved (codes "ab"))
      (merge (codes "a") (codes "b"))
unfolding get_row list_beq
is_merge = record {
  payload = refl;
  canonical = refl;
  other = refl;
  winner_row = refl;
  loser_row = refl;
  distinct = λ e. ground arith;
}

merge_outcome_example :
    (after : Db) × (now : Event) × (apply_event_merge world (pos 9) (approved (codes "ab")) db
      ≡ ok after)
    × (event_row (codes "a") after.events ≡ some now)
    × Enriches world first_event ((codes "location", codes "Hall") ∷ []) first_event now
    × (now.pinned ≡ true)
    × (event_row (codes "b") after.events
        ≡ some (record second_event { redirect_to_id = some (codes "a"); updated_at = pos 9 }))
    × ((j : Text)
        → j ≢ codes "a"
        → j ≢ codes "b"
        → event_row j after.events ≡ event_row j db.events)
merge_outcome_example =
    merge_outcome world (pos 9) db first_event second_event (approved (codes "ab"))
      (merge (codes "a") (codes "b")) is_merge

merges_both_ways_example :
    (once : Db) × (twice : Db) × (apply_event_merge world (pos 9) (approved (codes "ab")) db
      ≡ ok once)
    × (apply_event_merge world (pos 10) (approved (codes "ba")) once ≡ ok twice)
    × (Option.map (λ (e : Event). e.redirect_to_id) (event_row (codes "a") twice.events)
        ≡ some (some (codes "b")))
    × (Option.map (λ (e : Event). e.redirect_to_id) (event_row (codes "b") twice.events)
        ≡ some (some (codes "a")))
merges_both_ways_example =
    merges_both_ways world (pos 9) (pos 10) db first_event second_event (approved (codes "ab"))
      (approved (codes "ba")) (merge (codes "a") (codes "b")) (merge (codes "b") (codes "a"))
      is_merge refl refl refl
