-- ===== src/Sieve/Verdict.antt =====
-- The loop of `classify` against a description of each bucket by itself.
use ripcale_backend.Prelude.{
  ◌&&◌, is_none, contains, Bool-cases, inl, inr, ==_iff, ℕ, ◌+◌, ◌-◌, ◌≤◌, ◌≡◌, refl, ap, ◌∙◌, Bool,
  true, false, ◌||◌, List, [], ◌∷◌, map, Option, none, some, Text, ◌==◌, nat_eq, list_eq,
  if◌then◌else◌, keep, length, length-keep-le, length-map, is_some, arith, suc,
}
use ripcale_backend.Schema.{
  Instant, SourceConfig, ScrapedEvent, GathererResult, ClassifiedEvent, SieveResult,
}
use ripcale_backend.Settings.{Settings}
use ripcale_backend.Platform.{Platform}
use ripcale_backend.Models.{Event, event_row, Db}
use ripcale_backend.Identity.{stable_id, content_hash}
use ripcale_backend.Sieve.{
  relevance, merge_default_location, with_default, relevant_event, changed_fields, classified,
  place, classify_from, incoming, classify,
}

-- What the stored row says about an incoming event.
pub data Bucket : Type 0 where
  is_new is_frozen is_conflict is_same is_changed : Bucket

abbrev pub bucket_eq : Bucket → Bucket → Bool
bucket_eq is_new is_new = true
bucket_eq is_frozen is_frozen = true
bucket_eq is_conflict is_conflict = true
bucket_eq is_same is_same = true
bucket_eq is_changed is_changed = true
bucket_eq _ _ = false

-- By the hash of the incoming event.
unfoldable pub bucket_of : Text → Option Event → Bucket
bucket_of hash none = is_new
bucket_of hash (some old) =
    if is_some old.archived_at
    then is_frozen
    else if old.content_hash == hash
    then is_same
    else if old.pinned
    then is_conflict
    else is_changed

abbrev pub ids_of : List ClassifiedEvent → List Text
ids_of cs = map (λ (c : ClassifiedEvent). c.id) cs

abbrev old_fields : Platform → ScrapedEvent → Option Event → List Text
old_fields p e none = []
old_fields p e (some old) = changed_fields p e old

module _ (p : Platform) (rows : List Event) (name : Text) where
  abbrev pub event_id : ScrapedEvent → Text
  event_id e = stable_id p name e

  abbrev pub stored : ScrapedEvent → Option Event
  stored e = event_row (event_id e) rows

  unfoldable pub bucket : ScrapedEvent → Bucket
  unfolding bucket_of
  bucket e = bucket_of (content_hash p e) (stored e)

  -- The incoming events of a bucket, in the order of the feed.
  abbrev pub those : Bucket → List ScrapedEvent → List ScrapedEvent
  those b es = keep (λ e. bucket_eq (bucket e) b) es

  abbrev pub not_frozen_same : ScrapedEvent → Bool
  not_frozen_same e = bucket_eq (bucket e) is_same || bucket_eq (bucket e) is_conflict

  abbrev pub as_classified : ScrapedEvent → ClassifiedEvent
  as_classified e = classified p (event_id e) e (old_fields p e (stored e))

  -- The verdict as one comprehension over the feed for each bucket.
  unfoldable pub verdict : SourceConfig → ℕ → List ScrapedEvent → SieveResult
  verdict source dropped es = record {
    source = source;
    new = map as_classified (those is_new es);
    updated = map as_classified (those is_changed es);
    unchanged = length (those is_same es);
    unchanged_ids = map event_id (keep not_frozen_same es);
    archived_ids = map event_id (those is_frozen es);
    conflicts = map as_classified (those is_conflict es);
    dropped = dropped;
  }

-- What one round of the loop adds to the verdict, by bucket.
add_to : Bucket → Text → ClassifiedEvent → SieveResult → SieveResult
add_to is_new id c rest = record rest { new = c ∷ rest.new }
add_to is_frozen id c rest = record rest { archived_ids = id ∷ rest.archived_ids }
add_to is_conflict id c rest = record rest {
  conflicts = c ∷ rest.conflicts;
  unchanged_ids = id ∷ rest.unchanged_ids;
}
add_to is_same id c rest = record rest {
  unchanged = suc rest.unchanged;
  unchanged_ids = id ∷ rest.unchanged_ids;
}
add_to is_changed id c rest = record rest { updated = c ∷ rest.updated }

module _ (p : Platform) where
  place_by_bucket :
      (id : Text) (e : ScrapedEvent) (o : Option Event) (rest : SieveResult)
      → place p id e o rest
        ≡ add_to (bucket_of (content_hash p e) o) id (classified p id e (old_fields p e o)) rest
  unfolding place add_to bucket_of
  place_by_bucket id e none rest = refl
  place_by_bucket id e (some old) rest = ground arith

  module _ (rows : List Event) (source : SourceConfig) (dropped : ℕ) where
    verdict_round :
        (b : Bucket) (e : ScrapedEvent) (es : List ScrapedEvent)
        → bucket p rows source.name e ≡ b
        → add_to b
            (event_id p rows source.name e)
            (as_classified p rows source.name e)
            (verdict p rows source.name source dropped es)
          ≡ verdict p rows source.name source dropped (e ∷ es)
    unfolding add_to verdict keep
    verdict_round is_new e es h = rw h
    verdict_round is_frozen e es h = rw h
    verdict_round is_conflict e es h = rw h
    verdict_round is_same e es h = rw h
    verdict_round is_changed e es h = rw h

    -- The loop computes the comprehensions.
    pub classify_from-verdict :
        (es : List ScrapedEvent)
        → classify_from p rows source dropped es ≡ verdict p rows source.name source dropped es
    unfolding classify_from bucket verdict
    classify_from-verdict [] = unfold keep in refl
    classify_from-verdict (e ∷ es) =
        ap (place p (stable_id p source.name e) e (event_row (stable_id p source.name e) rows))
          (classify_from-verdict es)
        ∙ (place_by_bucket (stable_id p source.name e) e
              (event_row (stable_id p source.name e) rows)
              (verdict p rows source.name source dropped es)
            ∙ verdict_round (bucket p rows source.name e) e es refl)

-- The events that the relevance window drops.
abbrev pub dropped_count : Platform → Settings → GathererResult → Instant → ℕ
dropped_count p settings result now =
    length result.events - length (relevance p settings result.events now)

-- The sieve's verdict is one comprehension over the incoming events for each bucket, where the
-- bucket of an event depends on the stored row with its id: none, archived, with the same hash,
-- pinned with another hash, or another hash.
pub classify-verdict :
    (p : Platform) (settings : Settings) (db : Db) (result : GathererResult) (now : Instant)
    → classify p settings db result now
      ≡ verdict p db.events result.source.name result.source
          (dropped_count p settings result now)
          (incoming p settings result now)
unfolding classify
classify-verdict p settings db result now =
    classify_from-verdict p db.events result.source (dropped_count p settings result now)
      (incoming p settings result now)

-- Each incoming event falls into exactly one bucket.
length-buckets :
    (p : Platform) (rows : List Event) (name : Text) (es : List ScrapedEvent)
    → length (those p rows name is_new es)
        + length (those p rows name is_changed es)
        + length (those p rows name is_same es)
        + length (those p rows name is_frozen es)
        + length (those p rows name is_conflict es)
      ≡ length es
unfolding keep
length-buckets p rows name [] = refl
length-buckets p rows name (e ∷ es) = ground (arith, length-buckets p rows name es)

length-incoming :
    (p : Platform) (settings : Settings) (result : GathererResult) (now : Instant)
    → length (incoming p settings result now) ≡ length (relevance p settings result.events now)
unfolding incoming merge_default_location
length-incoming p settings result now = ground (
  arith,
  length-map (relevance p settings result.events now)
      (with_default p result.source.default_location),
)

length-relevance :
    (p : Platform) (settings : Settings) (es : List ScrapedEvent) (now : Instant)
    → length (relevance p settings es now) ≤ length es
unfolding relevance
length-relevance p settings es now =
    ground (arith, length-keep-le (relevant_event p settings now) es)

-- What the database has for an id: nothing, an archived row, or a live one.
abbrev pub is_archived_row : Option Event → Bool
is_archived_row none = false
is_archived_row (some old) = is_some old.archived_at

abbrev pub is_live_row : Option Event → Bool
is_live_row none = false
is_live_row (some old) = is_none old.archived_at

bucket_new : (hash : Text) (o : Option Event) → bucket_eq (bucket_of hash o) is_new ≡ is_none o
unfolding bucket_of
bucket_new hash none = refl
bucket_new hash (some old) = ground arith

bucket_frozen :
    (hash : Text) (o : Option Event) → bucket_eq (bucket_of hash o) is_frozen ≡ is_archived_row o
unfolding bucket_of
bucket_frozen hash none = refl
bucket_frozen hash (some old) = ground arith

bucket_live :
    (hash : Text) (o : Option Event)
    → (bucket_eq (bucket_of hash o) is_changed
        || (bucket_eq (bucket_of hash o) is_same || bucket_eq (bucket_of hash o) is_conflict))
      ≡ is_live_row o
unfolding bucket_of
bucket_live hash none = refl
bucket_live hash (some old) = ground arith

module _ (p : Platform) (rows : List Event) (name : Text) where
  abbrev pub feed_ids : List ScrapedEvent → List Text
  feed_ids es = map (event_id p rows name) es

  ids_of-map : (es : List ScrapedEvent) → ids_of (map (as_classified p rows name) es) ≡ feed_ids es
  ids_of-map [] = refl
  ids_of-map (e ∷ es) = ap (◌∷◌ (event_id p rows name e)) (ids_of-map es)

  -- Two tests that together tell something of the stored row: an id is among the events of the one
  -- or of the other exactly where the feed has it and its row is so.
  kept_ids :
      (first second : ScrapedEvent → Bool) (row_is : Option Event → Bool) (id : Text)
      (es : List ScrapedEvent)
      → ((e : ScrapedEvent) → (first e || second e) ≡ row_is (stored p rows name e))
      → (contains id (feed_ids (keep first es)) || contains id (feed_ids (keep second es)))
        ≡ (contains id (feed_ids es) && row_is (event_row id rows))
  unfolding keep contains
  kept_ids first second row_is id [] agree = refl
  kept_ids first second row_is id (e ∷ es) agree =
      let rest = kept_ids first second row_is id es agree in
      elim (Bool-cases (event_id p rows name e == id)) [
        | inl same ↦
            let q : event_id p rows name e ≡ id = (==_iff (event_id p rows name e) id).0 same in
            let here : (first e || second e) ≡ row_is (event_row id rows) =
              agree e ∙ ap (λ i. row_is (event_row i rows)) q in
            ground (arith, here, rest, same)
        | inr other ↦ ground (arith, rest, other)
      ]

  kept_ids_one :
      (test : ScrapedEvent → Bool) (row_is : Option Event → Bool) (id : Text)
      (es : List ScrapedEvent)
      → ((e : ScrapedEvent) → test e ≡ row_is (stored p rows name e))
      → contains id (feed_ids (keep test es))
        ≡ (contains id (feed_ids es) && row_is (event_row id rows))
  kept_ids_one test row_is id es agree =
      let twice = kept_ids test test row_is id es (λ e. ground (arith, agree e)) in ground arith

-- Every gathered event is counted once: it is dropped, new, updated, unchanged, archived or in
-- conflict. An id is among the new ones exactly where the feed, without what is dropped, has it and
-- no row is stored, among the archived ones exactly where it has it and the row is archived, and
-- among the updated or the unchanged ones exactly where it has it and the row is not archived.
pub classify_conserves :
    (p : Platform) (settings : Settings) (db : Db) (result : GathererResult) (now : Instant)
    (id : Text)
    → let v = classify p settings db result now in
      let fed =
        contains id (feed_ids p db.events result.source.name (incoming p settings result now)) in
      (v.dropped
          + length v.new
          + length v.updated
          + v.unchanged
          + length v.archived_ids
          + length v.conflicts
        ≡ length result.events)
      × (contains id (ids_of v.new) ≡ (fed && is_none (event_row id db.events)))
      × (contains id v.archived_ids ≡ (fed && is_archived_row (event_row id db.events)))
      × ((contains id (ids_of v.updated) || contains id v.unchanged_ids)
          ≡ (fed && is_live_row (event_row id db.events)))
classify_conserves p settings db result now id =
    let rows = db.events in
    let name = result.source.name in
    let es = incoming p settings result now in
    rw (classify-verdict p settings db result now) (
      unfold verdict in
      (
        omega (
          arith,
          length-buckets p rows name es,
          length-incoming p settings result now,
          length-relevance p settings result.events now,
          length-map (those p rows name is_new es) (as_classified p rows name),
          length-map (those p rows name is_changed es) (as_classified p rows name),
          length-map (those p rows name is_conflict es) (as_classified p rows name),
          length-map (those p rows name is_frozen es) (event_id p rows name),
        ),
        ap (contains id) (ids_of-map p rows name (those p rows name is_new es))
            ∙ kept_ids_one p rows name (λ e. bucket_eq (bucket p rows name e) is_new) is_none id es
                (λ e. unfold bucket in bucket_new (content_hash p e) (stored p rows name e)),
        kept_ids_one p rows name (λ e. bucket_eq (bucket p rows name e) is_frozen) is_archived_row
            id es (λ e. unfold bucket in bucket_frozen (content_hash p e) (stored p rows name e)),
        ap
              (λ l.
                contains id l
                || contains id (map (event_id p rows name) (keep (not_frozen_same p rows name) es)))
              (ids_of-map p rows name (those p rows name is_changed es))
            ∙ kept_ids p rows name (λ e. bucket_eq (bucket p rows name e) is_changed)
                (not_frozen_same p rows name) is_live_row id es
                (λ e. unfold bucket in bucket_live (content_hash p e) (stored p rows name e)),
      ))
