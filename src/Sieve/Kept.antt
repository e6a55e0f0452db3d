-- ===== src/Sieve/Kept.antt =====
-- Which buckets an archived or a pinned row can never fall into.
use ripcale_backend.Prelude.{
  ◌≡◌, refl, ap, Bool, true, false, ◌||◌, List, [], ◌∷◌, map, some, Text, nat_eq, list_eq, contains,
  arith, keep, is_some, not_contains-map-keep,
}
use ripcale_backend.Schema.{ScrapedEvent}
use ripcale_backend.Platform.{Platform}
use ripcale_backend.Identity.{content_hash}
use ripcale_backend.Models.{Event, event_row}
use ripcale_backend.Sieve.Verdict.{
  Bucket, is_frozen, is_conflict, is_same, is_changed, bucket_eq, bucket_of, bucket, those, ids_of,
  event_id, as_classified, not_frozen_same,
}

abbrev pub is_frozen_or_pinned : Event → Bool
is_frozen_or_pinned r = is_some r.archived_at || r.pinned

bucket_of_kept :
    (hash : Text) (r : Event)
    → is_frozen_or_pinned r ≡ true
    → bucket_eq (bucket_of hash (some r)) is_changed ≡ false
unfolding bucket_of
bucket_of_kept hash r h = ground arith

bucket_of_archived :
    (hash : Text) (r : Event) (b : Bucket)
    → is_some r.archived_at ≡ true
    → bucket_eq is_frozen b ≡ false
    → bucket_eq (bucket_of hash (some r)) b ≡ false
unfolding bucket_of
bucket_of_archived hash r b h k = ground arith

module _ (p : Platform) (rows : List Event) (name : Text) (j : Text) (r : Event)
    (found : event_row j rows ≡ some r) where
  bucket_at :
      (e : ScrapedEvent)
      → event_id p rows name e ≡ j
      → bucket p rows name e ≡ bucket_of (content_hash p e) (some r)
  unfolding bucket
  bucket_at e same = rw (same, found)

  ids_of-map :
      (es : List ScrapedEvent)
      → ids_of (map (as_classified p rows name) es) ≡ map (event_id p rows name) es
  ids_of-map [] = refl
  ids_of-map (e ∷ es) = ap (◌∷◌ (event_id p rows name e)) (ids_of-map es)

  pub not_updated :
      (es : List ScrapedEvent)
      → is_frozen_or_pinned r ≡ true
      → contains j (ids_of (map (as_classified p rows name) (those p rows name is_changed es)))
        ≡ false
  not_updated es h = rw ids_of-map (
      not_contains-map-keep j (event_id p rows name)
        (λ e. bucket_eq (bucket p rows name e) is_changed) es
        (λ e same. rw (bucket_at e same) (bucket_of_kept (content_hash p e) r h)))

  pub not_conflicting :
      (es : List ScrapedEvent)
      → is_some r.archived_at ≡ true
      → contains j (ids_of (map (as_classified p rows name) (those p rows name is_conflict es)))
        ≡ false
  not_conflicting es h = rw ids_of-map (
      not_contains-map-keep j (event_id p rows name)
        (λ e. bucket_eq (bucket p rows name e) is_conflict) es
        (λ e same.
          rw (bucket_at e same) (bucket_of_archived (content_hash p e) r is_conflict h refl)))

  pub not_stamped :
      (es : List ScrapedEvent)
      → is_some r.archived_at ≡ true
      → contains j (map (event_id p rows name) (keep (not_frozen_same p rows name) es)) ≡ false
  not_stamped es h =
      not_contains-map-keep j (event_id p rows name) (not_frozen_same p rows name) es (λ e same.
        rw (bucket_at e same) (
          rw (
            bucket_of_archived (content_hash p e) r is_same h refl,
            bucket_of_archived (content_hash p e) r is_conflict h refl,
          )))
