-- ===== src/Pending/Counts.antt =====
-- What the summary of a run counts.
use ripcale_backend.Prelude.{
  ℕ, ◌+◌, suc, ◌≡◌, refl, Bool, true, List, [], ◌∷◌, Option, none, some, Text, nat_eq, list_eq,
  option_eq, if◌then◌else◌, keep, length, arith,
}
use ripcale_backend.Schema.{Instant, ScrapedEvent, GathererResult}
use ripcale_backend.Platform.{Platform}
use ripcale_backend.Identity.{truthy}
use ripcale_backend.Models.{Source, PendingPost, Db}
use ripcale_backend.Pending.{
  post_row, Summary, enqueue_post, enqueue_one, enqueue_all, nothing_yet, enqueue,
}

abbrev total_of : Summary → ℕ
total_of s = s.enqueued + s.changed + s.unchanged

abbrev pub has_uid : ScrapedEvent → Bool
has_uid e = truthy e.uid

module _ (p : Platform) (utcnow : Instant) (source_id : ℕ) where
  enqueue_post-total :
      (dry_run : Bool) (uid : Text) (e : ScrapedEvent) (o : Option PendingPost)
      (posts : List PendingPost) (s : Summary)
      → total_of (enqueue_post p utcnow source_id dry_run uid e o posts s).1 ≡ suc (total_of s)
  unfolding enqueue_post
  enqueue_post-total dry_run uid e none posts s = omega arith
  enqueue_post-total dry_run uid e (some post) posts s = ground arith

  enqueue_one-total :
      (dry_run : Bool) (uid : Option Text) (e : ScrapedEvent) (posts : List PendingPost)
      (s : Summary)
      → total_of (enqueue_one p utcnow source_id dry_run uid e posts s).1
        ≡ (if truthy uid then suc (total_of s) else total_of s)
  unfolding enqueue_one
  enqueue_one-total dry_run none e posts s = refl
  enqueue_one-total dry_run (some []) e posts s = refl
  enqueue_one-total dry_run (some (c ∷ u)) e posts s =
      enqueue_post-total dry_run (c ∷ u) e (post_row (c ∷ u) posts) posts s

  enqueue_all-total :
      (dry_run : Bool) (es : List ScrapedEvent) (posts : List PendingPost) (s : Summary)
      → total_of (enqueue_all p utcnow source_id dry_run es posts s).1
        ≡ total_of s + length (keep has_uid es)
  unfolding enqueue_all keep
  enqueue_all-total dry_run [] posts s = omega arith
  enqueue_all-total dry_run (e ∷ es) posts s =
      let one = enqueue_one p utcnow source_id dry_run e.uid e posts s in
      ground
        (arith, enqueue_one-total dry_run e.uid e posts s, enqueue_all-total dry_run es one.0 one.1)

-- Every post with a uid is counted once, as enqueued, changed or unchanged, and one without a uid
-- not at all; a dry run writes nothing.
pub enqueue_counts :
    (p : Platform) (utcnow clock_now : Instant) (host : List ScrapedEvent → List ScrapedEvent)
    (source : Source) (result : GathererResult) (dry_run : Bool) (db : Db)
    → let (after, s) = enqueue p utcnow host clock_now source result dry_run db in
      (s.enqueued + s.changed + s.unchanged ≡ length (keep has_uid (host result.events)))
      × (dry_run ≡ true → after ≡ db)
unfolding enqueue
enqueue_counts p utcnow clock_now host source result dry_run db = (
  omega (
    arith,
    enqueue_all-total p utcnow source.id dry_run (host result.events) db.posts nothing_yet,
  ),
  λ h. rw h refl,
)
