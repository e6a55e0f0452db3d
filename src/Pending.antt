-- ===== src/Pending.antt =====
-- services/pending.py: the queue of the posts that a person or a model decides on before they
-- become events. Hosting the images is a parameter.
pub mod Counts
pub mod Queue
use ripcale_backend.Prelude.{
  ℕ, suc, ◌*◌, Bool, true, false, ◌&&◌, ◌||◌, not, List, [], ◌∷◌, ◌++◌, map, Option, none, some,
  Text, ◌==◌, nat_eq, list_eq, option_eq, if◌then◌else◌, keep, length, is_none, is_some, or_else,
}
use ripcale_backend.Prelude.Int.{ℤ, pos, ◌-ℤ◌, ltb_ℤ}
use ripcale_backend.Schema.{Instant, ImageRef, ScrapedEvent, GathererResult}
use ripcale_backend.Platform.{Platform}
use ripcale_backend.Models.{Source, PendingPost, PostStatus, Db}
use ripcale_backend.Table.{get_row, modify_row}
use ripcale_backend.Identity.{dump_images}

abbrev pub post_key : PendingPost → Text
post_key post = post.uid

abbrev pub post_row : Text → List PendingPost → Option PendingPost
post_row = get_row post_key

pub record Summary : Type 0 where
  pub enqueued : ℕ
  pub changed : ℕ
  pub unchanged : ℕ

abbrev pub nothing_yet : Summary
nothing_yet = record { enqueued = 0; changed = 0; unchanged = 0 }

module _ (p : Platform) where
  -- `dump_images([ImageRef(url=img.url) for img in event.images])`
  pub post_images : ScrapedEvent → Text
  post_images e =
      dump_images p
        (map (λ (img : ImageRef). record { url = img.url; alt = none; source_url = none }) e.images)

  pub post_caption : ScrapedEvent → Text
  post_caption e = or_else e.description []

  pub backfilled : ScrapedEvent → PendingPost → PendingPost
  backfilled e post =
      if is_none post.published_at && is_some e.start_at
      then record post { published_at = e.start_at }
      else post

  pub differs : ScrapedEvent → PendingPost → Bool
  unfolding post_images post_caption
  differs e post = not (post.caption == some (post_caption e)) || not (post.images == post_images e)

module _ (p : Platform) (utcnow : Instant) where
  pub new_post : ℕ → Text → ScrapedEvent → PendingPost
  unfolding post_images post_caption
  new_post source_id uid e = record {
    uid = uid;
    source_id = source_id;
    url = e.url;
    caption = some (post_caption p e);
    images = post_images p e;
    published_at = e.start_at;
    status = PostStatus.pending;
    attempts = 0;
    transcription = none;
    decision = none;
    match_event_id = none;
    error = none;
    created_at = utcnow;
    updated_at = utcnow;
    processed_at = none;
  }

  pub requeued : ScrapedEvent → PendingPost → PendingPost
  unfolding post_images post_caption
  requeued e post = record post {
    caption = some (post_caption p e);
    images = post_images p e;
    url = e.url;
    published_at = e.start_at;
    status = PostStatus.pending;
    transcription = none;
    decision = none;
    error = none;
    attempts = 0;
    updated_at = utcnow;
  }

  -- The body of the loop for a post with a uid: the table and the summary behind it. The key of a
  -- post that is added is free.
  pub enqueue_post :
      ℕ
      → Bool
      → Text
      → ScrapedEvent
      → Option PendingPost
      → List PendingPost
      → Summary
      → List PendingPost × Summary
  unfolding new_post requeued backfilled differs
  enqueue_post source_id dry_run uid e none posts s = (
    (if dry_run then posts else posts ++ new_post source_id uid e ∷ []),
    record s { enqueued = suc s.enqueued },
  )
  enqueue_post source_id dry_run uid e (some post) posts s =
      if differs p e post
      then (
        (if dry_run then posts else modify_row post_key uid (requeued e) posts),
        record s { changed = suc s.changed },
      )
      else (
        (if dry_run then posts else modify_row post_key uid (backfilled p e) posts),
        record s { unchanged = suc s.unchanged },
      )

  -- `if not uid: continue`
  pub enqueue_one :
      ℕ
      → Bool
      → Option Text
      → ScrapedEvent
      → List PendingPost
      → Summary
      → List PendingPost × Summary
  unfolding enqueue_post
  enqueue_one source_id dry_run none e posts s = (posts, s)
  enqueue_one source_id dry_run (some []) e posts s = (posts, s)
  enqueue_one source_id dry_run (some (c ∷ u)) e posts s =
      enqueue_post source_id dry_run (c ∷ u) e (post_row (c ∷ u) posts) posts s

  pub enqueue_all :
      ℕ → Bool → List ScrapedEvent → List PendingPost → Summary → List PendingPost × Summary
  unfolding enqueue_one
  enqueue_all source_id dry_run [] posts s = (posts, s)
  enqueue_all source_id dry_run (e ∷ es) posts s =
      let (posts', s') = enqueue_one source_id dry_run e.uid e posts s in
      enqueue_all source_id dry_run es posts' s'

  abbrev fetched_at : Instant → ℕ → Source → Source
  fetched_at now source_id s =
      if s.id == source_id then record s { last_fetched_at = some now } else s

  -- `clock_now` stamps the source, the wall clock the posts.
  pub enqueue :
      (List ScrapedEvent → List ScrapedEvent)
      → Instant
      → Source
      → GathererResult
      → Bool
      → Db
      → Db × Summary
  unfolding enqueue_all
  enqueue host clock_now source result dry_run db =
      let (posts, s) = enqueue_all source.id dry_run (host result.events) db.posts nothing_yet in
      (
        (if dry_run then db else record db {
          posts = posts;
          sources = map (fetched_at clock_now source.id) db.sources;
        }),
        s,
      )

-- Posts that stay `processing` beyond the timeout; `timedelta(seconds=…)` in microseconds.
abbrev is_processing : PostStatus → Bool
is_processing PostStatus.processing = true
is_processing _ = false

pub is_stuck : Instant → ℕ → PendingPost → Bool
is_stuck clock_now timeout_seconds post =
    is_processing post.status
    && ltb_ℤ post.updated_at (clock_now -ℤ pos (timeout_seconds * 1000000))

pub reset_post : Instant → Instant → ℕ → PendingPost → PendingPost
unfolding is_stuck
reset_post utcnow clock_now timeout_seconds post =
    if is_stuck clock_now timeout_seconds post
    then record post { status = PostStatus.pending; updated_at = utcnow }
    else post

pub reset_stale_processing : Instant → Instant → ℕ → Db → Db × ℕ
unfolding reset_post
reset_stale_processing utcnow clock_now timeout_seconds db = (
  record db { posts = map (reset_post utcnow clock_now timeout_seconds) db.posts },
  length (keep (is_stuck clock_now timeout_seconds) db.posts),
)
