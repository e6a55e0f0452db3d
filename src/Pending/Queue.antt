-- ===== src/Pending/Queue.antt =====
-- A post is queued once for each content it has: a feed that repeats a post does not queue it again.
use mathlib.Core.Option
use ripcale_backend.Prelude.{
  ℕ, suc, ◌≡◌, refl, ap, ◌⊎◌, inl, inr, Bool-cases, sym, ◌∙◌, Bool, true, false, not, List, [], ◌∷◌,
  Option, none, some, Text, ◌==◌, ==_iff, ==_refl, nat_eq, list_eq, option_eq, if◌then◌else◌, All,
  arith,
}
use ripcale_backend.Schema.{Instant, ScrapedEvent, GathererResult}
use ripcale_backend.Platform.{Platform}
use ripcale_backend.Identity.{truthy}
use ripcale_backend.Models.{Source, PendingPost, PostStatus, Db}
use ripcale_backend.Table.{get_row-append, get_row-modify_row}
use ripcale_backend.Pending.{
  post_key, post_row, Summary, post_images, post_caption, new_post, requeued, backfilled, differs,
  enqueue_post, enqueue_one, enqueue_all, nothing_yet, enqueue,
}

module _ (p : Platform) where
  -- The table has the post with the content of the feed.
  abbrev matches : ScrapedEvent → Option PendingPost → Bool
  matches e none = false
  matches e (some r) = not (differs p e r)

  abbrev queued_as : Option Text → ScrapedEvent → List PendingPost → Bool
  queued_as none e posts = true
  queued_as (some []) e posts = true
  queued_as (some (c ∷ u)) e posts = matches e (post_row (c ∷ u) posts)

  unfoldable pub is_queued : List PendingPost → ScrapedEvent → Bool
  is_queued posts e = queued_as e.uid e posts

  -- Two posts of the feed with one uid have one content.
  abbrev pub Agree : ScrapedEvent → ScrapedEvent → Type 0
  Agree e f =
      e.uid ≡ f.uid → (post_caption p e ≡ post_caption p f) × (post_images p e ≡ post_images p f)

  differs-backfilled :
      (e f : ScrapedEvent) (r : PendingPost) → differs p f (backfilled p e r) ≡ differs p f r
  unfolding differs backfilled
  differs-backfilled e f r = ground arith

  differs_agree :
      (e f : ScrapedEvent) (r : PendingPost)
      → post_caption p e ≡ post_caption p f
      → post_images p e ≡ post_images p f
      → differs p f r ≡ differs p e r
  unfolding differs
  differs_agree e f r h k = rw (h, k)

  -- Posts of one uid have one content.
  abbrev pub IsConsistent : List ScrapedEvent → Type 0
  IsConsistent [] = Unit
  IsConsistent (e ∷ es) = All (λ f. Agree f e) es × IsConsistent es

module _ (p : Platform) (utcnow : Instant) (source_id : ℕ) where
  -- What stands in the table behind a post.
  unfoldable outcome : Text → ScrapedEvent → Option PendingPost → PendingPost
  outcome uid e none = new_post p utcnow source_id uid e
  outcome uid e (some r) = if differs p e r then requeued p utcnow e r else backfilled p e r

  new_post_uid : (uid : Text) (e : ScrapedEvent) → (new_post p utcnow source_id uid e).uid ≡ uid
  unfolding new_post
  new_post_uid uid e = refl

  row_of_post :
      (uid j : Text) (e : ScrapedEvent) (o : Option PendingPost) (posts : List PendingPost)
      (s : Summary)
      → post_row uid posts ≡ o
      → post_row j (enqueue_post p utcnow source_id false uid e o posts s).0
        ≡ (if uid == j then some (outcome uid e o) else post_row j posts)
  unfolding enqueue_post outcome
  row_of_post uid j e none posts s h = ground (
    arith,
    get_row-append post_key j posts (new_post p utcnow source_id uid e),
    ==_iff uid j,
    new_post_uid uid e,
  )
  row_of_post uid j e (some r) posts s h = ground (
    arith,
    get_row-modify_row post_key uid j (requeued p utcnow e) posts (λ x. unfold requeued in refl),
    get_row-modify_row post_key uid j (backfilled p e) posts
        (λ x. unfold backfilled in ground arith),
    ==_iff uid j,
  )

  differs-requeued :
      (e f : ScrapedEvent) (r : PendingPost)
      → post_caption p e ≡ post_caption p f
      → post_images p e ≡ post_images p f
      → differs p f (requeued p utcnow e r) ≡ false
  unfolding differs requeued
  differs-requeued e f r h k =
      rw (h, k) (ground (arith, ==_refl (some (post_caption p f)), ==_refl (post_images p f)))

  differs-new_post :
      (uid : Text) (e f : ScrapedEvent)
      → post_caption p e ≡ post_caption p f
      → post_images p e ≡ post_images p f
      → differs p f (new_post p utcnow source_id uid e) ≡ false
  unfolding differs new_post
  differs-new_post uid e f h k =
      rw (h, k) (ground (arith, ==_refl (some (post_caption p f)), ==_refl (post_images p f)))

  differs-outcome :
      (uid : Text) (e f : ScrapedEvent) (o : Option PendingPost)
      → post_caption p e ≡ post_caption p f
      → post_images p e ≡ post_images p f
      → differs p f (outcome uid e o) ≡ false
  unfolding outcome
  differs-outcome uid e f none h k = differs-new_post uid e f h k
  differs-outcome uid e f (some r) h k =
      ground
        (arith, differs-requeued e f r h k, differs-backfilled p e f r, differs_agree p e f r h k)

  matches_after :
      (c d : ℕ) (u w : Text) (e f : ScrapedEvent) (posts : List PendingPost) (s : Summary)
      → (c ∷ u ≡ d ∷ w
          → (post_caption p e ≡ post_caption p f) × (post_images p e ≡ post_images p f))
      → ((c ∷ u ≡ d ∷ w) ⊎ (matches p f (post_row (d ∷ w) posts) ≡ true))
      → matches p f (
          post_row
            (d ∷ w)
            (enqueue_post p utcnow source_id false (c ∷ u) e (post_row (c ∷ u) posts) posts s).0)
        ≡ true
  matches_after c d u w e f posts s agree h =
      let o = post_row (c ∷ u) posts in
      let row = row_of_post (c ∷ u) (d ∷ w) e o posts s refl in
      elim (Bool-cases ((c ∷ u) == (d ∷ w))) [
        | inl eq ↦
            let same = agree ((==_iff (c ∷ u) (d ∷ w)).0 eq) in
            ap (matches p f)
              (row ∙ ap (λ b. if b then some (outcome (c ∷ u) e o) else post_row (d ∷ w) posts) eq)
            ∙ ap not (differs-outcome (c ∷ u) e f o same.0 same.1)
        | inr ne ↦
            ap (matches p f)
              (row ∙ ap (λ b. if b then some (outcome (c ∷ u) e o) else post_row (d ∷ w) posts) ne)
            ∙ ground (arith, ==_iff (c ∷ u) (d ∷ w))
      ]

  -- Whatever the loop does with one post, what is queued stays queued.
  queued_as-enqueue_one :
      (uid v : Option Text) (e f : ScrapedEvent) (posts : List PendingPost) (s : Summary)
      → (uid ≡ v → (post_caption p e ≡ post_caption p f) × (post_images p e ≡ post_images p f))
      → queued_as p v f posts ≡ true
      → queued_as p v f (enqueue_one p utcnow source_id false uid e posts s).0 ≡ true
  unfolding enqueue_one
  queued_as-enqueue_one uid none e f posts s agree h = refl
  queued_as-enqueue_one uid (some []) e f posts s agree h = refl
  queued_as-enqueue_one none (some (d ∷ w)) e f posts s agree h = h
  queued_as-enqueue_one (some []) (some (d ∷ w)) e f posts s agree h = h
  queued_as-enqueue_one (some (c ∷ u)) (some (d ∷ w)) e f posts s agree h =
      matches_after c d u w e f posts s (λ eq. agree (ap some eq)) (inr h)

  -- And the post itself is queued.
  queued_as_self :
      (uid : Option Text) (e : ScrapedEvent) (posts : List PendingPost) (s : Summary)
      → queued_as p uid e (enqueue_one p utcnow source_id false uid e posts s).0 ≡ true
  unfolding enqueue_one
  queued_as_self none e posts s = refl
  queued_as_self (some []) e posts s = refl
  queued_as_self (some (c ∷ u)) e posts s =
      matches_after c c u u e e posts s (λ eq. (refl, refl)) (inl refl)

  enqueue_all-is_queued :
      (es : List ScrapedEvent) (f : ScrapedEvent) (posts : List PendingPost) (s : Summary)
      → All (λ e. Agree p e f) es
      → is_queued p posts f ≡ true
      → is_queued p (enqueue_all p utcnow source_id false es posts s).0 f ≡ true
  unfolding enqueue_all is_queued
  enqueue_all-is_queued [] f posts s agree h = h
  enqueue_all-is_queued (e ∷ es) f posts s agree h =
      let one = enqueue_one p utcnow source_id false e.uid e posts s in
      enqueue_all-is_queued es f one.0 one.1 agree.1
        (queued_as-enqueue_one e.uid f.uid e f posts s agree.0 h)

  enqueue_all-queues :
      (es : List ScrapedEvent) (posts : List PendingPost) (s : Summary)
      → IsConsistent p es
      → All (λ f. is_queued p (enqueue_all p utcnow source_id false es posts s).0 f ≡ true) es
  unfolding enqueue_all
  enqueue_all-queues [] posts s h = tt
  enqueue_all-queues (e ∷ es) posts s h =
      let one = enqueue_one p utcnow source_id false e.uid e posts s in
      (
        enqueue_all-is_queued es e one.0 one.1 h.0
            (unfold is_queued in queued_as_self e.uid e posts s),
        enqueue_all-queues es one.0 one.1 h.1,
      )

  kept_post :
      (uid : Text) (e : ScrapedEvent) (o : Option PendingPost) (posts : List PendingPost)
      (s : Summary)
      → matches p e o ≡ true
      → (enqueue_post p utcnow source_id false uid e o posts s).1
        ≡ record s { unchanged = suc s.unchanged }
  unfolding enqueue_post
  kept_post uid e none posts s h = ground arith
  kept_post uid e (some r) posts s h = ground arith

  -- What the second run makes of a post that is queued.
  kept_summary :
      (uid : Option Text) (e : ScrapedEvent) (posts : List PendingPost) (s : Summary)
      → queued_as p uid e posts ≡ true
      → (enqueue_one p utcnow source_id false uid e posts s).1
        ≡ (if truthy uid then record s { unchanged = suc s.unchanged } else s)
  unfolding enqueue_one
  kept_summary none e posts s h = refl
  kept_summary (some []) e posts s h = refl
  kept_summary (some (c ∷ u)) e posts s h = kept_post (c ∷ u) e (post_row (c ∷ u) posts) posts s h

  abbrev status_in : Text → List PendingPost → Option PostStatus
  status_in j posts = Option.map (λ (r : PendingPost). r.status) (post_row j posts)

  outcome-status :
      (uid : Text) (e : ScrapedEvent) (o : Option PendingPost)
      → matches p e o ≡ true
      → Option.map (λ (r : PendingPost). r.status) o ≡ some ((outcome uid e o).status)
  unfolding outcome backfilled
  outcome-status uid e none h = ground arith
  outcome-status uid e (some r) h = ground arith

  kept_status :
      (uid : Option Text) (j : Text) (e : ScrapedEvent) (posts : List PendingPost) (s : Summary)
      → queued_as p uid e posts ≡ true
      → status_in j (enqueue_one p utcnow source_id false uid e posts s).0 ≡ status_in j posts
  unfolding enqueue_one
  kept_status none j e posts s h = refl
  kept_status (some []) j e posts s h = refl
  kept_status (some (c ∷ u)) j e posts s h =
      let o = post_row (c ∷ u) posts in
      ap (Option.map (λ (r : PendingPost). r.status)) (row_of_post (c ∷ u) j e o posts s refl)
      ∙ ground (arith, ==_iff (c ∷ u) j, outcome-status (c ∷ u) e o h)

  still_queued :
      (es : List ScrapedEvent) (e : ScrapedEvent) (posts : List PendingPost) (s : Summary)
      → All (λ f. Agree p f e) es
      → All (λ f. is_queued p posts f ≡ true) es
      → All (λ f. is_queued p (enqueue_one p utcnow source_id false e.uid e posts s).0 f ≡ true) es
  unfolding is_queued
  still_queued [] e posts s agree h = tt
  still_queued (f ∷ es) e posts s agree h = (
    queued_as-enqueue_one e.uid f.uid e f posts s
        (λ eq. (sym (agree.0 (sym eq)).0, sym (agree.0 (sym eq)).1)) h.0,
    still_queued es e posts s agree.1 h.1,
  )

  enqueue_all-kept :
      (es : List ScrapedEvent) (posts : List PendingPost) (s : Summary)
      → IsConsistent p es
      → All (λ f. is_queued p posts f ≡ true) es
      → let (posts', s') = enqueue_all p utcnow source_id false es posts s in
        (s'.enqueued ≡ s.enqueued)
        × (s'.changed ≡ s.changed)
        × ((j : Text) → status_in j posts' ≡ status_in j posts)
  unfolding enqueue_all is_queued
  enqueue_all-kept [] posts s same h = (refl, refl, λ j. refl)
  enqueue_all-kept (e ∷ es) posts s same h =
      let one = enqueue_one p utcnow source_id false e.uid e posts s in
      let rest = enqueue_all-kept es one.0 one.1 same.1 (still_queued es e posts s same.0 h.1) in
      let first = kept_summary e.uid e posts s h.0 in
      (
        rest.0 ∙ ap (λ (x : Summary). x.enqueued) first ∙ ground arith,
        rest.1 ∙ ap (λ (x : Summary). x.changed) first ∙ ground arith,
        λ j. rest.2 j ∙ kept_status e.uid j e posts s h.0,
      )

-- A feed in which posts of one uid have one caption and one list of image addresses, run a second
-- time with the images hosted under the same addresses as before, enqueues and changes nothing, and
-- every post keeps its status: what was decided stays so.
pub enqueue_again :
    (p : Platform) (utcnow clock_now utcnow' clock_now' : Instant)
    (host host' : List ScrapedEvent → List ScrapedEvent) (source : Source) (result : GathererResult)
    (db : Db) (j : Text)
    → IsConsistent p (host result.events)
    → host' result.events ≡ host result.events
    → let (first, _) = enqueue p utcnow host clock_now source result false db in
      let (second, s) = enqueue p utcnow' host' clock_now' source result false first in
      (s.enqueued ≡ 0)
      × (s.changed ≡ 0)
      × (Option.map (λ (r : PendingPost). r.status) (post_row j second.posts)
          ≡ Option.map (λ (r : PendingPost). r.status) (post_row j first.posts))
unfolding enqueue
enqueue_again p utcnow clock_now utcnow' clock_now' host host' source result db j same hosted =
    let es = host result.events in
    let first = enqueue_all p utcnow source.id false es db.posts nothing_yet in
    let kept =
      enqueue_all-kept p utcnow' source.id es first.0 nothing_yet same
        (enqueue_all-queues p utcnow source.id es db.posts nothing_yet same) in
    rw hosted (kept.0, kept.1, kept.2 j)
