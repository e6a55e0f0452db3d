-- ===== src/Decisionmaker/Content.antt =====
-- The rows that the decisionmaker writes have the content of their event, and a hash that agrees.
use ripcale_backend.Prelude.{ℕ, ◌≡◌, refl, sym, ◌∙◌}
use ripcale_backend.Schema.{Instant, ScrapedEvent, ClassifiedEvent}
use ripcale_backend.Platform.{Platform}
use ripcale_backend.Platform.Laws.{CodecLaws}
use ripcale_backend.Models.{Event}
use ripcale_backend.Identity.{content_hash}
use ripcale_backend.Decisionmaker.{new_event, apply_update}
use ripcale_backend.Events.{recompute_hash}
use ripcale_backend.Events.Hash.{IsCategorized, HasContent, recompute_hash_of_HasContent}

module _ (p : Platform) (e : ScrapedEvent) where
  pub new_event-HasContent :
      (run_ts utcnow : Instant) (source_id : ℕ) (c : ClassifiedEvent)
      → c.event ≡ e
      → HasContent p e (new_event p run_ts utcnow source_id c)
  unfolding new_event
  new_event-HasContent run_ts utcnow source_id c h = rw h (record {
    title = refl;
    description = refl;
    location = refl;
    url = refl;
    images = refl;
    start_at = refl;
    end_at = refl;
    timezone = refl;
    all_day = refl;
    rrule = refl;
    exdates = refl;
    categories = refl;
  })

  pub apply_update-HasContent :
      (run_ts utcnow : Instant) (c : ClassifiedEvent) (old : Event)
      → c.event ≡ e
      → HasContent p e (apply_update p run_ts utcnow c old)
  unfolding apply_update
  apply_update-HasContent run_ts utcnow c old h = rw h (record {
    title = refl;
    description = refl;
    location = refl;
    url = refl;
    images = refl;
    start_at = refl;
    end_at = refl;
    timezone = refl;
    all_day = refl;
    rrule = refl;
    exdates = refl;
    categories = refl;
  })

-- For JSON that reads back what it wrote, and a verdict on a categorized event that carries the
-- hash of it: the hash of the row that is inserted, and of a row that is updated, is the one that
-- an edit without changes would compute from its columns.
pub written_hash :
    (p : Platform) (run_ts utcnow : Instant) (source_id : ℕ) (c : ClassifiedEvent) (old : Event)
    → CodecLaws p
    → IsCategorized c.event
    → c.content_hash ≡ content_hash p c.event
    → ((new_event p run_ts utcnow source_id c).content_hash
        ≡ recompute_hash p (new_event p run_ts utcnow source_id c))
      × ((apply_update p run_ts utcnow c old).content_hash
          ≡ recompute_hash p (apply_update p run_ts utcnow c old))
written_hash p run_ts utcnow source_id c old laws ready h =
    let inserted = new_event p run_ts utcnow source_id c in
    let updated = apply_update p run_ts utcnow c old in
    let first =
      recompute_hash_of_HasContent p laws c.event ready inserted
        (new_event-HasContent p c.event run_ts utcnow source_id c refl) in
    let second =
      recompute_hash_of_HasContent p laws c.event ready updated
        (apply_update-HasContent p c.event run_ts utcnow c old refl) in
    unfold new_event apply_update in (h ∙ sym first, h ∙ sym second)
