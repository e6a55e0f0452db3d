-- ===== src/Events/Hash.antt =====
-- The content hash of a row agrees with what the row's columns say, so that a feed which repeats
-- the content is recognised.
use ripcale_backend.Prelude.{◌≡◌, List, Text, All, split}
use ripcale_backend.Prelude.Order.{IsAscending, sorted_set_of_IsAscending}
use ripcale_backend.Schema.{ScrapedEvent}
use ripcale_backend.Platform.{Platform}
use ripcale_backend.Platform.Laws.{CodecLaws}
use ripcale_backend.Models.{Event}
use ripcale_backend.Categories.{comma, nonempty}
use ripcale_backend.Categories.Stored.{IsStorable, nonempty-split-join}
use ripcale_backend.Identity.{payload, content_hash, dump_images, dump_exdates}
use ripcale_backend.Identity.Codec.{
  load_images-dump_images, load_exdates-dump_exdates, content_hash_of_payload,
}
use ripcale_backend.Decisionmaker.{stored_names}
use ripcale_backend.Events.{stored_content, recompute_hash}

-- The categories of an event as the categorize stage leaves them.
pub record IsCategorized (e : ScrapedEvent) : Type 0 where
  pub ascending : IsAscending e.categories
  pub storable : All IsStorable e.categories

-- The row's columns were written from the event.
pub record HasContent (p : Platform) (e : ScrapedEvent) (row : Event) : Type 0 where
  pub title : row.title ≡ e.title
  pub description : row.description ≡ e.description
  pub location : row.location ≡ e.location
  pub url : row.url ≡ e.url
  pub images : row.images ≡ dump_images p e.images
  pub start_at : row.start_at ≡ e.start_at
  pub end_at : row.end_at ≡ e.end_at
  pub timezone : row.timezone ≡ e.timezone
  pub all_day : row.all_day ≡ e.all_day
  pub rrule : row.rrule ≡ e.rrule
  pub exdates : row.exdates ≡ dump_exdates p e.exdates
  pub categories : row.categories ≡ stored_names e.categories

read_names :
    (names : List Text)
    → IsAscending names
    → All IsStorable names
    → nonempty (split comma (stored_names names)) ≡ names
read_names names h k = rw (sorted_set_of_IsAscending names h) (nonempty-split-join names k)

module _ (p : Platform) (laws : CodecLaws p) (e : ScrapedEvent) (ready : IsCategorized e) where
  -- The hash that an edit computes from the columns is the hash that the sieve computes from the
  -- event, for a row that was written from a categorized event.
  pub recompute_hash_of_HasContent :
      (row : Event) → HasContent p e row → recompute_hash p row ≡ content_hash p e
  unfolding recompute_hash stored_content
  recompute_hash_of_HasContent row h = content_hash_of_payload p (stored_content p row) e (
      unfold payload in
      rw (h.title, h.description, h.location, h.url, h.start_at, h.end_at, h.timezone)
        (rw (h.all_day, h.rrule, h.images, h.exdates, h.categories)
          (rw (
            load_images-dump_images p e.images laws,
            load_exdates-dump_exdates p e.exdates laws,
            read_names e.categories ready.ascending ready.storable,
          ))))
