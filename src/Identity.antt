-- ===== src/Identity.antt =====
-- identity.py and the column codecs of schema.py.
pub mod Codec
pub mod Keys
use ripcale_backend.Prelude.{
  ◌≡◌, Bool, true, false, List, [], ◌∷◌, ◌++◌, map, Option, none, some, Text, codes, is_empty,
  if◌then◌else◌, or_else,
}
use mathlib.Core.Option
use ripcale_backend.Prelude.Order.{sort_by, text_le}
use ripcale_backend.Schema.{Instant, ImageRef, ScrapedEvent}
use ripcale_backend.Platform.{Platform, Payload}

-- `x` where it is set and not empty
abbrev pub truthy : Option Text → Bool
truthy none = false
truthy (some []) = false
truthy (some (c ∷ s)) = true

module _ (p : Platform) where
  -- `start_at.isoformat() if start_at else ""`
  abbrev start_text : Option Instant → Text
  start_text none = []
  start_text (some t) = p.isoformat t

  base_key : Text → ScrapedEvent → Option Text → Text
  base_key source_name event (some (c ∷ u)) = source_name ++ (b':' ∷ c ∷ u)
  base_key source_name event _ =
      source_name ++ (b':' ∷ (event.title ++ (b'|' ∷ start_text event.start_at)))

  abbrev recurrence_suffix : Option Instant → Text
  recurrence_suffix none = []
  recurrence_suffix (some t) = b':' ∷ p.isoformat t

  -- The text that `stable_id` hashes.
  unfoldable pub identity_key : Text → ScrapedEvent → Text
  unfolding base_key
  identity_key source_name event =
      base_key source_name event event.uid ++ recurrence_suffix event.recurrence_id

  unfoldable pub stable_id : Text → ScrapedEvent → Text
  stable_id source_name event = p.sha256 (identity_key source_name event)

  unfoldable pub payload : ScrapedEvent → Payload
  payload event = record {
    title = event.title;
    description = event.description;
    location = event.location;
    url = event.url;
    images = map (λ (img : ImageRef). img.url) event.images;
    start_at = Option.map p.isoformat event.start_at;
    end_at = Option.map p.isoformat event.end_at;
    timezone = event.timezone;
    all_day = event.all_day;
    rrule = event.rrule;
    exdates = sort_by text_le (map p.isoformat event.exdates);
    categories = sort_by text_le event.categories;
  }

  unfoldable pub content_hash : ScrapedEvent → Text
  content_hash event = p.sha256 (p.dumps_payload (payload event))

  unfoldable pub dump_images : List ImageRef → Text
  dump_images images = p.dumps_images images

  unfoldable pub load_images : Text → List ImageRef
  load_images value = if is_empty value then [] else or_else (p.loads_images value) []

  unfoldable pub dump_exdates : List Instant → Text
  dump_exdates exdates = p.dumps_exdates exdates

  unfoldable pub load_exdates : Text → List Instant
  load_exdates value = if is_empty value then [] else or_else (p.loads_exdates value) []
