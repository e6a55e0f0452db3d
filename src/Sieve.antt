-- ===== src/Sieve.antt =====
-- sieve/sieve.py: what is new, changed or unchanged against the database. It writes nothing.
pub mod Verdict
pub mod Kept
use ripcale_backend.Prelude.{
  ℕ, Bool, true, false, ◌&&◌, ◌||◌, not, List, [], ◌∷◌, ◌++◌, map, Option, none, some, Text, codes,
  is_empty, ◌==◌, nat_eq, bool_eq, list_eq, option_eq, if◌then◌else◌, keep, length, ◌-◌, suc,
  is_none, is_some, split, ◌+◌,
}
use ripcale_backend.Prelude.Int.{int_eq}
use ripcale_backend.Prelude.Order.{sort_by, text_le}
use ripcale_backend.Schema.{
  Instant, SourceConfig, ScrapedEvent, image_eq, GathererResult, ClassifiedEvent, SieveResult,
}
use ripcale_backend.Settings.{Settings}
use ripcale_backend.Platform.{Platform}
use ripcale_backend.Models.{Event, event_row, Db}
use ripcale_backend.Categories.{comma}
use ripcale_backend.Identity.{truthy, stable_id, content_hash, load_images, load_exdates}
use ripcale_backend.Expiry.{is_relevant}

abbrev pub blank_location : Platform → Option Text → Bool
blank_location p none = true
blank_location p (some s) = is_empty s || p.is_blank s

-- The names of the pairs whose values differ, in order.
abbrev differing : List (Text × Bool) → List Text
differing fields = map (λ (f : Text × Bool). f.0) (keep (λ (f : Text × Bool). f.1) fields)

abbrev stored_categories : Text → List Text
stored_categories s = if is_empty s then [] else sort_by text_le (split comma s)

module _ (p : Platform) where
  relevant_event : Settings → Instant → ScrapedEvent → Bool
  relevant_event settings now e =
      is_relevant p e.start_at e.end_at e.rrule now settings.expire_past_days
        settings.expire_future_days

  unfoldable pub relevance : Settings → List ScrapedEvent → Instant → List ScrapedEvent
  unfolding relevant_event
  relevance settings events now =
      if is_none settings.expire_past_days && is_none settings.expire_future_days
      then events
      else keep (relevant_event settings now) events

  -- `event.location = default`, where the location is missing or blank
  with_default : Option Text → ScrapedEvent → ScrapedEvent
  with_default default e =
      if blank_location p e.location then record e { location = default } else e

  unfoldable pub merge_default_location : List ScrapedEvent → Option Text → List ScrapedEvent
  unfolding with_default
  merge_default_location events default =
      if truthy default then map (with_default default) events else events

  pub changed_fields : ScrapedEvent → Event → List Text
  changed_fields event old = differing (
      (codes "title", not (event.title == old.title))
      ∷ (codes "description", not (event.description == old.description))
      ∷ (codes "location", not (event.location == old.location))
      ∷ (codes "url", not (event.url == old.url))
      ∷ (codes "images", not (event.images == load_images p old.images))
      ∷ (codes "start_at", not (event.start_at == old.start_at))
      ∷ (codes "end_at", not (event.end_at == old.end_at))
      ∷ (codes "timezone", not (event.timezone == old.timezone))
      ∷ (codes "all_day", not (event.all_day == old.all_day))
      ∷ (codes "rrule", not (event.rrule == old.rrule))
      ∷ (codes "exdates", not (event.exdates == load_exdates p old.exdates))
      ∷ (
        codes "categories",
        not (sort_by text_le event.categories == stored_categories old.categories),
      )
      ∷ [])

  abbrev pub classified : Text → ScrapedEvent → List Text → ClassifiedEvent
  classified id event changed = record {
    id = id;
    content_hash = content_hash p event;
    event = event;
    changed_fields = changed;
  }

  -- One round of the loop; `rest` holds what the later rounds append.
  pub place : Text → ScrapedEvent → Option Event → SieveResult → SieveResult
  place id event none rest = record rest { new = classified id event [] ∷ rest.new }
  place id event (some old) rest =
      let as_changed = classified id event (changed_fields event old) in
      if is_some old.archived_at
      then record rest { archived_ids = id ∷ rest.archived_ids }
      else if old.pinned
      then (if not (old.content_hash == content_hash p event)
          then record rest {
            conflicts = as_changed ∷ rest.conflicts;
            unchanged_ids = id ∷ rest.unchanged_ids;
          }
          else record rest {
            unchanged = suc rest.unchanged;
            unchanged_ids = id ∷ rest.unchanged_ids;
          })
      else if not (old.content_hash == content_hash p event)
      then record rest { updated = as_changed ∷ rest.updated }
      else record rest { unchanged = suc rest.unchanged; unchanged_ids = id ∷ rest.unchanged_ids }

  abbrev pub no_verdict : SourceConfig → ℕ → SieveResult
  no_verdict source dropped = record {
    source = source;
    new = [];
    updated = [];
    unchanged = 0;
    unchanged_ids = [];
    archived_ids = [];
    conflicts = [];
    dropped = dropped;
  }

  pub classify_from : List Event → SourceConfig → ℕ → List ScrapedEvent → SieveResult
  unfolding place
  classify_from rows source dropped [] = no_verdict source dropped
  classify_from rows source dropped (e ∷ es) =
      let id = stable_id p source.name e in
      place id e (event_row id rows) (classify_from rows source dropped es)

  -- The events as the loop sees them: the relevant ones, their locations filled in.
  unfoldable pub incoming : Settings → GathererResult → Instant → List ScrapedEvent
  incoming settings result now =
      merge_default_location (relevance settings result.events now) result.source.default_location

  unfoldable pub classify : Settings → Db → GathererResult → Instant → SieveResult
  unfolding incoming classify_from
  classify settings db result now =
      classify_from db.events result.source
        (length result.events - length (relevance settings result.events now))
        (incoming settings result now)
