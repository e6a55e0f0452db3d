-- ===== src/Llm.antt =====
-- services/llm.py: what the model decides on a post, and how its answer becomes the columns of an
-- event. The calls of the model are in Llm/Worker, the writes in Llm/Apply.
pub mod Apply
pub mod Consult
pub mod Worker
pub mod Settled
pub mod Frame
pub mod Retries
pub mod Again
use ripcale_backend.Prelude.{
  ℕ, Bool, true, false, ◌||◌, not, List, [], ◌∷◌, ◌++◌, Option, none, some, Text, codes, ◌==◌,
  nat_eq, list_eq, if◌then◌else◌, is_none, is_some, or_else, contains, join,
}
use ripcale_backend.Prelude.Int.{int_eq}
use ripcale_backend.Schema.{Instant, ScrapedEvent}
use ripcale_backend.Platform.{Platform, Stamp, naive, aware}
use ripcale_backend.Models.{Event, PendingPost}
use ripcale_backend.Result.{Result, ok, ◌>>=◌}
use ripcale_backend.Timeutil.{to_utc_naive}
use ripcale_backend.Categories.{comma}
use ripcale_backend.Identity.{stable_id, content_hash, dump_images, load_images, dump_exdates}
use ripcale_backend.Recurrence.Expand.{occurrences}

pub record EventFields : Type 0 where
  pub title : Text
  pub description : Option Text
  pub location : Option Text
  pub start_at : Option Text
  pub end_at : Option Text
  pub timezone : Option Text
  pub all_day : Bool
  pub categories : List Text

pub record RecurrenceFields : Type 0 where
  pub title : Text
  pub rrule : Option Text
  pub start_at : Option Text
  pub timezone : Option Text
  pub location : Option Text
  pub description : Option Text

pub data Action : Type 0 where
  create modify delete ignore add_recurrence remove_recurrence : Action

pub record Decision : Type 0 where
  pub action : Action
  pub event : Option EventFields
  pub recurrence : Option RecurrenceFields
  pub match_id : Option Text
  pub recurrence_id : Option Text
  pub reason : Text

-- `value.replace("Z", "+00:00")`
pub utc_marked : Text → Text
utc_marked [] = []
utc_marked (c ∷ s) = (if c == b'Z' then codes "+00:00" else c ∷ []) ++ utc_marked s

module _ (p : Platform) where
  abbrev pub localized : Instant → Option (Instant → Instant) → Stamp
  localized t none = naive t
  localized t (some offset) = aware t (offset t)

  -- A naive time is taken in the zone, if that is a zone.
  unfoldable pub in_zone : Option Text → Stamp → Stamp
  in_zone (some (c ∷ tz)) (naive t) = localized t (p.zone (c ∷ tz))
  in_zone tz stamp = stamp

  abbrev utc_in : Option Text → Option Stamp → Result (Option Instant)
  utc_in tz none = ok none
  utc_in tz (some stamp) = to_utc_naive (in_zone tz stamp) >>= λ t. ok (some t)

  -- The conversion to UTC stands outside the `try`.
  unfoldable pub parse_dt : Option Text → Option Text → Result (Option Instant)
  unfolding utc_marked in_zone
  parse_dt none tz = ok none
  parse_dt (some []) tz = ok none
  parse_dt (some (c ∷ value)) tz = utc_in tz (p.fromisoformat (utc_marked (c ∷ value)))

  abbrev pub scraped :
      PendingPost
      → EventFields
      → List Text
      → Option Text
      → Option Instant
      → Option Instant
      → Option Instant
      → ScrapedEvent
  scraped post f categories uid recurrence_id start_at end_at = record {
    uid = uid;
    title = f.title;
    description = f.description;
    location = f.location;
    url = post.url;
    images = load_images p post.images;
    start_at = start_at;
    end_at = end_at;
    timezone = f.timezone;
    all_day = f.all_day;
    rrule = none;
    recurrence_id = recurrence_id;
    exdates = [];
    categories = categories;
  }

  unfoldable pub scraped_of :
      PendingPost → EventFields → List Text → Option Text → Option Instant → Result ScrapedEvent
  scraped_of post f categories uid recurrence_id = do
    start_at ← parse_dt f.start_at f.timezone
    end_at ← parse_dt f.end_at f.timezone
    ok (scraped post f categories uid recurrence_id start_at end_at)

  -- True where there is no recurrence to check against.
  abbrev checks_rule : Option Text → Option Instant → Bool
  checks_rule none start = false
  checks_rule (some []) start = false
  checks_rule (some (c ∷ rule)) start = is_some start

  unfoldable pub is_occurrence : Event → Instant → Bool
  is_occurrence master rid =
      if checks_rule master.rrule master.start_at
      then contains rid (occurrences p master.rrule master.start_at master.timezone 400 none)
      else true

module _ (p : Platform) (clock_now utcnow : Instant) where
  unfoldable pub event_from_scraped : PendingPost → Text → ScrapedEvent → List Text → Event
  event_from_scraped post source_name e categories = record {
    id = stable_id p source_name e;
    source_id = post.source_id;
    uid = e.uid;
    title = e.title;
    description = e.description;
    location = e.location;
    geo = none;
    url = e.url;
    images = dump_images p e.images;
    start_at = e.start_at;
    end_at = e.end_at;
    timezone = e.timezone;
    all_day = e.all_day;
    rrule = e.rrule;
    recurrence_id = e.recurrence_id;
    exdates = dump_exdates p e.exdates;
    redirect_to_id = none;
    priority = none;
    categories = join comma categories;
    content_hash = content_hash p e;
    last_seen_at = some clock_now;
    archived_at = none;
    archived_reason = none;
    pinned = true;
    placeholder = false;
    created_at = utcnow;
    updated_at = utcnow;
  }

  abbrev restated {ℓ} : {A : Type ℓ} → Option A → Option A → Option A
  restated none old = old
  restated (some a) old = some a

  unfoldable pub overwrite : ScrapedEvent → List Text → Event → Event
  overwrite e categories old = record old {
    title = e.title;
    description = e.description;
    location = e.location;
    url = e.url;
    images = dump_images p e.images;
    start_at = e.start_at;
    end_at = e.end_at;
    timezone = e.timezone;
    all_day = e.all_day;
    rrule = restated e.rrule old.rrule;
    recurrence_id = restated e.recurrence_id old.recurrence_id;
    categories = join comma categories;
    content_hash = content_hash p e;
    pinned = true;
    updated_at = utcnow;
  }
