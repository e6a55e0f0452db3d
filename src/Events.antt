-- ===== src/Events.antt =====
-- services/events.py: queries and edits of stored events.
pub mod Hash
pub mod Query
use ripcale_backend.Prelude.{
  ℕ, Bool, true, false, ◌&&◌, ◌||◌, not, List, [], ◌∷◌, Option, none, some, Text, is_empty, ◌==◌,
  nat_eq, list_eq, option_eq, if◌then◌else◌, keep, contains, take, split, is_none, is_some,
}
use ripcale_backend.Prelude.Int.{leb_ℤ, ltb_ℤ}
use ripcale_backend.Prelude.Order.{sort_by}
use ripcale_backend.Schema.{Instant, ScrapedEvent}
use ripcale_backend.Settings.{IntakeSettings}
use ripcale_backend.Platform.{Platform}
use ripcale_backend.Models.{Event, event_key, event_row, Db}
use ripcale_backend.Table.{modify_row}
use ripcale_backend.Categories.{comma, nonempty, resolve_event_categories}
use ripcale_backend.Identity.{content_hash, load_images, load_exdates}
use ripcale_backend.Expiry.{or_option}
use ripcale_backend.Prelude.Int.{ℤ}

-- `coalesce(end_at, start_at) >= start`: a row without a value is left out.
abbrev at_or_after : Option Instant → Option Instant → Bool
at_or_after bound none = is_none bound
at_or_after none (some t) = true
at_or_after (some b) (some t) = leb_ℤ b t

abbrev at_or_before : Option Instant → Option Instant → Bool
at_or_before bound none = is_none bound
at_or_before none (some t) = true
at_or_before (some b) (some t) = leb_ℤ t b

-- `ORDER BY start_at DESC`: SQLite puts NULL last. Equal rows stay in the order of the table.
abbrev pub start_le : Option Instant → Option Instant → Bool
start_le none y = true
start_le (some s) none = false
start_le (some s) (some t) = leb_ℤ s t

abbrev pub earlier_first : Event → Event → Bool
earlier_first a b = start_le a.start_at b.start_at

abbrev pub later_first : Event → Event → Bool
later_first a b = start_le b.start_at a.start_at

-- `limit=None` and `limit=0` are no limit.
abbrev pub capped {ℓ} : {A : Type ℓ} → Option ℕ → List A → List A
capped none l = l
capped (some limit) l = if limit == 0 then l else take limit l

abbrev pub in_category : IntakeSettings → Option Text → Event → Bool
in_category intake none e = true
in_category intake (some c) e = contains c (resolve_event_categories intake e.categories)

pub selects : Option Instant → Option Instant → Bool → Event → Bool
selects start end exclude_redirects e =
    is_none e.archived_at
    && (not exclude_redirects || is_none e.redirect_to_id)
    && at_or_after start (or_option e.end_at e.start_at)
    && at_or_before end (or_option e.start_at e.end_at)

pub query_events :
    IntakeSettings
    → Db
    → Option Instant
    → Option Instant
    → Option Text
    → Option ℕ
    → Bool
    → List Event
unfolding selects
query_events intake db start end category limit exclude_redirects = capped limit (
    keep (in_category intake category)
      (sort_by later_first (keep (selects start end exclude_redirects) db.events)))

abbrev live : Option Event → Option Event
live none = none
live (some e) = if is_some e.archived_at then none else some e

-- Archived events are hidden from the read path.
pub get_event : Db → Text → Option Event
get_event db event_id = live (event_row event_id db.events)

pub set_pinned : Text → Bool → Db → Db × Bool
set_pinned event_id pinned db = (
  record db {
    events = modify_row event_key event_id (λ e. record e { pinned = pinned }) db.events;
  },
  is_some (event_row event_id db.events),
)

-- One entry of the dict that `update_event` takes, its value already coerced. A key outside the
-- editable fields is dropped.
pub data Edit : Type 0 where
  title : Text → Edit
  description location url timezone rrule redirect_to_id : Option Text → Edit
  images exdates categories : Text → Edit
  start_at end_at recurrence_id : Option Instant → Edit
  all_day : Bool → Edit
  priority : Option ℤ → Edit
  not_editable : Text → Edit

unfoldable pub set_field : Edit → Event → Event
set_field (title v) e = record e { title = v }
set_field (description v) e = record e { description = v }
set_field (location v) e = record e { location = v }
set_field (url v) e = record e { url = v }
set_field (timezone v) e = record e { timezone = v }
set_field (rrule v) e = record e { rrule = v }
set_field (redirect_to_id v) e = record e { redirect_to_id = v }
set_field (images v) e = record e { images = v }
set_field (exdates v) e = record e { exdates = v }
set_field (categories v) e = record e { categories = v }
set_field (start_at v) e = record e { start_at = v }
set_field (end_at v) e = record e { end_at = v }
set_field (recurrence_id v) e = record e { recurrence_id = v }
set_field (all_day v) e = record e { all_day = v }
set_field (priority v) e = record e { priority = v }
set_field (not_editable key) e = e

unfoldable pub set_fields : List Edit → Event → Event
set_fields [] e = e
set_fields (f ∷ fs) e = set_fields fs (set_field f e)

module _ (p : Platform) where
  -- The content of a row, as the gatherer's format has it.
  pub stored_content : Event → ScrapedEvent
  stored_content e = record {
    uid = none;
    title = e.title;
    description = e.description;
    location = e.location;
    url = e.url;
    images = load_images p e.images;
    start_at = e.start_at;
    end_at = e.end_at;
    timezone = e.timezone;
    all_day = e.all_day;
    rrule = e.rrule;
    recurrence_id = e.recurrence_id;
    exdates = load_exdates p e.exdates;
    categories = nonempty (split comma e.categories);
  }

  pub recompute_hash : Event → Text
  recompute_hash e = content_hash p (stored_content e)

  unfoldable pub edited : Instant → List Edit → Bool → Event → Event
  edited utcnow fields pinned e =
      let changed = set_fields fields e in
      record changed { pinned = pinned; updated_at = utcnow; content_hash = recompute_hash changed }

  -- The row after the edit, or `None` where there is no such row.
  unfoldable pub update_event : Instant → Text → List Edit → Bool → Db → Db × Option Event
  unfolding edited
  update_event utcnow event_id fields pinned db =
      let events = modify_row event_key event_id (edited utcnow fields pinned) db.events in
      (record db { events = events }, event_row event_id events)
