-- ===== src/Platform.antt =====
-- What the modelled code calls and does not implement: hashing, JSON, ISO dates, regular
-- expressions and `dateutil`. Each is a function of this record; what a theorem needs of them is a
-- hypothesis that `Laws` names.
pub mod Laws
use ripcale_backend.Prelude.{◌≡◌, Bool, true, List, [], ◌∷◌, Option, none, some, Text, ◌≢◌}
use ripcale_backend.Prelude.Int.{ℤ}
use ripcale_backend.Schema.{Instant, ImageRef, ScrapedEvent}

-- The dict that `content_hash` hands to `json.dumps`.
pub record Payload : Type 0 where
  pub title : Text
  pub description : Option Text
  pub location : Option Text
  pub url : Option Text
  pub images : List Text
  pub start_at : Option Text
  pub end_at : Option Text
  pub timezone : Option Text
  pub all_day : Bool
  pub rrule : Option Text
  pub exdates : List Text
  pub categories : List Text

-- A `datetime`: naive, or aware with its local time and its `utcoffset`.
pub data Stamp : Type 0 where
  naive : Instant → Stamp
  aware : Instant → ℤ → Stamp

pub record Platform : Type 0 where
  -- `hashlib.sha256(text.encode("utf-8")).hexdigest()`
  pub sha256 : Text → Text
  -- `json.dumps(payload, sort_keys=True, ensure_ascii=False)`
  pub dumps_payload : Payload → Text
  -- `json.dumps` and `json.loads` of a list of images, of a list of instants as ISO texts, and of
  -- an event; a text that does not parse has no value
  pub dumps_images : List ImageRef → Text
  pub loads_images : Text → Option (List ImageRef)
  pub dumps_exdates : List Instant → Text
  pub loads_exdates : Text → Option (List Instant)
  pub dumps_event : ScrapedEvent → Text
  pub loads_event : Text → Option ScrapedEvent
  pub dumps_names : List Text → Text
  -- `datetime.isoformat()`
  pub isoformat : Instant → Text
  -- `re.compile(pattern)`, and the search that the compiled pattern makes
  pub compile : Text → Option (Text → Bool)
  -- `not s.strip()`
  pub is_blank : Text → Bool
  -- the last occurrence that `rrulestr(rule, dtstart=start)` yields, if the rule parses and ends
  pub last_of_rule : Text → Instant → Option Instant
  -- `datetime.fromisoformat(text)`, unless it raises
  pub fromisoformat : Text → Option Stamp
  -- `ZoneInfo(name)`, unless it raises: the offset from UTC of a local time
  pub zone : Text → Option (Instant → ℤ)
  -- `strptime(text, "%Y%m%dT%H%M%S")`, unless it raises, and the two halves that `strftime` writes
  pub strptime : Text → Option Instant
  pub strftime_date : Instant → Text
  pub strftime_time : Instant → Text
  -- whether `rrulestr(rule)` parses
  pub is_rule : Text → Bool
  -- the steps of `for occ in rrulestr(rule, dtstart=…)`, if the rule parses; the start is in UTC, to
  -- be taken in the named zone, or in UTC. A step may raise. The steps end, since a `datetime` does
  -- not go beyond the year 9999.
  pub expand : Text → Instant → Option Text → Option (List (Option Stamp))
