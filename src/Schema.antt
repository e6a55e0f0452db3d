-- ===== src/Schema.antt =====
-- schema.py: the values that flow through the pipeline. `ScrapedEvent.raw` is left out: it is kept
-- for debugging, and no modelled code reads it.
use ripcale_backend.Prelude.{
  Bool, ◌&&◌, ◌≡◌, ◌↔◌, List, Option, Text, Eq, ◌==◌, ==_iff, nat_eq, option_eq, list_eq, arith, ℕ,
  true,
}
use ripcale_backend.Prelude.Int.{ℤ}

-- A naive UTC `datetime`, in microseconds.
abbrev pub Instant : Type 0
Instant = ℤ

pub data Mode : Type 0 where
  regex assign : Mode

pub record CategoryRule : Type 0 where
  pub mode : Mode
  pub fields : List Text
  pub pattern : Option Text
  pub categories : List Text

pub record GathererConfig : Type 0 where
  pub priority : ℤ
  pub rules : List CategoryRule

pub record RecurrenceConfig : Type 0 where
  pub title : Text
  pub rrule : Text
  pub start_at : Text
  pub timezone : Option Text
  pub location : Option Text
  pub description : Option Text

pub record SourceConfig : Type 0 where
  pub name : Text
  pub gatherer : Text
  pub url : Text
  pub is_public : Bool
  pub priority : Option ℤ
  pub default_categories : List Text
  pub default_location : Option Text
  pub rules : List CategoryRule
  pub llm_context : Option Text
  pub recurrences : List RecurrenceConfig

pub record ImageRef : Type 0 where
  pub url : Text
  pub alt : Option Text
  pub source_url : Option Text

abbrev image_beq : ImageRef → ImageRef → Bool
image_beq a b = (a.url == b.url) && ((a.alt == b.alt) && (a.source_url == b.source_url))

pub image_beq_iff : (a b : ImageRef) → (image_beq a b ≡ true) ↔ (a ≡ b)
image_beq_iff a b =
    ground (arith, ==_iff a.url b.url, ==_iff a.alt b.alt, ==_iff a.source_url b.source_url)

instance abbrev pub image_eq : Eq ImageRef
image_eq = record { same = image_beq; same_iff = image_beq_iff }

pub record ScrapedEvent : Type 0 where
  pub uid : Option Text
  pub title : Text
  pub description : Option Text
  pub location : Option Text
  pub url : Option Text
  pub images : List ImageRef
  pub start_at : Option Instant
  pub end_at : Option Instant
  pub timezone : Option Text
  pub all_day : Bool
  pub rrule : Option Text
  pub recurrence_id : Option Instant
  pub exdates : List Instant
  pub categories : List Text

pub record GathererResult : Type 0 where
  pub source : SourceConfig
  pub events : List ScrapedEvent

pub record ClassifiedEvent : Type 0 where
  pub id : Text
  pub content_hash : Text
  pub event : ScrapedEvent
  pub changed_fields : List Text

pub record SieveResult : Type 0 where
  pub source : SourceConfig
  pub new : List ClassifiedEvent
  pub updated : List ClassifiedEvent
  pub unchanged : ℕ
  pub unchanged_ids : List Text
  pub archived_ids : List Text
  pub conflicts : List ClassifiedEvent
  pub dropped : ℕ
