-- ===== src/Tests/Samples.antt =====
-- A platform, settings, an intake file, a source, events and databases to run the definitions on.
use ripcale_backend.Prelude.{
  Bool, true, false, List, [], ◌∷◌, ◌++◌, Option, none, some, Text, codes, length, arith,
}
use ripcale_backend.Prelude.Int.{pos}
use ripcale_backend.Result.{ok, err, failure}
use ripcale_backend.Schema.{Instant, SourceConfig, ScrapedEvent, GathererResult}
use ripcale_backend.Settings.{Settings, IntakeSettings}
use ripcale_backend.Platform.{Platform, naive}
use ripcale_backend.Platform.Laws.{CodecLaws}
use ripcale_backend.Models.{Source, Event, EventConflict, ConflictStatus, Db}
use ripcale_backend.Ingest.{World}
use ripcale_backend.Tests.Codec.{image, int, write_list, read_list, list_back}

-- Nothing collides: the hash is its argument.
abbrev pub platform : Platform
platform = record {
  sha256 = λ s. s;
  dumps_payload = λ c. c.title ++ (0 ∷ length c.categories ∷ []);
  dumps_images = write_list image;
  loads_images = read_list image;
  dumps_exdates = write_list int;
  loads_exdates = read_list int;
  dumps_event = λ e. e.title;
  loads_event = λ s. none;
  dumps_names = λ l. length l ∷ [];
  isoformat = λ t. codes "T";
  compile = λ s. none;
  is_blank = λ s. false;
  last_of_rule = λ rule start. none;
  fromisoformat = λ s. some (naive (pos (length s)));
  zone = λ s. none;
  strptime = λ s. none;
  strftime_date = λ t. [];
  strftime_time = λ t. [];
  is_rule = λ s. true;
  expand = λ rule start tz. some (some (naive start) ∷ some (naive (pos 9)) ∷ []);
}

pub platform_laws : CodecLaws platform
platform_laws = record {
  images_back = list_back image;
  images_text = λ l e. unfold write_list in ground arith;
  exdates_back = list_back int;
  exdates_text = λ l e. unfold write_list in ground arith;
}

abbrev pub settings : Settings
settings = record {
  expire_past_days = some (pos 30);
  expire_future_days = none;
  archive_grace_hours = some (pos 24);
  ingest_interval_minutes = some 60;
  backup_count = pos 2;
  deepseek_key = codes "key";
  llm_enabled = true;
  llm_max_per_tick = 5;
  llm_context_events = 50;
  llm_max_attempts = 3;
  llm_max_images = 2;
  llm_stale_processing_seconds = 600;
}

abbrev pub club : SourceConfig
club = record {
  name = codes "club";
  gatherer = codes "ics";
  url = codes "u";
  is_public = true;
  priority = none;
  default_categories = codes "Music" ∷ [];
  default_location = none;
  rules = [];
  llm_context = none;
  recurrences = [];
}

abbrev pub intake : IntakeSettings
intake = record {
  sources = club ∷ [];
  gatherers = [];
  category_symlinks = [];
  category_definitions = [];
  exposed_classes = [];
  rules = [];
}

abbrev pub event : Text → Text → ScrapedEvent
event uid title = record {
  uid = some uid;
  title = title;
  description = some title;
  location = none;
  url = none;
  images = record { url = codes "i"; alt = none; source_url = none } ∷ [];
  start_at = some (pos 7);
  end_at = none;
  timezone = none;
  all_day = false;
  rrule = none;
  recurrence_id = none;
  exdates = pos 3 ∷ [];
  categories = codes "genre:music" ∷ [];
}

abbrev pub feed : GathererResult
feed = record { source = club; events = event (codes "a") (codes "A") ∷ [] }

abbrev pub source : Source
source = record {
  id = 1;
  name = codes "club";
  url = codes "u";
  gatherer = codes "ics";
  is_public = true;
  default_categories = [];
  enabled = true;
  llm_context = none;
  last_fetched_at = some (pos 5);
  created_at = pos 0;
}

-- A stored event of the key, with a hash of its own.
abbrev pub row : Text → Bool → Option Instant → Event
row id pinned archived_at = record {
  id = id;
  source_id = 1;
  uid = some (codes "a");
  title = codes "A";
  description = none;
  location = none;
  geo = none;
  url = none;
  images = [];
  start_at = some (pos 7);
  end_at = none;
  timezone = none;
  all_day = false;
  rrule = none;
  recurrence_id = none;
  exdates = [];
  redirect_to_id = none;
  priority = none;
  categories = [];
  content_hash = codes "old";
  last_seen_at = none;
  archived_at = archived_at;
  archived_reason = none;
  pinned = pinned;
  placeholder = false;
  created_at = pos 0;
  updated_at = pos 0;
}

abbrev pub conflict : EventConflict
conflict = record {
  id = codes "c";
  event_id = codes "club:a";
  incoming = codes "j";
  changed_fields = [];
  status = ConflictStatus.pending;
  created_at = pos 0;
  updated_at = pos 0;
  resolved_at = none;
}

abbrev pub empty_db : Db
empty_db = record {
  sources = [];
  users = [];
  events = [];
  posts = [];
  approvals = [];
  conflicts = [];
  login_sessions = [];
  api_tokens = [];
}

abbrev pub db_with : List Event → Db
db_with events = record empty_db {
  sources = source ∷ [];
  events = events;
  conflicts = conflict ∷ [];
}

abbrev pub world : World
world = record {
  platform = platform;
  gather = λ cfg. ok feed;
  host = λ cfg n e. e;
  left_behind = λ cfg db. record db { events = [] };
  next_id = λ rows. length rows;
  scrub = λ e. codes "x";
  dates = λ decl. none;
  uuid = λ id. codes "k" ++ id;
}

-- A world in which no source can be reached.
abbrev pub broken : World
broken = record world { gather = λ cfg. err (failure (codes "down")) }
