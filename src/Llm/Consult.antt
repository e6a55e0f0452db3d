-- ===== src/Llm/Consult.antt =====
-- services/llm.py: what the model is asked on a post, `transcribe` and `decide`. The calls of the
-- model, the files and the JSON of a decision are parameters.
use ripcale_backend.Prelude.{
  removed_prefix, ℕ, suc, Bool, ◌||◌, ◌&&◌, not, List, [], ◌∷◌, ◌++◌, map, Option, none, some, Text,
  codes, if◌then◌else◌, is_none, is_some, or_else, keep, contains, find, length, take, ◌==◌, nat_eq,
  list_eq,
}
use mathlib.Core.Option
use ripcale_backend.Prelude.Order.{sort_by}
use ripcale_backend.Schema.{Instant, RecurrenceConfig, SourceConfig}
use ripcale_backend.Settings.{Settings, IntakeSettings}
use ripcale_backend.Platform.{Platform}
use ripcale_backend.Models.{Event, Db}
use ripcale_backend.Identity.{truthy}
use ripcale_backend.Categories.{lower}
use ripcale_backend.Events.{later_first}
use ripcale_backend.Recurrence.Expand.{occurrences}
use ripcale_backend.Deepseek.{Reply, reply, transient, permanent}
use ripcale_backend.Llm.{Decision}
use ripcale_backend.Llm.Apply.{Proposals}

-- A block of a message: a text, or the address of an image.
pub data Block : Type 0 where
  text : Text → Block
  image : Text → Block

-- What `decide` tells the model of an event.
pub record Item : Type 0 where
  pub id : Text
  pub title : Text
  pub start_at : Option Text
  pub location : Option Text
  pub rrule : Option Text
  pub recurrence_id : Option Text
  pub placeholder : Bool
  pub occurrences : Option (List Text)

-- What the prompt of `decide` is made of; its wording is left out.
pub record Question : Type 0 where
  pub transcription : Text
  pub caption : Option Text
  pub events : List Item
  pub context : Option Text
  pub published_at : Option Instant
  pub recurrences : List RecurrenceConfig
  pub now : Instant

pub record World : Type 0 where
  pub platform : Platform
  pub proposals : Proposals
  -- the bytes of a file below `data/images`, and `b64encode(…).decode()`
  pub read_image : Text → Option Text
  pub b64encode : Text → Text
  -- `deepseek.chat`, for each of the two stages
  pub chat_vision : List Block → Reply (Option Text)
  pub chat_json : Question → Reply (Option Text)
  -- `Decision.model_validate_json`, unless it raises, and `model_dump_json`
  pub parse_decision : Text → Option Decision
  pub dumps_decision : Decision → Text
  -- the id of the proposal that a post may lead to
  pub uuid : Text → Text

-- `path.suffix` of a file's path, less the dot: what follows the last dot of the last part, where
-- there is something on both sides.
last_part : ℕ → Text → Text
last_part sep [] = []
last_part sep (c ∷ s) =
    let rest = last_part sep s in if contains sep s then rest else if c == sep then s else c ∷ s

pub extension : Text → Text
unfolding last_part
extension path =
    let name = last_part b'/' path in
    let ext = last_part b'.' name in
    if not (contains b'.' name) || (suc (length ext) == length name) then [] else ext

pub mime : Text → Text
mime ext =
    if ext == codes "png"
    then codes "image/png"
    else if ext == codes "webp"
    then codes "image/webp"
    else if ext == codes "gif"
    then codes "image/gif"
    else codes "image/jpeg"

abbrev images_prefix : Text
images_prefix = codes "/images/"

module _ (w : World) (settings : Settings) where
  abbrev data_url : Text → Text → Text
  data_url name bytes =
      codes "data:" ++ (mime (lower (extension name)) ++ (codes ";base64," ++ w.b64encode bytes))

  abbrev block_of : Text → Option Text → Option Block
  block_of url none = some (image url)
  block_of url (some name) = Option.map (λ bytes. image (data_url name bytes)) (w.read_image name)

  pub image_block : Text → Option Block
  unfolding removed_prefix extension mime
  image_block url = block_of url (removed_prefix images_prefix url)

  abbrev added_block : Option Block → List Block → List Block
  added_block none blocks = blocks
  added_block (some b) blocks = b ∷ blocks

  pub image_blocks : List Text → List Block
  unfolding image_block
  image_blocks [] = []
  image_blocks (url ∷ urls) = added_block (image_block url) (image_blocks urls)

  -- The fixed wording of the request is left out.
  abbrev caption_block : Option Text → Text
  caption_block caption =
      if truthy caption then codes "Caption (for context): " ++ or_else caption [] else []

  pub transcribe : List Text → Option Text → Reply (Option Text)
  unfolding image_blocks
  transcribe images caption =
      w.chat_vision
        (text (caption_block caption) ∷ image_blocks (take settings.llm_max_images images))

  abbrev iso : Option Instant → Option Text
  iso = Option.map w.platform.isoformat

  abbrev upcoming : Option Instant → Event → Option (List Text)
  upcoming since e =
      if truthy e.rrule && is_some e.start_at
      then some (
          map (λ t. w.platform.isoformat t ++ codes "Z")
            (occurrences w.platform e.rrule e.start_at e.timezone 6 since))
      else none

  abbrev item : Option Instant → Event → Item
  item since e = record {
    id = e.id;
    title = e.title;
    start_at = iso e.start_at;
    location = e.location;
    rrule = e.rrule;
    recurrence_id = iso e.recurrence_id;
    placeholder = e.placeholder;
    occurrences = upcoming since e;
  }

  pub current_events : ℕ → ℕ → Instant → Db → List Item
  current_events source_id limit since db = map (item (some since)) (
      take limit (
        sort_by later_first
          (keep (λ (e : Event). (e.source_id == source_id) && is_none e.archived_at) db.events)))

  abbrev declared : Option SourceConfig → List RecurrenceConfig
  declared none = []
  declared (some cfg) = cfg.recurrences

  pub current_recurrences : IntakeSettings → Text → List RecurrenceConfig
  current_recurrences intake source_name =
      declared (find (λ (cfg : SourceConfig). cfg.name == source_name) intake.sources)

  abbrev validated : Option Decision → Reply Decision
  validated none = permanent (codes "validation error")
  validated (some decision) = reply decision

  -- Null does not validate.
  abbrev read_decision : Option Text → Option Decision
  read_decision none = none
  read_decision (some raw) = w.parse_decision raw

  pub decide : Question → Reply Decision
  decide question = elim (w.chat_json question) [
    | reply raw ↦ validated (read_decision raw)
    | transient message ↦ transient message
    | permanent message ↦ permanent message
  ]
