-- ===== src/Placeholders/Appliers.antt =====
-- The appliers of approved proposals that declare or withdraw a recurring placeholder. The intake
-- file is written before the rows: an exception in between loses the rows alone.
use ripcale_backend.Prelude.{
  ℕ, ◌≡◌, refl, ap, ◌∙◌, arith, Bool, true, ◌&&◌, not, List, [], ◌∷◌, ◌++◌, Option, none, some,
  Text, codes, ◌==◌, ==_iff, nat_eq, list_eq, if◌then◌else◌, is_empty, keep, find, any, join,
  Bool-cases, inl, inr, find-test,
}
use ripcale_backend.Result.{Result, ok, err, failure}
use ripcale_backend.Schema.{Instant, RecurrenceConfig, SourceConfig}
use ripcale_backend.Settings.{IntakeSettings}
use ripcale_backend.Platform.{Platform}
use ripcale_backend.Models.{Source, Approval, Db}
use ripcale_backend.Categories.{comma}
use ripcale_backend.Placeholders.{Dates, materialize}

pub record Proposals : Type 0 where
  -- `RecurrenceConfig(**json.loads(payload))`, without a value where it is malformed
  pub declaration : Text → Option RecurrenceConfig
  -- the stripped title of the payload, empty where the JSON is malformed; a payload of another
  -- shape raises
  pub title : Text → Result Text

unfoldable source_config : IntakeSettings → Text → Option SourceConfig
source_config intake name = find (λ (s : SourceConfig). s.name == name) intake.sources

-- The assignment to the source that `source_config` finds, the first of its name.
unfoldable set_source : Text → SourceConfig → List SourceConfig → List SourceConfig
set_source name cfg [] = []
set_source name cfg (s ∷ more) =
    let rest = set_source name cfg more in if s.name == name then cfg ∷ more else s ∷ rest

abbrev is_declared : RecurrenceConfig → RecurrenceConfig → Bool
is_declared decl d = (d.title == decl.title) && (d.rrule == decl.rrule)

module _ (p : Platform) (dates : Dates) (now utcnow : Instant) (next_id : List Source → ℕ)
    (proposals : Proposals) where
  abbrev new_source : SourceConfig → List Source → Source
  new_source cfg rows = record {
    id = next_id rows;
    name = cfg.name;
    url = cfg.url;
    gatherer = cfg.gatherer;
    is_public = cfg.is_public;
    default_categories = join comma cfg.default_categories;
    enabled = true;
    llm_context = cfg.llm_context;
    last_fetched_at = none;
    created_at = utcnow;
  }

  abbrev or_created : SourceConfig → Option Source → Db → Db × Source
  or_created cfg (some source) db = (db, source)
  or_created cfg none db =
      let source = new_source cfg db.sources in
      (record db { sources = db.sources ++ source ∷ [] }, source)

  unfoldable find_or_create_source : SourceConfig → Db → Db × Source
  find_or_create_source cfg db =
      or_created cfg (find (λ (s : Source). s.name == cfg.name) db.sources) db

  -- The file is saved with the source as it now is, and its placeholders are brought in line.
  unfoldable saved : SourceConfig → IntakeSettings → Db → IntakeSettings × Result Db
  saved cfg intake db =
      let (there, source) = find_or_create_source cfg db in
      (
        record intake { sources = set_source cfg.name cfg intake.sources },
        ok (materialize p dates now utcnow source.id cfg there).0,
      )

  abbrev not_found : Text → IntakeSettings → IntakeSettings × Result Db
  not_found name intake = (intake, err (failure (codes "source not found: " ++ name)))

  abbrev add_to :
      Text
      → RecurrenceConfig
      → Option SourceConfig
      → IntakeSettings
      → Db
      → IntakeSettings × Result Db
  add_to name decl none intake db = not_found name intake
  add_to name decl (some cfg) intake db =
      if any (is_declared decl) cfg.recurrences
      then (intake, ok db)
      else saved (record cfg { recurrences = cfg.recurrences ++ decl ∷ [] }) intake db

  abbrev add_declared :
      Text → Option RecurrenceConfig → IntakeSettings → Db → IntakeSettings × Result Db
  add_declared name none intake db = (intake, ok db)
  add_declared name (some decl) intake db = add_to name decl (source_config intake name) intake db

  unfoldable apply_add_recurrence : Approval → IntakeSettings → Db → IntakeSettings × Result Db
  apply_add_recurrence approval intake db =
      add_declared approval.source_name (proposals.declaration approval.payload) intake db

  abbrev remove_from :
      Text → Text → Option SourceConfig → IntakeSettings → Db → IntakeSettings × Result Db
  remove_from name title none intake db = not_found name intake
  remove_from name title (some cfg) intake db =
      saved
        (record cfg {
          recurrences = keep (λ (d : RecurrenceConfig). not (d.title == title)) cfg.recurrences;
        })
        intake db

  abbrev remove_titled : Text → Result Text → IntakeSettings → Db → IntakeSettings × Result Db
  remove_titled name (err raised) intake db = (intake, err raised)
  remove_titled name (ok title) intake db =
      if is_empty title
      then (intake, ok db)
      else remove_from name title (source_config intake name) intake db

  unfoldable apply_remove_recurrence : Approval → IntakeSettings → Db → IntakeSettings × Result Db
  apply_remove_recurrence approval intake db =
      remove_titled approval.source_name (proposals.title approval.payload) intake db

  find-set_source :
      (name : Text) (cfg old : SourceConfig) (sources : List SourceConfig)
      → find (λ (s : SourceConfig). s.name == name) sources ≡ some old
      → cfg.name ≡ name
      → find (λ (s : SourceConfig). s.name == name) (set_source name cfg sources) ≡ some cfg
  unfolding find set_source
  find-set_source name cfg old [] h k = cc
  find-set_source name cfg old (s ∷ more) h k =
      ground (arith, ==_iff cfg.name name, find-set_source name cfg old more)

  source_config-saved :
      (name : Text) (cfg old : SourceConfig) (intake : IntakeSettings) (db : Db)
      → source_config intake name ≡ some old
      → cfg.name ≡ name
      → source_config (saved cfg intake db).0 name ≡ some cfg
  unfolding source_config saved
  source_config-saved name cfg old intake db h k =
      ap (λ n. find (λ (s : SourceConfig). s.name == name) (set_source n cfg intake.sources)) k
      ∙ find-set_source name cfg old intake.sources h k

  any-append :
      (decl : RecurrenceConfig) (ds : List RecurrenceConfig)
      → any (is_declared decl) (ds ++ decl ∷ []) ≡ true
  unfolding any
  any-append decl [] = ground (arith, ==_iff decl.title decl.title, ==_iff decl.rrule decl.rrule)
  any-append decl (d ∷ ds) = ground (arith, any-append decl ds)

  -- Approving one declaration twice declares it once: the second proposal changes neither the file
  -- nor a row.
  apply_add_recurrence_twice :
      (approval : Approval) (decl : RecurrenceConfig) (intake : IntakeSettings) (cfg : SourceConfig)
      (db later : Db)
      → proposals.declaration approval.payload ≡ some decl
      → source_config intake approval.source_name ≡ some cfg
      → apply_add_recurrence approval (apply_add_recurrence approval intake db).0 later
        ≡ ((apply_add_recurrence approval intake db).0, ok later)
  unfolding apply_add_recurrence
  apply_add_recurrence_twice approval decl intake cfg db later h k =
      let name = approval.source_name in
      let more = record cfg { recurrences = cfg.recurrences ++ decl ∷ [] } in
      let same : cfg.name ≡ name = (==_iff cfg.name name).0 (
        find-test (λ (s : SourceConfig). s.name == name) intake.sources cfg
          (unfold source_config in k)) in
      rw h (
        rw k (elim (Bool-cases (any (is_declared decl) cfg.recurrences)) [
          | inl old ↦ rw old (rw k (rw old refl))
          | inr new ↦ rw new (
              rw (source_config-saved name more cfg intake db k same)
                (rw (any-append decl cfg.recurrences) refl))
        ]))
