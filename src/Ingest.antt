-- ===== src/Ingest.antt =====
-- ingest.py: the run over all sources, gather → categorize → sieve → decide, each source in a
-- transaction of its own, under the lock. Gathering and hosting the images are parameters, and so
-- are the key that the database gives a new source and the scrubbing of messages.
pub mod Isolation
use ripcale_backend.Prelude.{
  ℕ, suc, ◌+◌, Bool, true, false, not, List, [], ◌∷◌, ◌++◌, map, Option, none, some, Text, codes,
  ◌==◌, nat_eq, list_eq, if◌then◌else◌, find, length, is_empty, is_some, join,
}
use ripcale_backend.Result.{
  Result, Error, ok, err, source_issue, integrity_error, bad_rule, failure, action_error, ◌>>=◌,
}
use ripcale_backend.Schema.{
  Instant, CategoryRule, SourceConfig, ScrapedEvent, GathererResult, SieveResult,
}
use ripcale_backend.Settings.{Settings, IntakeSettings}
use ripcale_backend.Platform.{Platform}
use ripcale_backend.Models.{Source, Event, event_row, Db}
use ripcale_backend.Categories.{comma}
use ripcale_backend.Identity.{stable_id}
use ripcale_backend.Registry.{gatherer_decide_before_insert}
use ripcale_backend.Categorize
use ripcale_backend.Sieve.{classify}
use ripcale_backend.Decisionmaker
use ripcale_backend.Pending
use ripcale_backend.Placeholders
use ripcale_backend.Archive.{archive, ArchiveReport}
use ripcale_backend.Status.{Statuses, record_status, record_run}
use ripcale_backend.Lock.{LockFile, acquire, release}

-- What a run calls and this development does not model.
pub record World : Type 0 where
  pub platform : Platform
  -- `load_gatherer(cfg.gatherer)` and the call of the gatherer
  pub gather : SourceConfig → Result GathererResult
  -- what `host_images` makes of an event of a source's feed, by its place in the feed: the downloads
  -- and the memo are as they then are
  pub host : SourceConfig → ℕ → ScrapedEvent → ScrapedEvent
  -- the session as an exception in the `try` of a source leaves it
  pub left_behind : SourceConfig → Db → Db
  -- the key of the next row of the `source` table
  pub next_id : List Source → ℕ
  -- `sanitize(str(exc))`
  pub scrub : Error → Text
  -- the dates of a placeholder's declaration
  pub dates : Placeholders.Dates
  -- what `uuid4` draws for the conflict of an event
  pub uuid : Text → Text

abbrev default_archive_limit : ℕ
default_archive_limit = 500

-- An entry of the summaries, of one source.
pub data Summary : Type 0 where
  skipped : Summary
  enqueued : Text → Pending.Summary → Summary
  processed : Text → SieveResult → Option Decisionmaker.Report → Summary
  warned failed : Text → Text → Summary

-- The database as committed and as the session sees it, the status file and the summaries.
pub record State : Type 0 where
  pub committed : Db
  pub session : Db
  pub statuses : Statuses
  pub summaries : List Summary

-- `.first()` of the query: only the first row of the name is changed.
update_first : SourceConfig → List Source → List Source
update_first cfg [] = []
update_first cfg (s ∷ ss) =
    let rest = update_first cfg ss in
    if s.name == cfg.name then record s { llm_context = cfg.llm_context } ∷ ss else s ∷ rest

module _ (w : World) (settings : Settings) (intake : IntakeSettings) (now utcnow : Instant)
    (dry_run : Bool) where
  new_source : SourceConfig → List Source → Source
  new_source cfg rows = record {
    id = w.next_id rows;
    name = cfg.name;
    url = cfg.url;
    gatherer = cfg.gatherer;
    is_public = cfg.is_public;
    default_categories = join comma cfg.default_categories;
    enabled = true;
    llm_context = cfg.llm_context;
    last_fetched_at = none;
    created_at = utcnow;
  }

  ensured : SourceConfig → Option Source → Db → Db × Source
  unfolding new_source update_first
  ensured cfg none db =
      let s = new_source cfg db.sources in (record db { sources = db.sources ++ s ∷ [] }, s)
  ensured cfg (some s) db = (
    record db { sources = update_first cfg db.sources },
    record s { llm_context = cfg.llm_context },
  )

  pub ensure_source : SourceConfig → Db → Db × Source
  unfolding ensured
  ensure_source cfg db = ensured cfg (find (λ (s : Source). s.name == cfg.name) db.sources) db

  abbrev is_archived : Option Event → Bool
  is_archived none = false
  is_archived (some e) = is_some e.archived_at

  pub host_all : SourceConfig → (ScrapedEvent → Bool) → ℕ → List ScrapedEvent → List ScrapedEvent
  host_all cfg skips n [] = []
  host_all cfg skips n (e ∷ es) =
      let rest = host_all cfg skips (suc n) es in (if skips e then e else w.host cfg n e) ∷ rest

  -- The images of an archived event are not hosted again.
  pub host_live : SourceConfig → Text → Db → List ScrapedEvent → List ScrapedEvent
  unfolding host_all
  host_live cfg source_name db es =
      host_all cfg (λ e. is_archived (event_row (stable_id w.platform source_name e) db.events)) 0
        es

  decide : SourceConfig → SieveResult → Db → Result (Db × Option Decisionmaker.Report)
  unfolding ensure_source
  decide cfg sieved db =
      if dry_run
      then ok (db, none)
      else (let (db', source) = ensure_source cfg db in
          Decisionmaker.apply w.platform now utcnow w.uuid source sieved db' >>= λ applied.
          ok (applied.0, some applied.1))

  pub process_source :
      Option (List CategoryRule)
      → SourceConfig
      → Db
      → Result (Db × SieveResult × Option Decisionmaker.Report)
  unfolding decide host_live
  process_source rules cfg db = do
    result ← w.gather cfg
    events ←
        Categorize.apply w.platform intake result.source
          (host_live cfg result.source.name db result.events) rules
    let sieved =
        classify w.platform settings db (record { source = result.source; events = events }) now
    decided ← decide cfg sieved db
    ok (decided.0, sieved, decided.1)

  pub enqueue_source : SourceConfig → Db → Result (Db × Pending.Summary)
  unfolding ensure_source host_all
  enqueue_source cfg db = do
    result ← w.gather cfg
    let found = ensure_source cfg db
    ok (
        Pending.enqueue w.platform utcnow (host_all cfg (λ e. false) 0) now found.1 result dry_run
          found.0)

  -- `if cfg.recurrences and not dry_run`
  with_placeholders : SourceConfig → Db → Db
  unfolding ensure_source
  with_placeholders cfg db =
      if is_empty cfg.recurrences
      then db
      else if dry_run
      then db
      else (let (db', source) = ensure_source cfg db in
          (Placeholders.materialize w.platform w.dates now utcnow source.id cfg db').0)

  -- The `try` of one source, with the number of events that the status records.
  unfoldable pub attempt : SourceConfig → Db → Result (Db × Summary × ℕ)
  unfolding process_source enqueue_source with_placeholders
  attempt cfg db =
      if gatherer_decide_before_insert cfg.gatherer
      then (enqueue_source cfg db >>= λ r. ok (
        with_placeholders cfg r.0,
        enqueued cfg.name r.1,
        r.1.enqueued + r.1.changed + r.1.unchanged,
      ))
      else (process_source none cfg db >>= λ r. ok (
        with_placeholders cfg r.0,
        processed cfg.name r.1 r.2,
        length r.1.new + length r.1.updated + r.1.unchanged,
      ))

  abbrev pub is_known_issue : Error → Bool
  is_known_issue (source_issue m) = true
  is_known_issue _ = false

  -- `session.rollback()`
  unfoldable pub rollback : State → State
  rollback s = record s { session = s.committed }

  -- `record_status` and the summary of a source that failed.
  abbrev reported : SourceConfig → Error → State → State
  reported cfg e s = record s {
    statuses =
        record_status cfg.name (if is_known_issue e then codes "warning" else codes "error")
          (some (w.scrub e)) 0 s.statuses;
    summaries =
        s.summaries
        ++ (if is_known_issue e then warned cfg.name (w.scrub e) else failed cfg.name (w.scrub e))
          ∷ [];
  }

  -- What the loop makes of the attempt: the commit, or the rollback with its status.
  pub after_attempt : SourceConfig → Result (Db × Summary × ℕ) → State → State
  unfolding rollback
  after_attempt cfg (ok (db, summary, total)) s = record {
    committed = if dry_run then s.committed else db;
    session = db;
    statuses = record_run cfg.name total s.statuses;
    summaries = s.summaries ++ summary ∷ [];
  }
  after_attempt cfg (err e) s =
      reported cfg e (rollback (record s { session = w.left_behind cfg s.session }))

  pub run_source : SourceConfig → State → State
  unfolding attempt after_attempt
  run_source cfg s = after_attempt cfg (attempt cfg s.session) s

  pub run_sources : List SourceConfig → State → State
  unfolding run_source
  run_sources [] s = s
  run_sources (cfg ∷ cfgs) s = run_sources cfgs (run_source cfg s)

  -- `_run_locked`: the committed database, the statuses and the summaries behind the run.
  pub run_locked : Db → Statuses → Db × Statuses × List Summary
  unfolding run_sources
  run_locked db statuses =
      let s =
        run_sources intake.sources
          (record { committed = db; session = db; statuses = statuses; summaries = [] }) in
      (
        (if dry_run
            then s.committed
            else (archive w.platform settings now false (some default_archive_limit)
                s.committed).0),
        s.statuses,
        s.summaries,
      )

  run_if : LockFile × Bool → Db → Statuses → LockFile × Db × Statuses × List Summary
  unfolding run_locked
  run_if (file, false) db statuses = (file, db, statuses, skipped ∷ [])
  run_if (file, true) db statuses =
      let (after, statuses', summaries) = run_locked db statuses in
      (release file, after, statuses', summaries)

  pub run : LockFile → Db → Statuses → LockFile × Db × Statuses × List Summary
  unfolding run_if
  run file db statuses = run_if (acquire settings utcnow file) db statuses
