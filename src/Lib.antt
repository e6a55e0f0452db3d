-- ===== src/Lib.antt =====
-- The ingest backend of a calendar aggregator: gatherers fetch events from feeds, the pipeline
-- categorizes them, compares them with the database and writes what changed, and services around
-- it edit, archive, queue and guard.
--
-- The parts, and the files that model them (paths from the repository's root):
--   app/schema.py, app/models.py          Schema, Models: values and rows; Table: a table by key
--   app/config.py, app/intake.py          Settings: what the modelled code reads
--   app/identity.py                       Identity: stable_id, content_hash, the JSON columns
--   app/services/categories.py            Categories: slugs, classes, exposure, symlinks
--   app/categorize/categorize.py          Categorize: the rules, in order
--   app/services/recurrence.py            Recurrence: last_occurrence, normalize_rrule, occurrences
--   app/services/expiry.py                Expiry: the relevance window
--   app/sieve/sieve.py                    Sieve: classify
--   app/decisionmaker/decisionmaker.py    Decisionmaker: apply
--   app/registry.py                       Registry: capabilities and priorities
--   app/ingest.py                         Ingest: process_source, the run under the lock
--   app/services/events.py                Events: query_events, update_event
--   app/services/archive.py               Archive: archive, restore
--   app/services/approvals.py             Approvals: create, approve, reject
--   app/services/conflicts.py             Conflicts: resolve
--   app/services/pending.py               Pending: enqueue, reset_stale_processing
--   app/services/placeholders.py          Placeholders: materialize, the appliers
--   app/services/status.py                Status: record_run, gatherer_rollup
--   app/services/lock.py                  Lock: acquire, release; Lock.Race: interleavings
--   app/services/llm.py, llm_worker.py    Llm: decisions on posts, process_one, the worker's tick
--   app/services/deepseek.py              Deepseek: chat and its retries
--   app/services/overseer.py, overseer_worker.py
--                                         Overseer: candidate pairs, merges, the worker's tick
--   app/services/images.py                Images: hosting, eviction, prune, re-hosting
--   app/services/backup.py                Backup: backup_now, prune, restore
--   app/services/retag.py                 Retag: one category renamed in all rows
--   app/services/ssrf.py                  Ssrf: the addresses that requests may go to
--   app/services/wipe.py, db.py, actions.py
--                                         Wipe: the wipe and the challenge that guards it
--   app/security.py                       Security: the guard of the admin endpoints
--   app/services/actions.py               Actions: the edit of an event, checks before a service
--   app/timeutil.py                       Timeutil: to_utc_naive
--   app/services/auth.py                  Auth: sessions, tokens, login and its limits
-- A component's child modules hold its proofs, and Prelude the helpers that all share. Result is
-- the exceptions; Tests holds runs on concrete inputs.
--
-- How they interact: Ingest.run takes the lock, and for each source calls the gatherer (a
-- parameter), Categorize.apply, Sieve.classify and Decisionmaker.apply, or Pending.enqueue for a
-- gatherer whose posts are decided first; then Placeholders.materialize, and at the end
-- Archive.archive. Llm.Worker.run_once takes the posts that Pending.enqueue left, asks the model and
-- writes events, or proposals that Approvals.approve hands to an applier, as it does those of
-- Overseer.run_once. A pinned event whose source changed becomes a row that Conflicts.resolve takes.
--
-- How the code is modelled: text is a list of code points; an instant is a count of microseconds,
-- and only Timeutil's conversion to UTC raises outside the years 1 to 9999; the database is a
-- record of lists of rows, and a service that raises returns its error alone, where its caller
-- writes nothing. Ingest has the session of a source that raises as an arbitrary one, and rolls it
-- back. What hosting makes of a feed's images is a parameter of Ingest and Pending, given for each
-- event of a feed; the downloads and the memo behind it are modelled in Images. Hashing, JSON,
-- regular expressions and `dateutil` are the record Platform, and Platform.Laws says what a
-- theorem asks of them. The wall clock and the pipeline's clock are arguments, read once in a
-- call.
--
-- Bounds and fuel: Lock.acquire calls itself once more behind an `unlink`; two tries are enough
-- for one process, and Lock.Race has no bound on the steps. Deepseek.chat counts down its three
-- attempts. Every other loop is over a list.
--
-- Not modelled: the web layer, the gatherers' network clients, the wording of the prompts, the
-- threads of the workers and the scheduler, calendar output, logging, and the listings that only
-- format rows; a commit that fails; an exception of Placeholders.materialize behind the summary of
-- its source; and the `strip` of the name that Backup.restore is given.
pub mod Prelude
pub mod Result
pub mod Schema
pub mod Settings
pub mod Categories
pub mod Platform
pub mod Identity
pub mod Categorize
pub mod Table
pub mod Models
pub mod Timeutil
pub mod Recurrence
pub mod Expiry
pub mod Sieve
pub mod Registry
pub mod Retag
pub mod Ssrf
pub mod Wipe
pub mod Security
pub mod Actions
pub mod Decisionmaker
pub mod Events
pub mod Archive
pub mod Approvals
pub mod Deepseek
pub mod Llm
pub mod Backup
pub mod Images
pub mod Overseer
pub mod Lock
pub mod Tests
pub mod Auth
pub mod Ingest
pub mod Placeholders
pub mod Status
pub mod Pending
pub mod Conflicts
