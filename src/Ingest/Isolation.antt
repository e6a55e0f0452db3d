-- ===== src/Ingest/Isolation.antt =====
-- What a run leaves behind where a source fails, where it is a dry run, and where another run holds
-- the lock.
use ripcale_backend.Prelude.{
  ℕ, ◌≡◌, refl, ap, sym, ◌∙◌, Bool, true, false, List, [], ◌∷◌, if◌then◌else◌,
}
use ripcale_backend.Result.{Result, Error, ok, err}
use ripcale_backend.Schema.{Instant, SourceConfig}
use ripcale_backend.Settings.{Settings, IntakeSettings}
use ripcale_backend.Models.{Db}
use ripcale_backend.Status.{Statuses}
use ripcale_backend.Lock.{LockFile, acquire}
use ripcale_backend.Ingest.{
  World, Summary, State, attempt, after_attempt, run_source, run_sources, run_locked, run_if, run,
}

-- The run without its reports: what is committed and what the session sees.
abbrev databases : State → Db × Db
databases s = (s.committed, s.session)

module _ (w : World) (settings : Settings) (intake : IntakeSettings) (now utcnow : Instant) where
  after_attempt-databases :
      (dry_run : Bool) (cfg : SourceConfig) (r : Result (Db × Summary × ℕ)) (s t : State)
      → databases s ≡ databases t
      → databases (after_attempt w settings intake now utcnow dry_run cfg r s)
        ≡ databases (after_attempt w settings intake now utcnow dry_run cfg r t)
  unfolding after_attempt
  after_attempt-databases dry_run cfg (ok (db, summary, total)) s t h =
      ap (λ (d : Db × Db). ((if dry_run then d.0 else db), db)) h
  after_attempt-databases dry_run cfg (err e) s t h = ap (λ (d : Db × Db). (d.0, d.0)) h

  run_source-databases :
      (dry_run : Bool) (cfg : SourceConfig) (s t : State)
      → databases s ≡ databases t
      → databases (run_source w settings intake now utcnow dry_run cfg s)
        ≡ databases (run_source w settings intake now utcnow dry_run cfg t)
  unfolding run_source
  run_source-databases dry_run cfg s t h =
      after_attempt-databases dry_run cfg
        (attempt w settings intake now utcnow dry_run cfg s.session) s t h
      ∙ ap
          (λ (d : Db × Db). databases (
            after_attempt w settings intake now utcnow dry_run cfg
              (attempt w settings intake now utcnow dry_run cfg d.1) t))
          h

  run_sources-databases :
      (dry_run : Bool) (cfgs : List SourceConfig) (s t : State)
      → databases s ≡ databases t
      → databases (run_sources w settings intake now utcnow dry_run cfgs s)
        ≡ databases (run_sources w settings intake now utcnow dry_run cfgs t)
  unfolding run_sources
  run_sources-databases dry_run [] s t h = h
  run_sources-databases dry_run (cfg ∷ cfgs) s t h =
      run_sources-databases dry_run cfgs (run_source w settings intake now utcnow dry_run cfg s)
        (run_source w settings intake now utcnow dry_run cfg t)
        (run_source-databases dry_run cfg s t h)

  -- In a run that writes, where the session holds nothing that is not committed, a source whose
  -- attempt raises, whatever it has written to the session, leaves the databases of the rest of the
  -- run, the committed one and the session's, as if it were not configured.
  pub failed_source_is_skipped :
      (cfg : SourceConfig) (cfgs : List SourceConfig) (s : State) (e : Error)
      → s.session ≡ s.committed
      → attempt w settings intake now utcnow false cfg s.session ≡ err e
      → let with_it = run_sources w settings intake now utcnow false (cfg ∷ cfgs) s in
        let without = run_sources w settings intake now utcnow false cfgs s in
        (with_it.committed ≡ without.committed) × (with_it.session ≡ without.session)
  unfolding run_sources run_source
  failed_source_is_skipped cfg cfgs s e clean failed =
      let t =
        after_attempt w settings intake now utcnow false cfg
          (attempt w settings intake now utcnow false cfg s.session) s in
      let same : databases t ≡ databases s =
        rw (failed, after_attempt) (ap (λ (d : Db). (s.committed, d)) (sym clean)) in
      let both = run_sources-databases false cfgs t s same in
      (ap (λ (d : Db × Db). d.0) both, ap (λ (d : Db × Db). d.1) both)

  after_attempt-clean :
      (cfg : SourceConfig) (r : Result (Db × Summary × ℕ)) (s : State)
      → (after_attempt w settings intake now utcnow false cfg r s).session
        ≡ (after_attempt w settings intake now utcnow false cfg r s).committed
  unfolding after_attempt
  after_attempt-clean cfg (ok (db, summary, total)) s = refl
  after_attempt-clean cfg (err e) s = refl

  after_attempt-dry :
      (cfg : SourceConfig) (r : Result (Db × Summary × ℕ)) (s : State)
      → (after_attempt w settings intake now utcnow true cfg r s).committed ≡ s.committed
  unfolding after_attempt
  after_attempt-dry cfg (ok (db, summary, total)) s = refl
  after_attempt-dry cfg (err e) s = refl

  run_sources-dry :
      (cfgs : List SourceConfig) (s : State)
      → (run_sources w settings intake now utcnow true cfgs s).committed ≡ s.committed
  unfolding run_sources run_source
  run_sources-dry [] s = refl
  run_sources-dry (cfg ∷ cfgs) s =
      let r = attempt w settings intake now utcnow true cfg s.session in
      run_sources-dry cfgs (after_attempt w settings intake now utcnow true cfg r s)
      ∙ after_attempt-dry cfg r s

  run_if-dry :
      (taken : LockFile × Bool) (db : Db) (statuses : Statuses)
      → (run_if w settings intake now utcnow true taken db statuses).1 ≡ db
  unfolding run_if run_locked
  run_if-dry (file, true) db statuses = run_sources-dry intake.sources _
  run_if-dry (file, false) db statuses = refl

  -- A dry run leaves the database as it was, whether it gets the lock or not.
  pub dry_run_writes_nothing :
      (file : LockFile) (db : Db) (statuses : Statuses)
      → (run w settings intake now utcnow true file db statuses).1 ≡ db
  unfolding run
  dry_run_writes_nothing file db statuses = run_if-dry (acquire settings utcnow file) db statuses
