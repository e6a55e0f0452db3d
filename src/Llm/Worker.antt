-- ===== src/Llm/Worker.antt =====
-- services/llm.py: `process_one` and its failures; services/llm_worker.py: `run_once`. The steps of
-- `process_one` are transactions of their own; the clocks stand still during a call.
use ripcale_backend.Prelude.{
  ℕ, suc, ◌*◌, Bool, true, false, ◌||◌, not, List, [], ◌∷◌, map, Option, none, some, Text,
  if◌then◌else◌, is_empty, or_else, keep, take, leb, nat_eq, list_eq,
}
use ripcale_backend.Prelude.Int.{ℤ, pos, ◌-ℤ◌, leb_ℤ}
use ripcale_backend.Prelude.Order.{sort_by}
use ripcale_backend.Result.{Result, ok, err}
use ripcale_backend.Schema.{Instant, ImageRef}
use ripcale_backend.Settings.{Settings, IntakeSettings}
use ripcale_backend.Models.{Source, PendingPost, PostStatus, Db}
use ripcale_backend.Table.{modify_row}
use ripcale_backend.Identity.{load_images}
use ripcale_backend.Deepseek.{Reply, reply, transient, permanent}
use ripcale_backend.Pending.{post_key, post_row, reset_stale_processing}
use ripcale_backend.Llm.{Decision}
use ripcale_backend.Llm.Apply.{source_of, apply_decision}
use ripcale_backend.Llm.Consult.{
  World, Question, current_events, current_recurrences, transcribe, decide,
}

abbrev pub save_post : PendingPost → Db → Db
save_post post db = record db { posts = modify_row post_key post.uid (λ _. post) db.posts }

abbrev pub is_pending : PostStatus → Bool
is_pending PostStatus.pending = true
is_pending _ = false

module _ (w : World) (settings : Settings) (intake : IntakeSettings)
    (clock_now utcnow : Instant) where
  unfoldable pub after_transient : Text → PendingPost → PendingPost
  after_transient message post =
      if leb settings.llm_max_attempts (suc post.attempts)
      then record post {
        attempts = suc post.attempts;
        status = PostStatus.failed;
        error = some message;
        updated_at = utcnow;
      }
      else record post {
        attempts = suc post.attempts;
        status = PostStatus.pending;
        updated_at = utcnow;
      }

  unfoldable pub after_permanent : Text → PendingPost → PendingPost
  after_permanent message post = record post {
    status = PostStatus.failed;
    error = some message;
    updated_at = utcnow;
  }

  abbrev on_row : (PendingPost → PendingPost) → Option PendingPost → Db → Db
  on_row f none db = db
  on_row f (some post) db = save_post (f post) db

  unfoldable pub transient_failure : Text → Text → Db → Db
  transient_failure uid message db = on_row (after_transient message) (post_row uid db.posts) db

  unfoldable pub permanent_failure : Text → Text → Db → Db
  permanent_failure uid message db = on_row (after_permanent message) (post_row uid db.posts) db

  unfoldable pub claimed : PendingPost → PendingPost
  claimed post = record post { status = PostStatus.processing; error = none; updated_at = utcnow }

  -- Stage A, unless the post has its transcription.
  unfoldable pub transcription_of : PendingPost → Option Text → Reply (Option Text)
  transcription_of post none =
      transcribe w settings (map (λ (img : ImageRef). img.url) (load_images w.platform post.images))
        post.caption
  transcription_of post (some transcription) = reply (some transcription)

  abbrev name_of : Option Source → Text
  name_of none = []
  name_of (some s) = s.name

  abbrev context_of : Option Source → Option Text
  context_of none = none
  context_of (some s) = s.llm_context

  -- `timedelta(days=7)` in microseconds
  abbrev week : ℤ
  week = pos (7 * 86400 * 1000000)

  unfoldable pub question : PendingPost → Option Text → Db → Question
  question post transcription db = record {
    transcription = or_else transcription [];
    caption = post.caption;
    events =
        current_events w settings post.source_id settings.llm_context_events
          (or_else post.published_at clock_now -ℤ week) db;
    context = context_of (source_of post db);
    published_at = post.published_at;
    recurrences = current_recurrences w settings intake (name_of (source_of post db));
    now = clock_now;
  }

  unfoldable pub decided : PendingPost → Reply (Option Text) → Db → Reply (Option Text × Decision)
  decided post (transient message) db = transient message
  decided post (permanent message) db = permanent message
  decided post (reply transcription) db =
      elim (decide w settings (question post transcription db)) [
        | reply decision ↦ reply (transcription, decision)
        | transient message ↦ transient message
        | permanent message ↦ permanent message
      ]

  -- The calls of the model, which write nothing.
  unfoldable pub consult : PendingPost → Db → Reply (Option Text × Decision)
  consult post db = decided post (transcription_of post post.transcription) db

  abbrev pub with_decision : Option Text → Decision → PendingPost → PendingPost
  with_decision transcription decision post = record post {
    transcription = transcription;
    decision = some (w.dumps_decision decision);
    attempts = 0;
  }

  abbrev saved : Result (Db × PendingPost) → Result Db
  saved (err e) = err e
  saved (ok (db, post)) = ok (save_post post db)

  unfoldable pub apply_to : Text → Option Text → Decision → Option PendingPost → Db → Result Db
  apply_to uid transcription decision none db = ok db
  apply_to uid transcription decision (some post) db = saved (
      apply_decision w.platform intake w.proposals (w.uuid uid) clock_now utcnow
        (with_decision transcription decision post) decision db)

  -- Step 3: where it raises, the database stays as it is.
  abbrev committed : Db → Result Db → Db × Bool
  committed db (err e) = (db, false)
  committed db (ok after) = (after, true)

  unfoldable pub conclude : Text → Reply (Option Text × Decision) → Db → Db × Bool
  conclude uid (transient message) db = (transient_failure uid message db, true)
  conclude uid (permanent message) db = (permanent_failure uid message db, true)
  conclude uid (reply (transcription, decision)) db =
      committed db (apply_to uid transcription decision (post_row uid db.posts) db)

  unfoldable pub process_found : Text → Option PendingPost → Db → Db × Bool
  process_found uid none db = (db, true)
  process_found uid (some post) db =
      let marked = save_post (claimed post) db in
      if is_pending post.status
      then conclude uid (consult (claimed post) marked) marked
      else (db, true)

  -- The database behind the call, and whether it returned.
  unfoldable pub process_one : Text → Db → Db × Bool
  process_one uid db = process_found uid (post_row uid db.posts) db

  -- The loop over the posts, and the number of calls that returned.
  unfoldable pub process_all : List Text → Db × ℕ → Db × ℕ
  process_all [] (db, processed) = (db, processed)
  process_all (uid ∷ uids) (db, processed) =
      let (after, returned) = process_one uid db in
      process_all uids (after, if returned then suc processed else processed)

  abbrev older_first : PendingPost → PendingPost → Bool
  older_first a b = leb_ℤ a.created_at b.created_at

  unfoldable pub next_uids : Db → List Text
  next_uids db = map post_key (
      take settings.llm_max_per_tick
        (sort_by older_first (keep (λ (post : PendingPost). is_pending post.status) db.posts)))

  -- The state of the worker's thread is left out.
  unfoldable pub run_once : Db → Db × ℕ
  run_once db =
      let (fresh, _) =
        reset_stale_processing utcnow clock_now settings.llm_stale_processing_seconds db in
      if not settings.llm_enabled || is_empty settings.deepseek_key
      then (db, 0)
      else process_all (next_uids fresh) (fresh, 0)
