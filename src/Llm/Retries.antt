-- ===== src/Llm/Retries.antt =====
-- A queued post is settled after a bounded number of runs.
use ripcale_backend.Prelude.{
  suc, ◌+◌, ◌≤◌, ◌<◌, ◌≡◌, refl, ap, ◌∙◌, Bool, true, false, List, [], ◌∷◌, Option, none, some,
  Text, arith, ==_iff, nat_eq, list_eq, length, All,
}
use ripcale_backend.Schema.{Instant}
use ripcale_backend.Settings.{Settings, IntakeSettings}
use ripcale_backend.Models.{PendingPost, Approval, Db}
use ripcale_backend.Table.{get_row, get_row-replace, get_row-key}
use ripcale_backend.Deepseek.{Reply, reply, transient, permanent}
use ripcale_backend.Pending.{post_key, post_row}
use ripcale_backend.Approvals.{approval_key, approval_row}
use ripcale_backend.Llm.{Decision}
use ripcale_backend.Llm.Consult.{World}
use ripcale_backend.Llm.Worker.{
  save_post, after_transient, after_permanent, transient_failure, permanent_failure, is_pending,
  claimed, consult, with_decision, apply_to, conclude, process_found, process_one,
}
use ripcale_backend.Llm.Settled.{is_final, DatesFit, apply_decision-Settles}

abbrev pub queued : Option PendingPost → Bool
queued none = false
queued (some post) = is_pending post.status

saved_row :
    (uid : Text) (old new : PendingPost) (db : Db)
    → post_row uid db.posts ≡ some old
    → new.uid ≡ uid
    → post_row uid (save_post new db).posts ≡ some new
saved_row uid old new db found same =
    ground (arith, get_row-replace post_key new.uid uid new db.posts refl, ==_iff new.uid uid)

-- What one run makes of a queued post: settled, or queued again with one more attempt.
data Outcome (settings : Settings) (before : PendingPost) (old new : List Approval)
    (now : PendingPost) : Type 0 where
  settles : is_final now.status ≡ true → Outcome settings before old new now
  retries :
      is_pending now.status ≡ true
      → now.attempts ≡ suc before.attempts
      → now.attempts < settings.llm_max_attempts
      → new ≡ old
      → Outcome settings before old new now

module _ (w : World) (settings : Settings) (intake : IntakeSettings)
    (clock_now utcnow : Instant) where
  abbrev run : Text → Db → Db × Bool
  run = process_one w settings intake clock_now utcnow

  -- A post that is not pending, or not there, is left alone.
  pub process_one_idle :
      (uid : Text) (db : Db) → queued (post_row uid db.posts) ≡ false → run uid db ≡ (db, true)
  unfolding process_one process_found
  process_one_idle uid db h = ground arith

  abbrev Leaves : Text → PendingPost → List Approval → Db × Bool → Type 0
  Leaves uid before old (after, returned) =
      (now : PendingPost) × (post_row uid after.posts ≡ some now)
      × (returned ≡ true)
      × Outcome settings before old after.approvals now

  -- Every decision that the model comes to, whatever it is asked, has times that fit.
  abbrev pub AnswersFit : Type 0
  AnswersFit =
      (post : PendingPost) (db : Db) (decision : Decision) (transcription : Option Text)
      → consult w settings intake clock_now utcnow post db ≡ reply (transcription, decision)
      → DatesFit w.platform decision

  after_transient_uid :
      (message : Text) (post : PendingPost)
      → (after_transient w settings intake clock_now utcnow message post).uid ≡ post.uid
  unfolding after_transient
  after_transient_uid message post = ground arith

  outcome_of_transient :
      (message : Text) (post before : PendingPost) (db : Db)
      → post.attempts ≡ before.attempts
      → let now = after_transient w settings intake clock_now utcnow message post in
        Outcome settings before db.approvals db.approvals now
  unfolding after_transient
  outcome_of_transient message post before db same = ground (arith, settles, retries)

  conclude-Leaves :
      (uid : Text) (post before : PendingPost) (answer : Reply (Option Text × Decision)) (db : Db)
      → post_row uid db.posts ≡ some post
      → post.attempts ≡ before.attempts
      → approval_row (w.uuid uid) db ≡ none
      → ((decision : Decision) (transcription : Option Text)
          → answer ≡ reply (transcription, decision)
          → DatesFit w.platform decision)
      → Leaves uid before db.approvals (conclude w settings intake clock_now utcnow uid answer db)
  unfolding conclude apply_to transient_failure permanent_failure
  conclude-Leaves uid post before (transient message) db found same fresh fit =
      let now = after_transient w settings intake clock_now utcnow message post in
      rw (found, transient_failure)
        (
          now,
          saved_row uid post now db found
              (after_transient_uid message post ∙ get_row-key post_key uid db.posts post found),
          refl,
          outcome_of_transient message post before db same,
        )
  conclude-Leaves uid post before (permanent message) db found same fresh fit =
      let now = after_permanent w settings intake clock_now utcnow message post in
      rw (found, permanent_failure)
        (
          now,
          unfold after_permanent in
              saved_row uid post now db found (get_row-key post_key uid db.posts post found),
          refl,
          settles (unfold after_permanent in refl),
        )
  conclude-Leaves uid post before (reply (transcription, decision)) db found same fresh fit =
      let chosen = with_decision w settings intake clock_now utcnow transcription decision post in
      let (after, now, e, _, h) =
        apply_decision-Settles w.platform intake w.proposals (w.uuid uid) clock_now utcnow chosen db
          fresh decision (fit decision transcription refl) in
      rw (found, apply_to)
        (rw e (
          now,
          saved_row uid post now after (ap (post_row uid) h.posts ∙ found)
              (h.uid ∙ get_row-key post_key uid db.posts post found),
          refl,
          settles h.final,
        ))

  -- A run of a queued post, if the id drawn for a proposal is free, returns: the post is settled, or
  -- queued again with one more attempt, of which there are then fewer than allowed.
  process_one-Leaves :
      (uid : Text) (post : PendingPost) (db : Db)
      → post_row uid db.posts ≡ some post
      → is_pending post.status ≡ true
      → approval_row (w.uuid uid) db ≡ none
      → AnswersFit
      → Leaves uid post db.approvals (run uid db)
  unfolding process_one process_found
  process_one-Leaves uid post db found pending fresh fit =
      let mine = claimed w settings intake clock_now utcnow post in
      rw (found, pending)
        (conclude-Leaves uid mine post
          (consult w settings intake clock_now utcnow mine (save_post mine db)) (save_post mine db)
          (unfold claimed in
            saved_row uid post mine db found (get_row-key post_key uid db.posts post found))
          (unfold claimed in refl) fresh
          (λ decision transcription h. fit mine (save_post mine db) decision transcription h))

module _ (settings : Settings) (intake : IntakeSettings) (clock_now utcnow : Instant)
    (uid : Text) where
  -- One run after the other, each with what the model then answers.
  unfoldable pub runs : List World → Db → Db
  runs [] db = db
  runs (w ∷ ws) db = runs ws (process_one w settings intake clock_now utcnow uid db).0

  -- The ids that may be drawn for a proposal are free.
  abbrev pub AreFresh : List World → List Approval → Type 0
  AreFresh ws approvals = All (λ (w : World). get_row approval_key (w.uuid uid) approvals ≡ none) ws

  abbrev pub AllFit : List World → Type 0
  AllFit ws = All (λ (w : World). AnswersFit w settings intake clock_now utcnow) ws

  AreFresh-same :
      (ws : List World) {old new : List Approval} → new ≡ old → AreFresh ws old → AreFresh ws new
  AreFresh-same [] same h = tt
  AreFresh-same (w ∷ ws) same h = (rw same h.0, AreFresh-same ws same h.1)

  runs_idle : (ws : List World) (db : Db) → queued (post_row uid db.posts) ≡ false → runs ws db ≡ db
  unfolding runs
  runs_idle [] db h = refl
  runs_idle (w ∷ ws) db h =
      rw (process_one_idle w settings intake clock_now utcnow uid db h) (runs_idle ws db h)

  not_queued :
      (db : Db) (post : PendingPost)
      → post_row uid db.posts ≡ some post
      → is_final post.status ≡ true
      → queued (post_row uid db.posts) ≡ false
  not_queued db post found final = ground arith

  abbrev pub Ends : Db → Type 0
  Ends db = (now : PendingPost) × (post_row uid db.posts ≡ some now) × (is_final now.status ≡ true)

  settled-Ends :
      (ws : List World) (now : PendingPost) (db : Db)
      → post_row uid db.posts ≡ some now
      → is_final now.status ≡ true
      → Ends (runs ws db)
  settled-Ends ws now db found final =
      rw (runs_idle ws db (not_queued db now found final)) (now, found, final)

  -- A queued post is settled by as many runs as it has attempts left, but at least one, whatever
  -- the model answers or fails to answer in each, if the times of every decision lie in the years 1
  -- to 9999 in UTC and the ids that may be drawn for a proposal are free at the start: its status is
  -- then neither `pending` nor `processing`.
  pub retries_end :
      (w : World) (ws : List World) (post : PendingPost) (db : Db)
      → post_row uid db.posts ≡ some post
      → is_pending post.status ≡ true
      → AreFresh (w ∷ ws) db.approvals
      → AllFit (w ∷ ws)
      → settings.llm_max_attempts ≤ post.attempts + suc (length ws)
      → Ends (runs (w ∷ ws) db)
  unfolding runs
  retries_end w [] post db found pending fresh fit enough =
      let (now, row, _, o) : Leaves w settings intake clock_now utcnow uid post db.approvals
          (process_one w settings intake clock_now utcnow uid db) =
        process_one-Leaves w settings intake clock_now utcnow uid post db found pending fresh.0
          fit.0 in
      elim o [
        | settles final ↦ (now, row, final)
        | retries again more fewer same ↦ absurd (omega arith)
      ]
  retries_end w (v ∷ ws) post db found pending fresh fit enough =
      let (now, row, _, o) =
        process_one-Leaves w settings intake clock_now utcnow uid post db found pending fresh.0
          fit.0 in
      elim o [
        | settles final ↦
            settled-Ends (v ∷ ws) now (process_one w settings intake clock_now utcnow uid db).0 row
              final
        | retries again more fewer same ↦
            retries_end v ws now (process_one w settings intake clock_now utcnow uid db).0 row again
              (AreFresh-same (v ∷ ws) same fresh.1) fit.1 (omega arith)
      ]
