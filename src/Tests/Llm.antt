-- ===== src/Tests/Llm.antt =====
-- Runs of the decisions on posts and of the calls of the model.
use ripcale_backend.Prelude.{
  ℕ, zero, suc, ◌<◌, ◌≡◌, refl, true, false, ◌||◌, [], ◌∷◌, none, some, Text, codes, list_beq,
  Option, ◌==◌, list_eq, nat_eq, arith, contains,
}
use ripcale_backend.Prelude.Int.{pos, int_eq}
use ripcale_backend.Result.{ok}
use ripcale_backend.Schema.{Instant}
use ripcale_backend.Models.{event_row, Event, Db, PostStatus, PendingPost}
use ripcale_backend.Table.{get_row, modify_row}
use ripcale_backend.Timeutil.{to_utc_naive}
use ripcale_backend.Identity.{load_exdates}
use ripcale_backend.Recurrence.Expand.{occurrences, collect}
use ripcale_backend.Recurrence.{normalize_until}
use ripcale_backend.Deepseek.{transient, Outcome, request_error, response, chat}
use ripcale_backend.Deepseek.Attempts.{IsTransient, Answers, chat_first}
use ripcale_backend.Pending.{post_row}
use ripcale_backend.Result.{is_ok}
use ripcale_backend.Llm.{in_zone, Action, Decision, EventFields, parse_dt, is_occurrence}
use ripcale_backend.Llm.Apply.{
  Proposals, apply_action, apply_delete, delete_matched, apply_decision, delete_found, with_exdate,
}
use ripcale_backend.Llm.Consult.{World}
use ripcale_backend.Llm.Settled.{Settles, DatesFit, apply_decision-Settles}
use ripcale_backend.Llm.Frame.{apply_decision_frames}
use ripcale_backend.Llm.Again.{cancel_occurrence}
use ripcale_backend.Llm.Retries.{runs, AnswersFit, Ends, retries_end}
use ripcale_backend.Tests.Samples.{platform, platform_laws, settings, intake, row, db_with}

abbrev post : PendingPost
post = record {
  uid = codes "p";
  source_id = 1;
  url = none;
  caption = some (codes "Gig tonight");
  images = [];
  published_at = none;
  status = PostStatus.pending;
  attempts = 1;
  transcription = none;
  decision = none;
  match_event_id = none;
  error = none;
  created_at = pos 0;
  updated_at = pos 0;
  processed_at = none;
}

abbrev fields : Text → EventFields
fields title = record {
  title = title;
  description = none;
  location = none;
  start_at = none;
  end_at = none;
  timezone = none;
  all_day = false;
  categories = [];
}

abbrev creation : Decision
creation = record {
  action = Action.create;
  event = some (fields (codes "Gig"));
  recurrence = none;
  match_id = none;
  recurrence_id = none;
  reason = [];
}

abbrev proposals : Proposals
proposals = record { dumps_recurrence = λ r. r.title; dumps_title = λ t. t; strip = λ t. t }

abbrev post_db : Db
post_db =
    record (db_with (row (codes "club:a") false none ∷ row (codes "club:ab") false none ∷ [])) {
      posts = post ∷ [];
    }

fresh_id : get_row (λ a. a.id) (codes "k") post_db.approvals ≡ none
unfolding get_row
fresh_id = refl

-- Every time is naive on the platform.
time_fits : (value tz : Option Text) → is_ok (parse_dt platform value tz) ≡ true
unfolding parse_dt in_zone to_utc_naive
time_fits none tz = refl
time_fits (some []) tz = refl
time_fits (some (c ∷ s)) none = refl
time_fits (some (c ∷ s)) (some []) = refl
time_fits (some (c ∷ s)) (some (d ∷ tz)) = refl

dates_fit : (decision : Decision) → DatesFit platform decision
dates_fit decision = record {
  occurrence = λ tz. time_fits decision.recurrence_id tz;
  event = λ f h. (time_fits f.start_at f.timezone, time_fits f.end_at f.timezone);
  series = λ rec h. time_fits rec.start_at rec.timezone;
}

apply_decision-Settles_example :
    (after : Db) × (settled : PendingPost) × (apply_decision platform intake proposals
        (codes "k")
        (pos 9)
        (pos 9)
        post
        creation
        post_db
      ≡ ok (after, settled))
    × (settled.processed_at ≡ some (pos 9))
    × Settles post_db post after settled
apply_decision-Settles_example =
    apply_decision-Settles platform intake proposals (codes "k") (pos 9) (pos 9) post post_db
      fresh_id creation (dates_fit creation)

abbrev cancellation : Decision
cancellation = record creation { action = Action.delete; match_id = some (codes "club:a") }

abbrev gone : Event
gone = record (row (codes "club:a") false none) {
  archived_at = some (pos 9);
  archived_reason = some (codes "cancelled");
  updated_at = pos 9;
}

abbrev cancelled_post : PendingPost
cancelled_post = record post {
  status = PostStatus.deleted;
  match_event_id = some (codes "club:a");
  processed_at = some (pos 9);
  updated_at = pos 9;
}

cancelled_run :
    apply_decision platform intake proposals (codes "k") (pos 9) (pos 9) post cancellation post_db
    ≡ ok (record post_db { events = gone ∷ row (codes "club:ab") false none ∷ [] }, cancelled_post)
unfolding apply_decision apply_action apply_delete delete_matched delete_found parse_dt get_row
    modify_row list_beq
cancelled_run = refl

apply_decision_frames_example :
    event_row (codes "club:ab") (gone ∷ row (codes "club:ab") false none ∷ [])
    ≡ event_row (codes "club:ab") post_db.events
apply_decision_frames_example =
    apply_decision_frames platform intake proposals (codes "k") (pos 9) (pos 9) post post_db
      cancellation (record post_db { events = gone ∷ row (codes "club:ab") false none ∷ [] })
      cancelled_post (codes "club:ab") cancelled_run (λ e. cc)

-- A model that cannot be reached.
abbrev unreachable : World
unreachable = record {
  platform = platform;
  proposals = proposals;
  read_image = λ name. none;
  b64encode = λ bytes. bytes;
  chat_vision = λ blocks. transient (codes "503");
  chat_json = λ question. transient (codes "503");
  parse_decision = λ raw. none;
  dumps_decision = λ d. [];
  uuid = λ uid. codes "k";
}

found_post : post_row (codes "p") post_db.posts ≡ some post
unfolding get_row list_beq
found_post = refl

answers_fit : AnswersFit unreachable settings intake (pos 9) (pos 9)
answers_fit given db decision transcription h = dates_fit decision

retries_end_example :
    Ends settings intake
      (pos 9)
      (pos 9)
      (codes "p")
      (runs settings intake (pos 9) (pos 9) (codes "p") (unreachable ∷ unreachable ∷ []) post_db)
retries_end_example =
    retries_end settings intake (pos 9) (pos 9) (codes "p") unreachable (unreachable ∷ []) post
      post_db found_post refl (fresh_id, (fresh_id, tt)) (answers_fit, (answers_fit, tt))
      (omega arith)

abbrev weekly : Event
weekly = record (row (codes "club:w") true none) { rrule = some (codes "FREQ=WEEKLY") }

weekly_row : event_row weekly.id (weekly ∷ []) ≡ some weekly
unfolding get_row list_beq
weekly_row = refl

weekly_occurrence : is_occurrence platform weekly (pos 9) ≡ true
unfolding is_occurrence occurrences collect contains normalize_until to_utc_naive
weekly_occurrence = refl

cancel_occurrence_example :
    (after : Event) × (event_row weekly.id
        (delete_found platform intake (pos 9) (pos 9) post weekly (some (pos 9)) (weekly ∷ [])).0
      ≡ some after)
    × ((t : Instant)
        → contains t (load_exdates platform after.exdates)
          ≡ ((pos 9 == t) || contains t (load_exdates platform weekly.exdates)))
    × (after.archived_at ≡ weekly.archived_at)
    × ((with_exdate platform intake (pos 9) (pos 9) (pos 9) after).exdates ≡ after.exdates)
cancel_occurrence_example =
    cancel_occurrence platform intake (pos 9) (pos 9) post weekly (pos 9) (weekly ∷ [])
      platform_laws weekly_row weekly_occurrence

-- The first request is lost, the second is answered.
abbrev flaky : ℕ → Outcome
flaky zero = request_error
flaky (suc n) = response 200 (some (some (codes "yes")))

chat_first_example :
    ((n : ℕ)
      → n < 3
      → ((j : ℕ) → j < n → IsTransient (flaky j))
      → (¬ IsTransient (flaky n))
      → Answers (flaky n) (chat (codes "key") flaky).0 × ((chat (codes "key") flaky).1 ≡ suc n))
    × (((j : ℕ) → j < 3 → IsTransient (flaky j))
        → chat (codes "key") flaky ≡ (transient (codes "DeepSeek request failed"), 3))
chat_first_example = chat_first (codes "key") flaky (λ e. cc)
