-- ===== src/Overseer.antt =====
-- services/overseer.py and overseer_worker.py: pairs of events that two sources may list both, and
-- the merge of such a pair. The model, the ratio of `SequenceMatcher` and JSON are parameters.
pub mod Pairs
pub mod Redirects
use ripcale_backend.Prelude.{
  ℕ, zero, suc, ◌+◌, ◌*◌, Bool, true, false, ◌&&◌, ◌||◌, not, List, [], ◌∷◌, ◌++◌, map, Option,
  none, some, Text, codes, ◌==◌, nat_eq, list_eq, option_eq, if◌then◌else◌, is_empty, is_none,
  is_some, or_else, keep, any, contains, length, take, leb,
}
use ripcale_backend.Prelude.Int.{ℤ, pos, ◌+ℤ◌, ◌-ℤ◌, leb_ℤ, ltb_ℤ}
use ripcale_backend.Prelude.Order.{sort_by}
use ripcale_backend.Result.{Result, ok, err, failure, ◌>>=◌}
use ripcale_backend.Schema.{Instant}
use ripcale_backend.Platform.{Platform}
use ripcale_backend.Models.{Event, Approval, ApprovalStatus, Db, event_key, event_row}
use ripcale_backend.Table.{modify_row}
use ripcale_backend.Identity.{load_images, truthy}
use ripcale_backend.Categories.{lower}
use ripcale_backend.Events.{
  Edit, title, description, location, url, timezone, earlier_first, update_event,
}
use ripcale_backend.Deepseek.{Reply, reply, transient, permanent}
use ripcale_backend.Approvals.{create_in_session}

pub record PairDecision : Type 0 where
  pub same : Bool
  pub canonical_id : Option Text
  pub enrich : List (Text × Text)
  pub reason : Text

-- The payload of an `event_merge` proposal.
pub record Merge : Type 0 where
  pub canonical_id : Option Text
  pub loser_id : Option Text
  pub enrich : List (Text × Text)

pub record World : Type 0 where
  pub platform : Platform
  -- whether the ratio of two normalized titles reaches the threshold, and whether 0 does
  pub reaches : Text → Text → Bool
  pub zero_reaches : Bool
  -- the model's answer on a pair, as JSON that has been validated
  pub ask : Event → Event → Reply PairDecision
  -- `json.dumps` and `json.loads` of a proposal's payload
  pub dumps_merge : Merge → Text
  pub loads_merge : Text → Option Merge

-- `re.sub(r"[^a-z0-9 ]+", " ", t)` and `re.sub(r"\s+", " ", t)` of a text in lower case: every run
-- of other characters becomes one blank.
abbrev is_word_char : ℕ → Bool
is_word_char c = (leb b'a' c && leb c b'z') || (leb b'0' c && leb c b'9')

-- The words of a text, each character that is no letter or digit a break.
unfoldable pub words_from : Bool → Text → Text
words_from gap [] = []
words_from gap (c ∷ s) =
    let next = words_from false s in
    let skipped = words_from true s in
    if is_word_char c then (if gap then b' ' ∷ c ∷ next else c ∷ next) else skipped

abbrev skip_gap : Text → Text
skip_gap [] = []
skip_gap (c ∷ s) = if c == b' ' then s else c ∷ s

unfoldable pub normalize_title : Text → Text
normalize_title t = skip_gap (words_from false (lower t))

-- 12 hours, in microseconds
abbrev pub proximity : ℤ
proximity = pos (12 * 3600 * 1000000)

abbrev pub is_far_from : Option Instant → Option Instant → Bool
is_far_from (some s) (some t) = ltb_ℤ proximity (t -ℤ s)
is_far_from _ _ = false

abbrev pub is_far : Event → Event → Bool
is_far a b = is_far_from a.start_at b.start_at

-- In hundredths; the sum of the floats is exact but for its rounding.
abbrev min : ℕ → ℕ → ℕ
min a b = if leb a b then a else b

abbrev points : Bool → ℕ → ℕ
points b n = if b then n else 0

module _ (w : World) where
  unfoldable pub completeness_score : Event → ℕ
  completeness_score e =
      points (truthy e.location) 100
      + points (truthy e.url) 100
      + points (is_some e.end_at) 50
      + min (length (or_else e.description [])) 100
      + min (length (load_images w.platform e.images)) 4 * 25

  unfoldable pub is_similar : Event → Event → Bool
  is_similar a b =
      let s = normalize_title a.title in
      let t = normalize_title b.title in
      if is_empty s || is_empty t then w.zero_reaches else w.reaches s t

  abbrev starts_between : Instant → Instant → Option Instant → Bool
  starts_between now horizon none = false
  starts_between now horizon (some t) = leb_ℤ now t && leb_ℤ t horizon

  unfoldable pub is_eligible : Instant → Instant → Event → Bool
  is_eligible now horizon e =
      is_none e.archived_at
      && is_none e.redirect_to_id
      && not e.placeholder
      && starts_between now horizon e.start_at

  -- The rows of the query; equal starts stay in the order of the table.
  unfoldable pub eligible : Instant → ℕ → Db → List Event
  eligible now window_days db =
      sort_by earlier_first
        (keep (is_eligible now (now +ℤ pos (window_days * 86400 * 1000000))) db.events)

  -- The inner loop: it ends at the first event that starts too late.
  unfoldable pub pairs_with : Event → List Event → List (Event × Event)
  pairs_with a [] = []
  pairs_with a (b ∷ rows) =
      let rest = pairs_with a rows in
      if a.source_id == b.source_id
      then rest
      else if is_far a b
      then []
      else if is_similar a b
      then (a, b) ∷ rest
      else rest

  unfoldable pub pairs_among : List Event → List (Event × Event)
  pairs_among [] = []
  pairs_among (a ∷ rows) = pairs_with a rows ++ pairs_among rows

  unfoldable pub find_candidate_pairs : Instant → ℕ → Db → List (Event × Event)
  find_candidate_pairs now window_days db = pairs_among (eligible now window_days db)

  abbrev pub enrichable_fields : List Text
  enrichable_fields =
      codes "title" ∷ codes "description" ∷ codes "location" ∷ codes "url" ∷ codes "timezone" ∷ []

  abbrev pub richer : Event → Event → Text
  richer a b = if leb (completeness_score b) (completeness_score a) then a.id else b.id

  abbrev pub names_one : Event → Event → Option Text → Bool
  names_one a b none = false
  names_one a b (some id) = (id == a.id) || (id == b.id)

  unfoldable pub validate_decision : PairDecision → Event → Event → PairDecision
  validate_decision d a b =
      if d.same
      then record d {
        canonical_id = if names_one a b d.canonical_id then d.canonical_id else some (richer a b);
        enrich = keep (λ (f : Text × Text). contains f.0 enrichable_fields) d.enrich;
      }
      else record d { canonical_id = none; enrich = [] }

  unfoldable pub decide_pair : Event → Event → Reply PairDecision
  decide_pair a b = elim (w.ask a b) [
    | reply d ↦ reply (validate_decision d a b)
    | transient message ↦ transient message
    | permanent message ↦ permanent message
  ]

  abbrev is_pending : ApprovalStatus → Bool
  is_pending ApprovalStatus.pending = true
  is_pending _ = false

  abbrev is_merge_of : Text → Text → Option Merge → Bool
  is_merge_of winner_id loser_id none = false
  is_merge_of winner_id loser_id (some m) =
      (m.canonical_id == some winner_id) && (m.loser_id == some loser_id)

  unfoldable pub proposes : Text → Text → Approval → Bool
  proposes winner_id loser_id a =
      (a.kind == codes "event_merge")
      && is_pending a.status
      && is_merge_of winner_id loser_id (w.loads_merge a.payload)

  unfoldable pub propose_merge :
      Text → Instant → Event → Event → List (Text × Text) → Text → Db → Result (Db × Bool)
  propose_merge uuid utcnow winner loser enrich reason db =
      if any (proposes winner.id loser.id) db.approvals then ok (db, false) else (do
        after ←
            create_in_session uuid utcnow (codes "event_merge") []
              (w.dumps_merge (record {
                canonical_id = some winner.id;
                loser_id = some loser.id;
                enrich = enrich;
              }))
              reason db
        ok (after, true))

  abbrev pub missing : Option Text → Bool
  missing none = true
  missing (some s) = w.platform.is_blank s

  -- The edit that one entry of `enrich` comes to, where the winner has nothing in the field.
  unfoldable pub enrich_edits : Event → Text → Text → List Edit
  enrich_edits e key value =
      if (key == codes "title") && w.platform.is_blank e.title
      then title value ∷ []
      else if (key == codes "description") && missing e.description
      then description (some value) ∷ []
      else if (key == codes "location") && missing e.location
      then location (some value) ∷ []
      else if (key == codes "url") && missing e.url
      then url (some value) ∷ []
      else if (key == codes "timezone") && missing e.timezone
      then timezone (some value) ∷ []
      else []

  unfoldable pub fields_of : Event → List (Text × Text) → List Edit
  fields_of e [] = []
  fields_of e ((key, value) ∷ enrich) = enrich_edits e key value ++ fields_of e enrich

  unfoldable pub enriched : Instant → Text → List Edit → Db → Db
  enriched utcnow id [] db = record db {
    events =
        modify_row event_key id (λ e. record e { pinned = true; updated_at = utcnow }) db.events;
  }
  enriched utcnow id (f ∷ fields) db = (update_event w.platform utcnow id (f ∷ fields) true db).0

  unfoldable pub merge_rows :
      Instant → Option Event → Option Event → List (Text × Text) → Db → Result Db
  merge_rows utcnow (some winner) (some loser) enrich db =
      let after = enriched utcnow winner.id (fields_of winner enrich) db in
      ok (record after {
        events =
            modify_row event_key loser.id
              (λ e. record e { redirect_to_id = some winner.id; updated_at = utcnow }) after.events;
      })
  merge_rows utcnow winner loser enrich db =
      err (failure (codes "event_merge: canonical/loser event not found"))

  abbrev row_of : Option Text → Db → Option Event
  row_of none db = none
  row_of (some id) db = event_row id db.events

  abbrev merge_payload : Instant → Option Merge → Db → Result Db
  merge_payload utcnow none db = ok db
  merge_payload utcnow (some m) db =
      merge_rows utcnow (row_of m.canonical_id db) (row_of m.loser_id db) m.enrich db

  -- The applier of `event_merge`.
  unfoldable pub apply_event_merge : Instant → Approval → Db → Result Db
  apply_event_merge utcnow approval db = merge_payload utcnow (w.loads_merge approval.payload) db

  -- `run_once`: the decisions on the first pairs, those that raise left out.
  unfoldable pub decisions : List (Event × Event) → List (Event × Event × PairDecision)
  decisions [] = []
  decisions ((a, b) ∷ pairs) =
      let rest = decisions pairs in
      elim (decide_pair a b) [
        | reply d ↦ (a, b, d) ∷ rest
        | transient m ↦ rest
        | permanent m ↦ rest
      ]

  abbrev counted : ℕ → Db × Bool → Db × ℕ
  counted merges (db, made) = (db, if made then suc merges else merges)

  -- The event with the canonical id wins.
  unfoldable pub propose_one :
      (Text → Text) → Instant → Event × Event × PairDecision → Db × ℕ → Result (Db × ℕ)
  propose_one uuid utcnow (a, b, d) (db, merges) =
      let (winner, loser) = if d.canonical_id == some a.id then (a, b) else (b, a) in
      if not d.same
      then ok (db, merges)
      else propose_merge (uuid (winner.id ++ loser.id)) utcnow winner loser d.enrich d.reason db
        >>= λ r. ok (counted merges r)

  -- The proposals of one session: the first that raises loses them all.
  unfoldable pub propose_all :
      (Text → Text) → Instant → List (Event × Event × PairDecision) → Db × ℕ → Result (Db × ℕ)
  propose_all uuid utcnow [] state = ok state
  propose_all uuid utcnow (d ∷ rest) state =
      propose_one uuid utcnow d state >>= λ next. propose_all uuid utcnow rest next

  -- `run_once`, where the overseer is enabled: the number of pairs, and of merges proposed.
  unfoldable pub run_once : (Text → Text) → Instant → Instant → ℕ → ℕ → Db → Result (Db × (ℕ × ℕ))
  run_once uuid utcnow now window_days max_per_tick db =
      let pairs = take max_per_tick (find_candidate_pairs now window_days db) in
      propose_all uuid utcnow (decisions pairs) (db, 0) >>= λ r. ok (r.0, (length pairs, r.1))
