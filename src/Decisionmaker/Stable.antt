-- ===== src/Decisionmaker/Stable.antt =====
-- A second run on the same feed finds nothing new and nothing changed.
use ripcale_backend.Prelude.{
  ◌≡◌, refl, ◌∙◌, sym, true, false, ◌||◌, List, [], ◌∷◌, ◌++◌, map, Option, none, some, Text,
  ==_refl, nat_eq, list_eq, contains, arith, keep, All,
}
use mathlib.Core.Path.{subst}
use mathlib.Core.List.{append_assoc}
use ripcale_backend.Result.{ok, >>=-eq-ok}
use ripcale_backend.Schema.{Instant, ScrapedEvent, GathererResult, SieveResult}
use ripcale_backend.Settings.{Settings}
use ripcale_backend.Platform.{Platform}
use ripcale_backend.Identity.{content_hash, stable_id}
use ripcale_backend.Models.{Source, Event, event_row, Db}
use ripcale_backend.Sieve.{incoming, classify}
use ripcale_backend.Sieve.Verdict.{
  Bucket, is_new, is_changed, bucket_eq, bucket_of, bucket, those, ids_of, as_classified, verdict,
  classify-verdict, dropped_count,
}
use ripcale_backend.Decisionmaker.{Report, write_rows, apply}
use ripcale_backend.Decisionmaker.Settled.{settled, Agrees, write_rows-settles}

bucket_of-settled :
    (hash : Text) (o : Option Event)
    → settled hash o ≡ true
    → (bucket_eq (bucket_of hash o) is_new ≡ false)
      × (bucket_eq (bucket_of hash o) is_changed ≡ false)
unfolding bucket_of
bucket_of-settled hash none h = cc
bucket_of-settled hash (some r) h = ground arith

bucket_of_unsettled :
    (hash : Text) (o : Option Event)
    → (bucket_eq (bucket_of hash o) is_new
        || bucket_eq (bucket_of hash o) is_changed
        || settled hash o)
      ≡ true
unfolding bucket_of
bucket_of_unsettled hash none = refl
bucket_of_unsettled hash (some r) = ground arith

module _ (p : Platform) (name : Text) where
  -- Events of the feed with one id have one content.
  abbrev SameContent : ScrapedEvent → List ScrapedEvent → Type 0
  SameContent e es =
      All (λ e'. stable_id p name e' ≡ stable_id p name e → content_hash p e' ≡ content_hash p e) es

  abbrev pub IsConsistent : List ScrapedEvent → Type 0
  IsConsistent es = All (λ e. SameContent e es) es

  module _ (rows : List Event) where
    Agrees-those :
        (b : Bucket) (e : ScrapedEvent) (es : List ScrapedEvent)
        → SameContent e es
        → Agrees
            (stable_id p name e)
            (content_hash p e)
            (map (as_classified p rows name) (those p rows name b es))
    unfolding keep
    Agrees-those b e [] h = tt
    Agrees-those b e (x ∷ es) h = ground (arith, Agrees-those b e es h.1)

    -- An event of the list is in the bucket that its stored row gives it.
    contains-those :
        (b : Bucket) (e : ScrapedEvent) (before after : List ScrapedEvent)
        → bucket_eq (bucket p rows name e) b ≡ true
        → contains
            (stable_id p name e)
            (ids_of (map (as_classified p rows name) (those p rows name b (before ++ (e ∷ after)))))
          ≡ true
    unfolding keep contains
    contains-those b e [] after h = ground (arith, ==_refl (stable_id p name e))
    contains-those b e (x ∷ before) after h = ground (arith, contains-those b e before after h)

    nothing_left :
        (es : List ScrapedEvent)
        → All (λ e. settled (content_hash p e) (event_row (stable_id p name e) rows) ≡ true) es
        → (those p rows name is_new es ≡ []) × (those p rows name is_changed es ≡ [])
    unfolding keep bucket
    nothing_left [] h = (refl, refl)
    nothing_left (e ∷ es) h =
        let (not_new, not_changed) =
          bucket_of-settled (content_hash p e) (event_row (stable_id p name e) rows) h.0 in
        ground (arith, nothing_left es h.1)

All-split :
    (P : ScrapedEvent → Type 0) (all before es : List ScrapedEvent)
    → all ≡ before ++ es
    → ((b : List ScrapedEvent) (e : ScrapedEvent) (a : List ScrapedEvent)
        → all ≡ b ++ (e ∷ a)
        → P e)
    → All P es
All-split P all before [] h f = tt
All-split P all before (e ∷ es) h f = (
  f before e es h,
  All-split P all (before ++ e ∷ []) es (h ∙ sym (append_assoc before (e ∷ []) es)) f,
)

All-split_at :
    (P : ScrapedEvent → Type 0) (before : List ScrapedEvent) (e : ScrapedEvent)
    (after : List ScrapedEvent)
    → All P (before ++ (e ∷ after))
    → P e
All-split_at P [] e after h = h.0
All-split_at P (x ∷ before) e after h = All-split_at P before e after h.1

module _ (p : Platform) (settings : Settings) (now run_ts utcnow : Instant) (uuid : Text → Text)
    (source : Source) (result : GathererResult) (db db' : Db) (report : Report)
    (done : apply p run_ts utcnow uuid source (classify p settings db result now) db
      ≡ ok (db', report))
    (consistent : IsConsistent p result.source.name (incoming p settings result now)) where
  abbrev feed : List ScrapedEvent
  feed = incoming p settings result now

  abbrev name : Text
  name = result.source.name

  abbrev found_verdict : SieveResult
  found_verdict = verdict p db.events name result.source (dropped_count p settings result now) feed

  settled_event :
      (before : List ScrapedEvent) (e : ScrapedEvent) (after : List ScrapedEvent)
      → feed ≡ before ++ (e ∷ after)
      → settled (content_hash p e) (event_row (stable_id p name e) db'.events) ≡ true
  unfolding apply bucket verdict
  settled_event before e after at =
      let written =
        subst (λ v. apply p run_ts utcnow uuid source v db ≡ ok (db', report))
          (classify-verdict p settings db result now) done in
      let ((rows, conflicts, i, u), writes, same) =
        >>=-eq-ok (write_rows p run_ts utcnow uuid source.id found_verdict db.events db.conflicts) _
          written in
      let content : SameContent p name e feed =
        All-split_at (λ x. SameContent p name x feed) before e after
          (subst (λ l. All (λ x. SameContent p name x feed) l) at consistent) in
      let in_bucket : (b : Bucket)
          → bucket_eq (bucket p db.events name e) b ≡ true
          → contains (stable_id p name e)
              (ids_of (map (as_classified p db.events name) (those p db.events name b feed)))
            ≡ true =
        λ b h. rw at (contains-those p name db.events b e before after h) in
      ground (
        arith,
        write_rows-settles p run_ts utcnow source.id (stable_id p name e) (content_hash p e) uuid
            found_verdict db.events rows db.conflicts conflicts i u writes
            (Agrees-those p name db.events is_new e feed content)
            (Agrees-those p name db.events is_changed e feed content),
        in_bucket is_new,
        in_bucket is_changed,
        bucket_of_unsettled (content_hash p e) (event_row (stable_id p name e) db.events),
      )

  -- After a run that succeeds, the sieve finds nothing new and nothing updated in the same feed at
  -- the same time, if events of the feed that have one id have one content hash.
  pub second_run_finds_nothing :
      ((classify p settings db' result now).new ≡ [])
      × ((classify p settings db' result now).updated ≡ [])
  second_run_finds_nothing =
      let (none_new, none_changed) = nothing_left p name db'.events feed (
        All-split
          (λ e. settled (content_hash p e) (event_row (stable_id p name e) db'.events) ≡ true) feed
          [] feed refl settled_event) in
      rw (classify-verdict p settings db' result now)
        (unfold verdict in (rw none_new refl, rw none_changed refl))
