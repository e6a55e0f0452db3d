-- ===== src/Tests/Queue.antt =====
-- Runs of the queue, the conflicts, the approvals, the archive and the placeholders.
use ripcale_backend.Prelude.{
  ◌≡◌, refl, true, false, [], ◌∷◌, none, some, codes, All, list_beq, if◌then◌else◌, ◌==◌, list_eq,
  nat_eq, map, ◌↔◌,
}
use mathlib.Core.Option
use ripcale_backend.Prelude.Int.{pos}
use ripcale_backend.Result.{ok, err, failure}
use ripcale_backend.Models.{Event, event_row, Db, ConflictStatus, PendingPost}
use ripcale_backend.Table.{get_row}
use ripcale_backend.Identity.{content_hash}
use ripcale_backend.Sieve.Verdict.{bucket_of, is_same}
use ripcale_backend.Pending
use ripcale_backend.Pending.Queue.{enqueue_again}
use ripcale_backend.Conflicts.{conflict_row, settled, resolve, Chat}
use ripcale_backend.Conflicts.Resolve.{IsAdopted, resolve_adopt}
use ripcale_backend.Platform.{Platform}
use ripcale_backend.Expiry.{is_relevant}
use ripcale_backend.Expiry.Window.{BeginsAfter, OverSince, over_at, is_relevant_iff}
use ripcale_backend.Placeholders.{is_master, is_kept, series_uid, materialize}
use ripcale_backend.Placeholders.Removal.{live_placeholders_are_declared}
use ripcale_backend.Tests.Samples.{
  platform, club, event, feed, source, row, conflict, empty_db, db_with,
}

enqueue_again_example :
    let (first, _) =
      Pending.enqueue platform (pos 9) (λ es. es) (pos 9) source feed false empty_db in
    let (second, s) =
      Pending.enqueue platform (pos 10) (λ es. es) (pos 10) source feed false first in
    (s.enqueued ≡ 0)
    × (s.changed ≡ 0)
    × (Option.map (λ (r : PendingPost). r.status) (Pending.post_row (codes "a") second.posts)
        ≡ Option.map (λ (r : PendingPost). r.status) (Pending.post_row (codes "a") first.posts))
enqueue_again_example =
    enqueue_again platform (pos 9) (pos 9) (pos 10) (pos 10) (λ es. es) (λ es. es) source feed
      empty_db (codes "a") (tt, tt) refl

abbrev pinned_db : Db
pinned_db = db_with (row (codes "club:a") true none ∷ [])

abbrev silent : Chat
silent e i changed = err (failure (codes "off"))

found_conflict : conflict_row (codes "c") pinned_db ≡ some conflict
unfolding get_row list_beq
found_conflict = refl

-- A platform whose stored event is the one that the feed now has.
abbrev reading : Platform
reading = record platform { loads_event = λ s. some (event (codes "a") (codes "B")) }

stored_row : event_row (codes "club:a") pinned_db.events ≡ some (row (codes "club:a") true none)
unfolding get_row list_beq
stored_row = refl

resolve_adopt_example :
    (after : Db) × (written : Event) × (resolve reading
        (pos 9)
        silent
        (codes "c")
        (codes "apply")
        pinned_db
      ≡ ok (after, true))
    × IsAdopted reading
        (pos 9)
        (event (codes "a") (codes "B"))
        (row (codes "club:a") true none)
        written
    × (event_row (codes "club:a") after.events ≡ (
        if codes "club:a" == codes "club:a"
        then some written
        else event_row (codes "club:a") pinned_db.events))
    × (conflict_row (codes "c") after ≡ some (settled ConflictStatus.applied (pos 9) conflict))
    × ((row (codes "club:a") true none).archived_at ≡ none
        → bucket_of
            (content_hash reading (event (codes "a") (codes "B")))
            (event_row (codes "club:a") after.events)
          ≡ is_same)
resolve_adopt_example =
    resolve_adopt reading (pos 9) silent (codes "c") (codes "club:a") pinned_db conflict
      (event (codes "a") (codes "B")) (row (codes "club:a") true none) found_conflict refl refl
      stored_row

is_relevant_iff_example :
    (is_relevant platform (some (pos 7)) none none (pos 9) (some (pos 30)) none ≡ true) ↔ (
      (¬ BeginsAfter (some (pos 7)) (pos 9) none)
      × (¬ OverSince (over_at platform (some (pos 7)) none none) (pos 9) (some (pos 30))))
is_relevant_iff_example =
    is_relevant_iff platform (some (pos 7)) none none (pos 9) (some (pos 30)) none

live_placeholders_are_declared_example :
    All
      (λ e.
        is_master platform (λ decl. none) (pos 9) (pos 9) 1 e ≡ true
        → is_kept platform
            (λ decl. none)
            (pos 9)
            (pos 9)
            1
            (map (series_uid platform (λ decl. none) (pos 9) (pos 9) 1 club.name) club.recurrences)
            e.uid
          ≡ true)
      (materialize platform (λ decl. none) (pos 9) (pos 9) 1 club pinned_db).0.events
live_placeholders_are_declared_example =
    live_placeholders_are_declared platform (λ decl. none) (pos 9) (pos 9) 1 club pinned_db
