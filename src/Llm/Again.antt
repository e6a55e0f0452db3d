-- ===== src/Llm/Again.antt =====
-- Decisions that are applied a second time.
use ripcale_backend.Prelude.{
  ◌≡◌, refl, ap, ◌∙◌, true, ◌||◌, List, [], ◌∷◌, map, some, Text, arith, ==_iff, ==_refl, ◌==◌,
  nat_eq, list_eq, contains, contains-append,
}
use ripcale_backend.Prelude.Int.{int_eq}
use ripcale_backend.Schema.{Instant}
use ripcale_backend.Settings.{IntakeSettings}
use ripcale_backend.Platform.{Platform}
use ripcale_backend.Platform.Laws.{CodecLaws}
use ripcale_backend.Models.{Event, PendingPost, event_key, event_row}
use ripcale_backend.Table.{get_row-modify_row, modify_row}
use ripcale_backend.Identity.{load_exdates, dump_exdates}
use ripcale_backend.Identity.Codec.{load_exdates-dump_exdates}
use ripcale_backend.Llm.{is_occurrence}
use ripcale_backend.Llm.Apply.{delete_found, with_exdate, added}

map-modify_row :
    (id : Text) (f : Event → Event) (events : List Event)
    → ((e : Event) → (f e).id ≡ e.id)
    → map event_key (modify_row event_key id f events) ≡ map event_key events
unfolding modify_row
map-modify_row id f [] h = refl
map-modify_row id f (e ∷ events) h = ground (arith, map-modify_row id f events h, h e)

contains-added :
    (rid t : Instant) (l : List Instant) → contains t (added rid l) ≡ ((rid == t) || contains t l)
unfolding added contains
contains-added rid t l = ground (arith, contains-append t l (rid ∷ []), ==_iff rid t)

added_present : (rid : Instant) (l : List Instant) → contains rid l ≡ true → added rid l ≡ l
unfolding added
added_present rid l h = rw h refl

added_again : (rid : Instant) (l : List Instant) → added rid (added rid l) ≡ added rid l
added_again rid l =
    added_present rid (added rid l)
      (contains-added rid rid l ∙ ap (λ b. b || contains rid l) (==_refl rid))

module _ (p : Platform) (intake : IntakeSettings) (clock_now utcnow : Instant) where
  -- Cancelling one occurrence of a series, where JSON reads back what it wrote: the row of the
  -- series has the cancelled start beside those it had, is not archived by it, and cancelling the
  -- occurrence again does not change the column.
  pub cancel_occurrence :
      (post : PendingPost) (e : Event) (rid : Instant) (events : List Event)
      → CodecLaws p
      → event_row e.id events ≡ some e
      → is_occurrence p e rid ≡ true
      → (row : Event) × (event_row e.id
            (delete_found p intake clock_now utcnow post e (some rid) events).0
          ≡ some row)
        × ((t : Instant)
            → contains t (load_exdates p row.exdates)
              ≡ ((rid == t) || contains t (load_exdates p e.exdates)))
        × (row.archived_at ≡ e.archived_at)
        × ((with_exdate p intake clock_now utcnow rid row).exdates ≡ row.exdates)
  unfolding delete_found
  cancel_occurrence post e rid events laws found occurs =
      let row = with_exdate p intake clock_now utcnow rid e in
      rw occurs (
        row,
        get_row-modify_row event_key e.id e.id (with_exdate p intake clock_now utcnow rid) events
              (λ x. refl)
            ∙ ground (arith, ==_refl e.id),
        λ t.
            ap (contains t)
              (load_exdates-dump_exdates p (added rid (load_exdates p e.exdates)) laws)
            ∙ contains-added rid t (load_exdates p e.exdates),
        refl,
        ap (λ l. dump_exdates p (added rid l))
              (load_exdates-dump_exdates p (added rid (load_exdates p e.exdates)) laws)
            ∙ ap (dump_exdates p) (added_again rid (load_exdates p e.exdates)),
      )
