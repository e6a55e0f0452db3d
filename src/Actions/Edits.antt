-- ===== src/Actions/Edits.antt =====
-- What an edit of an event writes.
use ripcale_backend.Prelude.{
  ◌≡◌, ◌≢◌, refl, ap, sym, ◌∙◌, arith, Bool, List, [], ◌∷◌, Option, none, some, Text, ◌==◌, ==_iff,
  nat_eq, list_eq, if◌then◌else◌, codes, lookup,
}
use mathlib.Core.Option
use ripcale_backend.Result.{ok, >>=-eq-ok}
use ripcale_backend.Schema.{Instant}
use ripcale_backend.Platform.{Platform}
use ripcale_backend.Models.{Event, Db, event_key, event_row}
use ripcale_backend.Table.{get_row-modify_row}
use ripcale_backend.Events.{Edit, set_field, set_fields, edited, update_event}
use ripcale_backend.Actions.{Values, coerce_edit_fields, or_missing, or_true, edit_event}

id-set_field : (f : Edit) (e : Event) → (set_field f e).id ≡ e.id
unfolding set_field
id-set_field f e = ground arith

id-set_fields : (fs : List Edit) (e : Event) → (set_fields fs e).id ≡ e.id
unfolding set_fields
id-set_fields [] e = refl
id-set_fields (f ∷ fs) e = id-set_fields fs (set_field f e) ∙ id-set_field f e

module _ (p : Platform) (utcnow : Instant) (id : Text) (fields : List Edit) (pinned : Bool)
    (db : Db) where
  row_behind :
      (asked : Text)
      → event_row asked (update_event p utcnow id fields pinned db).0.events ≡ (
          if id == asked
          then Option.map (edited p utcnow fields pinned) (event_row asked db.events)
          else event_row asked db.events)
  unfolding update_event edited
  row_behind asked =
      get_row-modify_row event_key id asked (edited p utcnow fields pinned) db.events
        (λ e. id-set_fields fields e)

or_missing-ok :
    {V : Type 0} (p : Platform) (v : Values V) (r : Db × Option Event) (after : Db) (e : Event)
    → or_missing p v r ≡ ok (after, e)
    → r ≡ (after, some e)
or_missing-ok p v (db, none) after e h = cc
or_missing-ok p v (db, some x) after e h = cc

-- An edit that succeeds returns the row that is then stored, and changes no other row.
edit_event_stores :
    {V : Type 0} (p : Platform) (v : Values V) (utcnow : Instant) (id : Text)
    (form : List (Text × V)) (db after : Db) (e : Event)
    → edit_event p v utcnow id form db ≡ ok (after, e)
    → (event_row id after.events ≡ some e)
      × ((other : Text) → id ≢ other → event_row other after.events ≡ event_row other db.events)
unfolding edit_event
edit_event_stores p v utcnow id form db after e h =
    let (fields, read, found) = >>=-eq-ok (coerce_edit_fields p v form) _ h in
    let pinned = or_true p v (lookup (codes "pinned") form) in
    let made = update_event p utcnow id fields pinned db in
    let q : made ≡ (after, some e) = or_missing-ok p v made after e found in
    let returned : event_row id made.0.events ≡ made.1 = unfold update_event in refl in
    (
      ap (λ (r : Db × Option Event). event_row id r.0.events) (sym q) ∙ returned ∙ ap (λ r. r.1) q,
      λ other apart.
          ap (λ (r : Db × Option Event). event_row other r.0.events) (sym q)
          ∙ row_behind p utcnow id fields pinned db other
          ∙ ground (arith, ==_iff id other, apart),
    )
