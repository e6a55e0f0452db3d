-- ===== src/Events/Query.antt =====
-- What a listing shows, and in which order.
use ripcale_backend.Prelude.{
  ℕ, ◌≡◌, refl, ◌∙◌, Bool, true, ◌&&◌, ◌||◌, List, [], ◌∷◌, Option, none, some, Text, keep, length,
  All, arith, ◌==◌, Bool-cases, inl, inr, take, nat_eq,
}
use ripcale_backend.Prelude.Order.{
  sort_by, IsSortedBy, All-sort_by, All-keep, All-kept, All-take, length-keep-sort_by,
  sort_by-IsSortedBy, keep-IsSortedBy, take-IsSortedBy,
}
use ripcale_backend.Schema.{Instant}
use ripcale_backend.Settings.{IntakeSettings}
use ripcale_backend.Models.{Event, Db}
use ripcale_backend.Events.{later_first, capped, in_category, selects, query_events}

later_first_total : (a b : Event) → (later_first a b || later_first b a) ≡ true
later_first_total a b = ground arith

later_first_trans :
    (a b c : Event) → later_first a b ≡ true → later_first b c ≡ true → later_first a c ≡ true
later_first_trans a b c h k = ground arith

module _ {ℓ} {A : Type 0} (P : List A → Type ℓ)
    (step : (n : ℕ) (l : List A) → P l → P (take n l)) where
  capped_keeps : (limit : Option ℕ) (l : List A) → P l → P (capped limit l)
  capped_keeps none l h = h
  capped_keeps (some n) l h = elim (Bool-cases (n == 0)) [
    | inl z ↦ rw z h
    | inr other ↦ rw other (step n l h)
  ]

All-both : (P Q : Event → Type 0) (xs : List Event) → All P xs → All Q xs → All (λ e. P e × Q e) xs
All-both P Q [] h k = tt
All-both P Q (x ∷ xs) h k = ((h.0, k.0), All-both P Q xs h.1 k.1)

length-keep-keep :
    (f g : Event → Bool) (xs : List Event)
    → length (keep f (keep g xs)) ≡ length (keep (λ e. g e && f e) xs)
unfolding keep
length-keep-keep f g [] = refl
length-keep-keep f g (x ∷ xs) = ground (arith, length-keep-keep f g xs)

module _ (intake : IntakeSettings) (db : Db) (start end : Option Instant) (category : Option Text)
    (limit : Option ℕ) (exclude_redirects : Bool) where
  abbrev shown : List Event
  shown = query_events intake db start end category limit exclude_redirects

  -- Every row that is listed passes the filters, is live, and is in the category if one is asked.
  pub query_events-All :
      All
        (λ e.
          (selects start end exclude_redirects e ≡ true) × (in_category intake category e ≡ true))
        shown
  unfolding query_events
  query_events-All =
      let chosen = keep (selects start end exclude_redirects) db.events in
      let sorted = sort_by later_first chosen in
      let passing = λ (e : Event). selects start end exclude_redirects e ≡ true in
      let inside = λ (e : Event). in_category intake category e ≡ true in
      capped_keeps (All (λ e. passing e × inside e)) (All-take (λ e. passing e × inside e)) limit _
        (All-both passing inside (keep (in_category intake category) sorted)
          (All-keep passing (in_category intake category) sorted
            (All-sort_by passing later_first chosen (All-kept _ db.events)))
          (All-kept (in_category intake category) sorted))

  -- Without a limit the listing has as many rows as pass the filters: none is lost.
  pub length-query_events :
      limit ≡ none
      → length shown
        ≡ length (
            keep
              (λ e. selects start end exclude_redirects e && in_category intake category e)
              db.events)
  unfolding query_events
  length-query_events unlimited = rw unlimited (
      length-keep-sort_by (in_category intake category) later_first _
      ∙ length-keep-keep (in_category intake category) (selects start end exclude_redirects)
          db.events)

  -- The listing is ordered by start, the latest first, and rows without a start last.
  pub query_events-IsSortedBy : IsSortedBy later_first shown
  unfolding query_events
  query_events-IsSortedBy =
      capped_keeps (IsSortedBy later_first) (take-IsSortedBy later_first) limit _ (
        keep-IsSortedBy later_first (in_category intake category) _
          (sort_by-IsSortedBy later_first later_first_total later_first_trans _))
