-- ===== src/Overseer/Pairs.antt =====
-- The search for pairs, against its definition without the early end of the loop.
use ripcale_backend.Prelude.{
  ◌≡◌, refl, Bool, true, false, ◌&&◌, ◌||◌, not, List, [], ◌∷◌, ◌++◌, map, Option, none, some, Text,
  ◌==◌, nat_eq, list_eq, if◌then◌else◌, keep, contains, All, arith, Bool-cases, inl, inr, ℕ,
  is_some, ==_refl, ◌*◌,
}
use ripcale_backend.Prelude.Int.{pos, ◌+ℤ◌, ◌-ℤ◌, -ℤ_parts, ltb_ℤ, leb_ℤ}
use ripcale_backend.Prelude.Order.{sort_by, IsSortedBy, sort_by-IsSortedBy, All-sort_by, All-kept}
use ripcale_backend.Schema.{Instant}
use ripcale_backend.Models.{Event, Db}
use ripcale_backend.Events.{earlier_first, start_le}
use ripcale_backend.Overseer.{
  World, PairDecision, is_far, is_similar, is_eligible, eligible, pairs_with, pairs_among,
  find_candidate_pairs, is_far_from, proximity, enrichable_fields, richer, names_one,
  validate_decision,
}

far_later :
    (s t u : Instant)
    → ltb_ℤ proximity (t -ℤ s) ≡ true
    → leb_ℤ t u ≡ true
    → ltb_ℤ proximity (u -ℤ s) ≡ true
far_later s t u far before = ground (arith, -ℤ_parts t s, -ℤ_parts u s)

later_is_far :
    (s t u : Option Instant)
    → is_some t ≡ true
    → is_far_from s t ≡ true
    → start_le t u ≡ true
    → is_far_from s u ≡ true
later_is_far none t u there far before = ground arith
later_is_far (some s) none u there far before = ground arith
later_is_far (some s) (some t) none there far before = ground arith
later_is_far (some s) (some t) (some u) there far before = far_later s t u far before

module _ (w : World) where
  -- Two events that may be one: of different sources, at most 12 hours apart, with similar titles.
  abbrev pub is_candidate : Event → Event → Bool
  is_candidate a b = not (a.source_id == b.source_id) && (not (is_far a b) && is_similar w a b)

  -- Every pair of a list, in order, that passes.
  unfoldable pub all_pairs : List Event → List (Event × Event)
  all_pairs [] = []
  all_pairs (a ∷ rows) = map (λ b. (a, b)) (keep (is_candidate a) rows) ++ all_pairs rows

  -- What starts after an event that is too late is too late.
  far_stays :
      (a b c : Event)
      → is_some b.start_at ≡ true
      → is_far a b ≡ true
      → earlier_first b c ≡ true
      → is_far a c ≡ true
  far_stays a b c there far before = later_is_far a.start_at b.start_at c.start_at there far before

  none_far :
      (a b : Event) (rows : List Event)
      → is_some b.start_at ≡ true
      → is_far a b ≡ true
      → All (λ c. earlier_first b c ≡ true) rows
      → keep (is_candidate a) rows ≡ []
  unfolding keep
  none_far a b [] there far h = refl
  none_far a b (c ∷ rows) there far h =
      ground (arith, far_stays a b c there far h.0, none_far a b rows there far h.1)

  pairs_with-keep :
      (a : Event) (rows : List Event)
      → IsSortedBy earlier_first rows
      → All (λ c. is_some c.start_at ≡ true) rows
      → pairs_with w a rows ≡ map (λ b. (a, b)) (keep (is_candidate a) rows)
  unfolding pairs_with keep
  pairs_with-keep a [] s h = refl
  pairs_with-keep a (b ∷ rows) s h =
      ground (arith, pairs_with-keep a rows s.1 h.1, none_far a b rows h.0)

  pairs_among-all_pairs :
      (rows : List Event)
      → IsSortedBy earlier_first rows
      → All (λ c. is_some c.start_at ≡ true) rows
      → pairs_among w rows ≡ all_pairs rows
  unfolding pairs_among all_pairs
  pairs_among-all_pairs [] s h = refl
  pairs_among-all_pairs (a ∷ rows) s h =
      rw (pairs_with-keep a rows s.1 h.1, pairs_among-all_pairs rows s.1 h.1) refl

  eligible_has_start :
      (now horizon : Instant) (rows : List Event)
      → All (λ c. is_eligible w now horizon c ≡ true) rows
      → All (λ (c : Event). is_some c.start_at ≡ true) rows
  unfolding is_eligible
  eligible_has_start now horizon [] h = tt
  eligible_has_start now horizon (e ∷ rows) h =
      (ground arith, eligible_has_start now horizon rows h.1)

  earlier_total : (a b : Event) → (earlier_first a b || earlier_first b a) ≡ true
  earlier_total a b = ground arith

  earlier_trans :
      (a b c : Event)
      → earlier_first a b ≡ true
      → earlier_first b c ≡ true
      → earlier_first a c ≡ true
  earlier_trans a b c h k = ground arith

  -- The search with its early end finds every pair of eligible events, of different sources, at
  -- most 12 hours apart and with similar titles, in the order of their starts, and nothing else.
  pub find_candidate_pairs-all_pairs :
      (now : Instant) (window_days : ℕ) (db : Db)
      → find_candidate_pairs w now window_days db ≡ all_pairs (eligible w now window_days db)
  unfolding find_candidate_pairs eligible
  find_candidate_pairs-all_pairs now window_days db =
      let horizon = now +ℤ pos (window_days * 86400 * 1000000) in
      let chosen = keep (is_eligible w now horizon) db.events in
      pairs_among-all_pairs (sort_by earlier_first chosen)
        (sort_by-IsSortedBy earlier_first earlier_total earlier_trans chosen)
        (eligible_has_start now horizon (sort_by earlier_first chosen) (
          All-sort_by (λ c. is_eligible w now horizon c ≡ true) earlier_first chosen
            (All-kept (is_eligible w now horizon) db.events)))

  winner_is_one :
      (a b : Event) (o : Option Text)
      → names_one w a b (if names_one w a b o then o else some (richer w a b)) ≡ true
  winner_is_one a b o = ground (arith, ==_refl a.id, ==_refl b.id)

  -- Whatever the model answers on a pair, the decision that is used names one of the two events if
  -- it says that they are the same, and then enriches only with fields that may be, and otherwise
  -- names none and enriches with nothing.
  pub validate_decision-IsValid :
      (d : PairDecision) (a b : Event)
      → let v = validate_decision w d a b in
        (v.same ≡ d.same)
        × (d.same ≡ true
            → (names_one w a b v.canonical_id ≡ true)
              × All (λ f. contains f.0 (enrichable_fields w) ≡ true) v.enrich)
        × (d.same ≡ false → (v.canonical_id ≡ none) × (v.enrich ≡ []))
  unfolding validate_decision
  validate_decision-IsValid d a b = elim (Bool-cases d.same) [
    | inl same ↦ rw same (
      refl,
      (λ h. (
        winner_is_one a b d.canonical_id,
        All-kept (λ f. contains f.0 (enrichable_fields w)) d.enrich,
      )),
      λ h. absurd (ground arith),
    )
    | inr other ↦ rw other (refl, (λ h. absurd (ground arith)), λ h. (refl, refl))
  ]
