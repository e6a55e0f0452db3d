-- ===== src/Prelude/Order.antt =====
-- `sorted(set(l))` and `sorted(l, key=…)`: Python's sort is stable, and a set has no order of its
-- own, so both results are determined.
use ripcale_backend.Prelude.Tests.{◌==◌, ==_iff, nat_eq, list_eq, if◌then◌else◌}
use ripcale_backend.Prelude.Lists.{contains, All, length, keep, take, length-keep-le}
use ripcale_backend.Prelude.Texts.{Text, text_lt, text_lt_trans, text_lt_connex}
use Prim.Native.Nat.{ℕ, zero, suc, ◌+◌, ◌≤◌}
use mathlib.Core.Path.{◌≡◌, refl, ap, ◌∙◌}
use mathlib.Core.Bool.{Bool, true, not, ◌||◌}
use mathlib.Core.List.{List, [], ◌∷◌}
use native.Mathlib.Omega.{arith}

-- Into an ascending list without repetition, unless it is there.
unfoldable pub insert_set : Text → List Text → List Text
insert_set a [] = a ∷ []
insert_set a (x ∷ xs) =
    let rest = insert_set a xs in
    if text_lt a x then a ∷ x ∷ xs else if a == x then x ∷ xs else x ∷ rest

-- `sorted(set(l))`
unfoldable pub sorted_set : List Text → List Text
unfolding insert_set
sorted_set [] = []
sorted_set (x ∷ xs) = insert_set x (sorted_set xs)

-- Ascending, with no repetition.
abbrev pub IsAscending : List Text → Type 0
IsAscending [] = Unit
IsAscending (x ∷ xs) = All (λ y. text_lt x y ≡ true) xs × IsAscending xs

contains-insert_set :
    (a b : Text) (xs : List Text) → contains a (insert_set b xs) ≡ ((b == a) || contains a xs)
unfolding insert_set contains
contains-insert_set a b [] = refl
contains-insert_set a b (x ∷ xs) =
    ground (arith, contains-insert_set a b xs, ==_iff b x, ==_iff b a, ==_iff x a)

-- `sorted(set(l))` has the members of `l`.
pub contains-sorted_set : (a : Text) (xs : List Text) → contains a (sorted_set xs) ≡ contains a xs
unfolding sorted_set contains
contains-sorted_set a [] = refl
contains-sorted_set a (x ∷ xs) =
    contains-insert_set a x (sorted_set xs) ∙ ap (λ r. (x == a) || r) (contains-sorted_set a xs)

All-lt_trans :
    (a x : Text) (xs : List Text)
    → text_lt a x ≡ true
    → All (λ y. text_lt x y ≡ true) xs
    → All (λ y. text_lt a y ≡ true) xs
All-lt_trans a x [] h k = tt
All-lt_trans a x (y ∷ xs) h k = (text_lt_trans a x y h k.0, All-lt_trans a x xs h k.1)

All-insert_set {ℓ} :
    (P : Text → Type ℓ) (a : Text) (xs : List Text) → P a → All P xs → All P (insert_set a xs)
unfolding insert_set
All-insert_set P a [] h k = (h, tt)
All-insert_set P a (x ∷ xs) h k = ground (arith, All-insert_set P a xs h k.1)

insert_set-IsAscending :
    (a : Text) (xs : List Text) → IsAscending xs → IsAscending (insert_set a xs)
unfolding insert_set
insert_set-IsAscending a [] h = (tt, tt)
insert_set-IsAscending a (x ∷ xs) h = ground (
  arith,
  ==_iff a x,
  text_lt_connex a x,
  All-lt_trans a x xs,
  All-insert_set (λ y. text_lt x y ≡ true) a xs,
  insert_set-IsAscending a xs,
)

-- `sorted(set(l))` ascends strictly.
pub sorted_set-IsAscending : (xs : List Text) → IsAscending (sorted_set xs)
unfolding sorted_set
sorted_set-IsAscending [] = tt
sorted_set-IsAscending (x ∷ xs) =
    insert_set-IsAscending x (sorted_set xs) (sorted_set-IsAscending xs)

insert_set_least :
    (a : Text) (xs : List Text) → All (λ y. text_lt a y ≡ true) xs → insert_set a xs ≡ a ∷ xs
unfolding insert_set
insert_set_least a [] h = refl
insert_set_least a (x ∷ xs) h = ground arith

-- Sorting an ascending list changes nothing.
pub sorted_set_of_IsAscending : (xs : List Text) → IsAscending xs → sorted_set xs ≡ xs
unfolding sorted_set
sorted_set_of_IsAscending [] h = refl
sorted_set_of_IsAscending (x ∷ xs) h =
    ap (insert_set x) (sorted_set_of_IsAscending xs h.1) ∙ insert_set_least x xs h.0

module _ {ℓ} {A : Type ℓ} where
  -- A stable insertion: before the first element that `le` puts after it.
  unfoldable pub insert_by : (A → A → Bool) → A → List A → List A
  insert_by le a [] = a ∷ []
  insert_by le a (x ∷ xs) = let rest = insert_by le a xs in if le a x then a ∷ x ∷ xs else x ∷ rest

  -- `sorted(l)` by an order, equal elements in their old order
  unfoldable pub sort_by : (A → A → Bool) → List A → List A
  unfolding insert_by
  sort_by le [] = []
  sort_by le (x ∷ xs) = insert_by le x (sort_by le xs)

  length-insert_by :
      (le : A → A → Bool) (a : A) (xs : List A) → length (insert_by le a xs) ≡ suc (length xs)
  unfolding insert_by
  length-insert_by le a [] = refl
  length-insert_by le a (x ∷ xs) = ground (arith, length-insert_by le a xs)

  pub length-sort_by : (le : A → A → Bool) (xs : List A) → length (sort_by le xs) ≡ length xs
  unfolding sort_by
  length-sort_by le [] = refl
  length-sort_by le (x ∷ xs) = length-insert_by le x (sort_by le xs) ∙ ap suc (length-sort_by le xs)

-- `a <= b` on texts
abbrev pub text_le : Text → Text → Bool
text_le a b = text_lt a b || (a == b)

-- Every element is before all that follow it.
abbrev pub IsSortedBy {ℓ} : {A : Type ℓ} → (A → A → Bool) → List A → Type 0
IsSortedBy le [] = Unit
IsSortedBy le (x ∷ xs) = All (λ y. le x y ≡ true) xs × IsSortedBy le xs

module _ {ℓ} {A : Type ℓ} where
  pub All-insert_by {κ} :
      (P : A → Type κ) (le : A → A → Bool) (a : A) (xs : List A)
      → P a
      → All P xs
      → All P (insert_by le a xs)
  unfolding insert_by
  All-insert_by P le a [] h k = (h, tt)
  All-insert_by P le a (x ∷ xs) h k = ground (arith, All-insert_by P le a xs h k.1)

  pub All-sort_by {κ} :
      (P : A → Type κ) (le : A → A → Bool) (xs : List A) → All P xs → All P (sort_by le xs)
  unfolding sort_by
  All-sort_by P le [] h = tt
  All-sort_by P le (x ∷ xs) h = All-insert_by P le x (sort_by le xs) h.0 (All-sort_by P le xs h.1)

  pub All-keep {κ} :
      (P : A → Type κ) (test : A → Bool) (xs : List A) → All P xs → All P (keep test xs)
  unfolding keep
  All-keep P test [] h = tt
  All-keep P test (x ∷ xs) h = ground (arith, All-keep P test xs h.1)

  pub All-kept : (test : A → Bool) (xs : List A) → All (λ x. test x ≡ true) (keep test xs)
  unfolding keep
  All-kept test [] = tt
  All-kept test (x ∷ xs) = ground (arith, All-kept test xs)

  pub All-take {κ} : (P : A → Type κ) (n : ℕ) (xs : List A) → All P xs → All P (take n xs)
  All-take P zero xs h = tt
  All-take P (suc n) [] h = tt
  All-take P (suc n) (x ∷ xs) h = (h.0, All-take P n xs h.1)

  length-keep-insert_by :
      (test : A → Bool) (le : A → A → Bool) (a : A) (xs : List A)
      → length (keep test (insert_by le a xs)) ≡ length (keep test (a ∷ xs))
  unfolding insert_by keep
  length-keep-insert_by test le a [] = refl
  length-keep-insert_by test le a (x ∷ xs) = ground (arith, length-keep-insert_by test le a xs)

  -- Sorting loses and adds nothing.
  pub length-keep-sort_by :
      (test : A → Bool) (le : A → A → Bool) (xs : List A)
      → length (keep test (sort_by le xs)) ≡ length (keep test xs)
  unfolding sort_by keep
  length-keep-sort_by test le [] = refl
  length-keep-sort_by test le (x ∷ xs) =
      ground
        (arith, length-keep-insert_by test le x (sort_by le xs), length-keep-sort_by test le xs)

  module _ (le : A → A → Bool) (total : (a b : A) → (le a b || le b a) ≡ true)
      (trans : (a b c : A) → le a b ≡ true → le b c ≡ true → le a c ≡ true) where
    All-le :
        (a x : A) (xs : List A)
        → le a x ≡ true
        → All (λ y. le x y ≡ true) xs
        → All (λ y. le a y ≡ true) xs
    All-le a x [] h k = tt
    All-le a x (y ∷ xs) h k = (trans a x y h k.0, All-le a x xs h k.1)

    insert_by-IsSortedBy :
        (a : A) (xs : List A) → IsSortedBy le xs → IsSortedBy le (insert_by le a xs)
    unfolding insert_by
    insert_by-IsSortedBy a [] h = (tt, tt)
    insert_by-IsSortedBy a (x ∷ xs) h = ground (
      arith,
      total a x,
      All-le a x xs,
      All-insert_by (λ y. le x y ≡ true) le a xs,
      insert_by-IsSortedBy a xs,
    )

    pub sort_by-IsSortedBy : (xs : List A) → IsSortedBy le (sort_by le xs)
    unfolding sort_by
    sort_by-IsSortedBy [] = tt
    sort_by-IsSortedBy (x ∷ xs) = insert_by-IsSortedBy x (sort_by le xs) (sort_by-IsSortedBy xs)

  pub keep-IsSortedBy :
      (le : A → A → Bool) (test : A → Bool) (xs : List A)
      → IsSortedBy le xs
      → IsSortedBy le (keep test xs)
  unfolding keep
  keep-IsSortedBy le test [] h = tt
  keep-IsSortedBy le test (x ∷ xs) h =
      ground (arith, All-keep (λ y. le x y ≡ true) test xs h.0, keep-IsSortedBy le test xs h.1)

  pub take-IsSortedBy :
      (le : A → A → Bool) (n : ℕ) (xs : List A) → IsSortedBy le xs → IsSortedBy le (take n xs)
  take-IsSortedBy le zero xs h = tt
  take-IsSortedBy le (suc n) [] h = tt
  take-IsSortedBy le (suc n) (x ∷ xs) h =
      (All-take (λ y. le x y ≡ true) n xs h.0, take-IsSortedBy le n xs h.1)

  -- Without the elements whose keys are listed, among them those of the first `k`, at least `k` are
  -- fewer.
  pub length-keep_others :
      (key : A → Text) (gone : List Text) (xs : List A) (k : ℕ)
      → k ≤ length xs
      → All (λ x. contains (key x) gone ≡ true) (take k xs)
      → length (keep (λ x. not (contains (key x) gone)) xs) + k ≤ length xs
  unfolding keep
  length-keep_others key gone xs zero h all =
      omega (arith, length-keep-le (λ x. not (contains (key x) gone)) xs)
  length-keep_others key gone [] (suc k) h all = absurd (omega arith)
  length-keep_others key gone (x ∷ xs) (suc k) h all =
      ground (arith, length-keep_others key gone xs k (omega arith) all.1)
