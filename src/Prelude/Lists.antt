-- ===== src/Prelude/Lists.antt =====
-- Lists: lengths by native numbers, the loops of the program as functions, and predicates.
use Prim.Native.Nat.{ℕ, zero, suc, ◌+◌, ◌≤◌}
use mathlib.Core.Path.{◌≡◌, refl, ap}
use mathlib.Core.Logic.{inl, inr}
use mathlib.Core.Bool.{Bool, true, false, ◌||◌, ◌&&◌}
use mathlib.Core.Option.{Option, none, some}
use mathlib.Core.List.{List, [], ◌∷◌, ◌++◌, map}
use native.Mathlib.Omega.{arith}
use ripcale_backend.Prelude.Tests.{Eq, ◌==◌, ==_iff, if◌then◌else◌, Bool-cases}

module _ {ℓ} {A : Type ℓ} where
  abbrev pub length : List A → ℕ
  length [] = 0
  length (x ∷ xs) = suc (length xs)

  pub length-append : (xs ys : List A) → length (xs ++ ys) ≡ length xs + length ys
  length-append [] ys = omega arith
  length-append (x ∷ xs) ys = omega (arith, length-append xs ys)

  -- `[x for x in l if test(x)]`
  unfoldable pub keep : (A → Bool) → List A → List A
  keep test [] = []
  keep test (x ∷ xs) = let rest = keep test xs in if test x then x ∷ rest else rest

  pub length-keep-le : (test : A → Bool) (xs : List A) → length (keep test xs) ≤ length xs
  unfolding keep
  length-keep-le test [] = omega arith
  length-keep-le test (x ∷ xs) = ground (arith, length-keep-le test xs)

  -- `next((x for x in l if test(x)), None)`, and `.first()` of a query
  unfoldable pub find : (A → Bool) → List A → Option A
  find test [] = none
  find test (x ∷ xs) = let rest = find test xs in if test x then some x else rest

  pub find-test : (test : A → Bool) (xs : List A) (a : A) → find test xs ≡ some a → test a ≡ true
  unfolding find
  find-test test [] a h = ground arith
  find-test test (x ∷ xs) a h = ground (arith, find-test test xs a)

  unfoldable pub any : (A → Bool) → List A → Bool
  any test [] = false
  any test (x ∷ xs) = test x || any test xs

  abbrev pub take : ℕ → List A → List A
  take zero xs = []
  take (suc n) [] = []
  take (suc n) (x ∷ xs) = x ∷ take n xs

  -- A predicate by recursion computes to tuples, which the tactics read and build.
  abbrev pub All {κ} : (A → Type κ) → List A → Type κ
  All P [] = Unit
  All P (x ∷ xs) = P x × All P xs

pub length-map {ℓ κ} :
    {A : Type ℓ} {B : Type κ} (xs : List A) (f : A → B) → length (map f xs) ≡ length xs
length-map [] f = refl
length-map (x ∷ xs) f = ap suc (length-map xs f)

module _ {ℓ} {A : Type ℓ} ⦃e : Eq A⦄ where
  -- `a in l`
  unfoldable pub contains : A → List A → Bool
  contains a [] = false
  contains a (x ∷ xs) = (x == a) || contains a xs

  pub contains-append :
      (a : A) (xs ys : List A) → contains a (xs ++ ys) ≡ (contains a xs || contains a ys)
  unfolding contains
  contains-append a [] ys = refl
  contains-append a (x ∷ xs) ys = ground (arith, contains-append a xs ys)

  pub contains-keep :
      (a : A) (test : A → Bool) (xs : List A)
      → contains a (keep test xs) ≡ (test a && contains a xs)
  unfolding contains keep
  contains-keep a test [] = ground arith
  contains-keep a test (x ∷ xs) = elim (Bool-cases (x == a)) [
    | inl same ↦ rw ((==_iff x a).0 same) (ground (arith, contains-keep a test xs, ==_iff a a))
    | inr other ↦ ground (arith, contains-keep a test xs)
  ]

  pub contains-map {κ} :
      {B : Type κ} (a : A) (f : B → A) (xs : List B)
      → contains a (map f xs) ≡ any (λ x. f x == a) xs
  unfolding contains any
  contains-map a f [] = refl
  contains-map a f (x ∷ xs) = ap (λ r. (f x == a) || r) (contains-map a f xs)

  pub not_contains-map-keep {κ} :
      {B : Type κ} (a : A) (f : B → A) (test : B → Bool) (xs : List B)
      → ((x : B) → f x ≡ a → test x ≡ false)
      → contains a (map f (keep test xs)) ≡ false
  unfolding contains keep
  not_contains-map-keep a f test [] h = refl
  not_contains-map-keep a f test (x ∷ xs) h =
      ground (arith, h x, ==_iff (f x) a, not_contains-map-keep a f test xs h)

  pub All-of_contains {κ} :
      (P : A → Type κ) (xs : List A) → ((a : A) → contains a xs ≡ true → P a) → All P xs
  unfolding contains
  All-of_contains P [] h = tt
  All-of_contains P (x ∷ xs) h =
      (h x (ground (arith, ==_iff x x)), All-of_contains P xs (λ a p. h a (ground arith)))

  pub All-at {κ} : (P : A → Type κ) (xs : List A) (a : A) → All P xs → contains a xs ≡ true → P a
  unfolding contains
  All-at P [] a h p = ground arith
  All-at P (x ∷ xs) a h p = ground (arith, ==_iff x a, All-at P xs a h.1)

-- `d.get(k)` and `k in d` on a dict with its items in order
module _ {ℓ κ} {K : Type ℓ} {V : Type κ} ⦃e : Eq K⦄ where
  unfoldable pub lookup : K → List (K × V) → Option V
  lookup key [] = none
  lookup key ((first, value) ∷ items) =
      let later = lookup key items in if first == key then some value else later

  -- `d[k] = v`: an old key keeps its place
  unfoldable pub insert : K → V → List (K × V) → List (K × V)
  insert key new [] = (key, new) ∷ []
  insert key new ((first, value) ∷ items) =
      let later = insert key new items in
      if first == key then (first, new) ∷ items else (first, value) ∷ later

  -- `d.pop(k, None)`
  unfoldable pub remove : K → List (K × V) → List (K × V)
  remove key [] = []
  remove key ((first, value) ∷ items) =
      let later = remove key items in if first == key then later else (first, value) ∷ later

  pub lookup-insert :
      (key asked : K) (new : V) (items : List (K × V))
      → lookup asked (insert key new items)
        ≡ (if key == asked then some new else lookup asked items)
  unfolding lookup insert
  lookup-insert key asked new [] = refl
  lookup-insert key asked new ((first, value) ∷ items) = ground (
    arith,
    lookup-insert key asked new items,
    ==_iff first asked,
    ==_iff first key,
    ==_iff key asked,
  )

  pub lookup-remove :
      (k j : K) (m : List (K × V)) → lookup j (remove k m) ≡ (if k == j then none else lookup j m)
  unfolding lookup remove
  lookup-remove k j [] = ground arith
  lookup-remove k j ((i, w) ∷ m) =
      ground (arith, ==_iff k j, ==_iff i k, ==_iff i j, lookup-remove k j m)

module _ {ℓ} {A : Type ℓ} where
  abbrev pub or_else : Option A → A → A
  or_else none d = d
  or_else (some a) d = a
