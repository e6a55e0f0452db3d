-- ===== src/Table.antt =====
-- A table of the database: its rows in order of insertion, with a primary key. `session.get` finds
-- a row by its key, `session.add` puts one in, and an attribute that is set on a row object changes
-- the row that has its key.
use mathlib.Core.Option
use ripcale_backend.Prelude.{
  ◌≡◌, refl, List, [], ◌∷◌, ◌++◌, map, Option, none, some, Text, ◌==◌, ==_iff, nat_eq, list_eq,
  if◌then◌else◌, arith, is_some,
}
use ripcale_backend.Result.{Result, ok, err, integrity_error}

module _ {R : Type 0} (key : R → Text) where
  -- `session.get(Model, key)`
  unfoldable pub get_row : Text → List R → Option R
  get_row k [] = none
  get_row k (r ∷ rs) = let rest = get_row k rs in if key r == k then some r else rest

  -- `session.add(row)` and the flush that follows: a second row with one key is refused.
  unfoldable pub add_row : R → List R → Result (List R)
  unfolding get_row
  add_row r rs = if is_some (get_row (key r) rs) then err integrity_error else ok (rs ++ r ∷ [])

  -- Attributes set on the row with the key; without such a row nothing happens.
  unfoldable pub modify_row : Text → (R → R) → List R → List R
  modify_row k f [] = []
  modify_row k f (r ∷ rs) = (if key r == k then f r else r) ∷ modify_row k f rs

  -- `session.delete(row)`
  unfoldable pub delete_row : Text → List R → List R
  delete_row k [] = []
  delete_row k (r ∷ rs) = let rest = delete_row k rs in if key r == k then rest else r ∷ rest

  pub get_row-key : (k : Text) (rs : List R) (r : R) → get_row k rs ≡ some r → key r ≡ k
  unfolding get_row
  get_row-key k [] r h = cc
  get_row-key k (x ∷ rs) r h = ground (arith, ==_iff (key x) k, get_row-key k rs r)

  pub get_row-append :
      (k : Text) (rs : List R) (r : R)
      → get_row k (rs ++ r ∷ [])
        ≡ (if is_some (get_row k rs) then get_row k rs else if key r == k then some r else none)
  unfolding get_row
  get_row-append k [] r = refl
  get_row-append k (x ∷ rs) r = ground (arith, get_row-append k rs r)

  pub get_row-add_row :
      (k : Text) (r : R) (rs rs' : List R)
      → add_row r rs ≡ ok rs'
      → get_row k rs' ≡ (if key r == k then some r else get_row k rs)
  unfolding add_row
  get_row-add_row k r rs rs' h = ground (arith, get_row-append k rs r, ==_iff (key r) k)

  -- A row that is there stays as it is.
  pub get_row-add_row_old :
      (k : Text) (r x : R) (rs rs' : List R)
      → add_row r rs ≡ ok rs'
      → get_row k rs ≡ some x
      → get_row k rs' ≡ some x
  unfolding add_row
  get_row-add_row_old k r x rs rs' h e = ground (arith, get_row-append k rs r)

  pub add_row-is_ok :
      (r : R) (rs : List R) → get_row (key r) rs ≡ none → add_row r rs ≡ ok (rs ++ r ∷ [])
  unfolding add_row
  add_row-is_ok r rs h = rw h

  pub get_row-modify_row :
      (k j : Text) (f : R → R) (rs : List R)
      → ((r : R) → key (f r) ≡ key r)
      → get_row j (modify_row k f rs)
        ≡ (if k == j then Option.map f (get_row j rs) else get_row j rs)
  unfolding get_row modify_row
  get_row-modify_row k j f [] same = ground arith
  get_row-modify_row k j f (r ∷ rs) same = ground (
    arith,
    same r,
    get_row-modify_row k j f rs same,
    ==_iff (key r) k,
    ==_iff (key r) j,
    ==_iff (key (f r)) j,
    ==_iff k j,
  )

  -- A row put in the place of the row with its key.
  pub get_row-replace :
      (k j : Text) (b : R) (rs : List R)
      → key b ≡ k
      → get_row j (modify_row k (λ _. b) rs)
        ≡ (if k == j then Option.map (λ _. b) (get_row j rs) else get_row j rs)
  unfolding get_row modify_row
  get_row-replace k j b [] same = ground arith
  get_row-replace k j b (r ∷ rs) same = ground (
    arith,
    get_row-replace k j b rs same,
    ==_iff (key r) k,
    ==_iff (key r) j,
    ==_iff (key b) j,
    ==_iff k j,
  )

  pub get_row-delete_row :
      (k j : Text) (rs : List R)
      → get_row j (delete_row k rs) ≡ (if k == j then none else get_row j rs)
  unfolding get_row delete_row
  get_row-delete_row k j [] = ground arith
  get_row-delete_row k j (r ∷ rs) =
      ground (arith, get_row-delete_row k j rs, ==_iff (key r) k, ==_iff (key r) j, ==_iff k j)

  -- A statement over all rows, `for row in rows: …`, that keeps the keys.
  pub get_row-map :
      (j : Text) (f : R → R) (rs : List R)
      → ((r : R) → key (f r) ≡ key r)
      → get_row j (map f rs) ≡ Option.map f (get_row j rs)
  unfolding get_row
  get_row-map j f [] same = refl
  get_row-map j f (r ∷ rs) same =
      ground (arith, same r, get_row-map j f rs same, ==_iff (key r) j, ==_iff (key (f r)) j)
