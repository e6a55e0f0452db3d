-- ===== src/Retag/Renames.antt =====
-- The categories of the events behind a retag.
use ripcale_backend.Prelude.{
  ℕ, ◌≡◌, ◌≢◌, refl, sym, ap, ◌∙◌, arith, Bool, true, false, ◌&&◌, ◌||◌, not, List, [], ◌∷◌, map,
  Option, some, Text, ◌==◌, ==_iff, nat_eq, list_eq, split, join, contains, keep, All, Avoids,
  Bool-cases, inl, inr, All-of_contains, push_head, All-at,
}
use ripcale_backend.Prelude.Order.{
  sorted_set, contains-sorted_set, sorted_set-IsAscending, sorted_set_of_IsAscending,
}
use ripcale_backend.Models.{Event, Db}
use ripcale_backend.Categories.{comma, nonempty}
use ripcale_backend.Categories.Stored.{IsStorable, nonempty-split-join}
use ripcale_backend.Retag.{tokens, replaced, replace_token, retag_rows, retag}

push_head-Avoids :
    (sep c : ℕ) (ps : List Text) → c ≢ sep → All (Avoids sep) ps → All (Avoids sep) (push_head c ps)
push_head-Avoids sep c [] h k = ((h, tt), tt)
push_head-Avoids sep c (p ∷ ps) h k = ((h, k.0), k.1)

split-Avoids : (sep : ℕ) (s : Text) → All (Avoids sep) (split sep s)
unfolding split
split-Avoids sep [] = (tt, tt)
split-Avoids sep (c ∷ s) =
    ground (arith, ==_iff c sep, push_head-Avoids sep c (split sep s), split-Avoids sep s)

nonempty-IsStorable : (ps : List Text) → All (Avoids comma) ps → All IsStorable (nonempty ps)
unfolding keep
nonempty-IsStorable [] h = tt
nonempty-IsStorable ([] ∷ ps) h = nonempty-IsStorable ps h.1
nonempty-IsStorable ((c ∷ s) ∷ ps) h = ((λ e. cc, h.0), nonempty-IsStorable ps h.1)

tokens-IsStorable : (s : Text) → All IsStorable (tokens s)
tokens-IsStorable s = nonempty-IsStorable (split comma s) (split-Avoids comma s)

-- A text that is joined of storable names in their order is read back.
tokens-join : (names : List Text) → All IsStorable names → tokens (join comma names) ≡ names
tokens-join names h = nonempty-split-join names h

-- The test for the empty text changes nothing.
replace_token-join :
    (from : Text) (to : Option Text) (s : Text)
    → replace_token from to s ≡ join comma (sorted_set (replaced from to (tokens s)))
unfolding replace_token
replace_token-join from to [] = unfold split keep replaced sorted_set join in refl
replace_token-join from to (c ∷ s) = refl

contains-replaced :
    (from to : Text) (names : List Text) (c : Text)
    → to ≢ []
    → contains c (replaced from (some to) names)
      ≡ ((contains c names && not (c == from)) || (contains from names && (c == to)))
unfolding replaced contains
contains-replaced from to [] c h = refl
contains-replaced from [] (x ∷ names) c h = absurd (h refl)
contains-replaced from (d ∷ t) (x ∷ names) c h = ground (
  arith,
  ==_iff x from,
  ==_iff x c,
  ==_iff c from,
  ==_iff (d ∷ t) c,
  ==_iff c (d ∷ t),
  contains-replaced from (d ∷ t) names c h,
)

replaced-IsStorable :
    (from to : Text) (names : List Text)
    → IsStorable to
    → All IsStorable names
    → All IsStorable (replaced from (some to) names)
unfolding replaced
replaced-IsStorable from to [] h k = tt
replaced-IsStorable from [] (x ∷ names) h k = absurd (h.0 refl)
replaced-IsStorable from (d ∷ t) (x ∷ names) h k =
    ground (arith, h, k.0, replaced-IsStorable from (d ∷ t) names h k.1)

sorted_set-IsStorable :
    (names : List Text) → All IsStorable names → All IsStorable (sorted_set names)
sorted_set-IsStorable names h =
    All-of_contains IsStorable (sorted_set names)
      (λ a p. All-at IsStorable names a h (sym (contains-sorted_set a names) ∙ p))

tokens-replace_token :
    (from to s : Text)
    → IsStorable to
    → tokens (replace_token from (some to) s) ≡ sorted_set (replaced from (some to) (tokens s))
tokens-replace_token from to s h =
    ap tokens (replace_token-join from (some to) s)
    ∙ tokens-join (sorted_set (replaced from (some to) (tokens s))) (
        sorted_set-IsStorable (replaced from (some to) (tokens s))
          (replaced-IsStorable from to (tokens s) h (tokens-IsStorable s)))

-- The names behind a renaming: the old ones without `from`, and `to` where `from` was among them.
abbrev pub renamed : Text → Text → Text → List Text → Bool
renamed from to c names =
    (contains c names && not (c == from)) || (contains from names && (c == to))

contains-replace_token :
    (from to s c : Text)
    → IsStorable to
    → contains c (tokens (replace_token from (some to) s)) ≡ renamed from to c (tokens s)
contains-replace_token from to s c h =
    ap (contains c) (tokens-replace_token from to s h)
    ∙ contains-sorted_set c (replaced from (some to) (tokens s))
    ∙ contains-replaced from to (tokens s) c h.0

replaced_without :
    (from : Text) (to : Option Text) (names : List Text)
    → contains from names ≡ false
    → replaced from to names ≡ names
unfolding replaced contains
replaced_without from to [] h = refl
replaced_without from to (x ∷ names) h = ground (arith, replaced_without from to names)

from_is_gone :
    (from to s : Text)
    → IsStorable to
    → from ≢ to
    → contains from (tokens (replace_token from (some to) s)) ≡ false
from_is_gone from to s h k =
    contains-replace_token from to s from h ∙ ground (arith, ==_iff from from, ==_iff from to)

replace_token_twice :
    (from to s : Text)
    → IsStorable to
    → from ≢ to
    → replace_token from (some to) (replace_token from (some to) s) ≡ replace_token from (some to) s
replace_token_twice from to s h k =
    let names = replaced from (some to) (tokens s) in
    let again = tokens (replace_token from (some to) s) in
    replace_token-join from (some to) (replace_token from (some to) s)
    ∙ ap (λ l. join comma (sorted_set l))
        (replaced_without from (some to) again (from_is_gone from to s h k)
          ∙ tokens-replace_token from to s h)
    ∙ ap (join comma) (sorted_set_of_IsAscending (sorted_set names) (sorted_set-IsAscending names))
    ∙ sym (replace_token-join from (some to) s)

abbrev pub carries : Text → Event → Bool
carries c e = contains c (tokens e.categories)

cons-eq : {x y : Bool} {xs ys : List Bool} → x ≡ y → xs ≡ ys → (x ∷ xs) ≡ (y ∷ ys)
cons-eq p q = cc

renames :
    (from to c : Text) (rows : List Event)
    → IsStorable to
    → map (carries c) (retag_rows from (some to) rows).0
      ≡ map (λ (e : Event). renamed from to c (tokens e.categories)) rows
unfolding retag_rows
renames from to c [] h = refl
renames from to c (e ∷ rows) h =
    let old = e.categories in
    let there = contains-replace_token from to old c h in
    let rest = renames from to c rows h in
    elim (Bool-cases (replace_token from (some to) old == old)) [
      | inl same ↦
          let q : replace_token from (some to) old ≡ old =
            (==_iff (replace_token from (some to) old) old).0 same in
          rw same (cons-eq (ap (λ s. contains c (tokens s)) (sym q) ∙ there) rest)
      | inr other ↦ rw other (cons-eq there rest)
    ]

unchanged :
    (from to : Text) (rows : List Event)
    → IsStorable to
    → from ≢ to
    → retag_rows from (some to) (retag_rows from (some to) rows).0
      ≡ ((retag_rows from (some to) rows).0, (0, []))
unfolding retag_rows
unchanged from to [] h k = refl
unchanged from to (e ∷ rows) h k =
    let old = e.categories in
    let rest = unchanged from to rows h k in
    let new = replace_token from (some to) old in
    let again : (replace_token from (some to) new == new) ≡ true =
      (==_iff (replace_token from (some to) new) new).1 (replace_token_twice from to old h k) in
    elim (Bool-cases (new == old)) [
      | inl same ↦ rw same (rw rest (rw same refl))
      | inr other ↦ rw other (rw rest (rw again refl))
    ]

-- After a renaming to another name that can be stored, a row carries a category exactly where it
-- carried it before and it is not the old name, or where it carried the old name and it is the new
-- one. A second renaming changes nothing and reports nothing.
pub retag_renames :
    (from to : Text) (db : Db) (c : Text)
    → IsStorable to
    → from ≢ to
    → (map (carries c) (retag from (some to) db).0.events
        ≡ map (λ (e : Event). renamed from to c (tokens e.categories)) db.events)
      × (retag from (some to) (retag from (some to) db).0 ≡ ((retag from (some to) db).0, (0, [])))
unfolding retag
retag_renames from to db c h k = (
  renames from to c db.events h,
  ap (λ r. (record db { events = r.0 }, r.1)) (unchanged from to db.events h k),
)
