-- ===== src/Categories/Stored.antt =====
-- The comma-joined text of a row's `categories` against the list of names that it stands for.
use ripcale_backend.Prelude.{
  ℕ, ◌≡◌, ◌≢◌, refl, false, List, [], ◌∷◌, ◌++◌, arith, Text, ◌==◌, ==_iff, nat_eq, list_eq, keep,
  All, ap, ◌∙◌, sym, Avoids, split, join, before, split-join, before-part, contains, Bool-cases,
  inl, inr,
}
use ripcale_backend.Settings.{IntakeSettings}
use ripcale_backend.Categories.{
  colon, comma, default_class, slugify, class_in, category_class, qualify, nonempty,
}
use ripcale_backend.Categories.Slug.{
  is_slug_char, slugify-IsSlug, slugify_idempotent, Avoids-of_Chars,
}

-- A name that a stored list can hold: not empty, and free of commas.
abbrev pub IsStorable : Text → Type 0
IsStorable s = (s ≢ []) × Avoids comma s

nonempty_of_IsStorable : (l : List Text) → All IsStorable l → nonempty l ≡ l
unfolding keep
nonempty_of_IsStorable [] h = refl
nonempty_of_IsStorable ([] ∷ l) h = absurd (h.0.0 refl)
nonempty_of_IsStorable ((c ∷ s) ∷ l) h = ap (◌∷◌ (c ∷ s)) (nonempty_of_IsStorable l h.1)

IsStorable-Avoids : (l : List Text) → All IsStorable l → All (Avoids comma) l
IsStorable-Avoids [] h = tt
IsStorable-Avoids (s ∷ l) h = (h.0.1, IsStorable-Avoids l h.1)

-- Reading a stored text gives back the names that were joined, the empty list included.
pub nonempty-split-join :
    (l : List Text) → All IsStorable l → nonempty (split comma (join comma l)) ≡ l
nonempty-split-join [] h = unfold split join keep in refl
nonempty-split-join (s ∷ l) h =
    ap nonempty (split-join comma s l (IsStorable-Avoids (s ∷ l) h))
    ∙ nonempty_of_IsStorable (s ∷ l) h

class_in-Avoids :
    (sep : ℕ) (name : Text) (defs : List (Text × List Text))
    → is_slug_char sep ≡ false
    → Avoids sep (class_in name defs)
unfolding class_in
class_in-Avoids sep name [] h =
    Avoids-of_Chars sep default_class h (refl, (refl, (refl, (refl, (refl, (refl, tt))))))
class_in-Avoids sep name ((class_name, names) ∷ more) h = ground (
  arith,
  class_in-Avoids sep name more h,
  Avoids-of_Chars sep (slugify class_name) h (slugify-IsSlug class_name).chars,
)

pub category_class-Avoids :
    (sep : ℕ) (intake : IntakeSettings) (name : Text)
    → is_slug_char sep ≡ false
    → Avoids sep (category_class intake name)
unfolding category_class
category_class-Avoids sep intake name h =
    class_in-Avoids sep (slugify name) intake.category_definitions h

Avoids-append : (sep : ℕ) (s t : Text) → Avoids sep s → Avoids sep t → Avoids sep (s ++ t)
Avoids-append sep [] t h k = k
Avoids-append sep (c ∷ s) t h k = (h.0, Avoids-append sep s t h.1 k)

append-ne-nil : (s t : Text) (c : ℕ) → (s ++ (c ∷ t)) ≢ []
append-ne-nil [] t c e = cc
append-ne-nil (d ∷ s) t c e = cc

colon-ne-comma : colon ≢ comma
colon-ne-comma e = omega arith

-- A qualified name can be stored, whatever the raw name and the intake file.
pub qualify-IsStorable : (intake : IntakeSettings) (name : Text) → IsStorable (qualify intake name)
unfolding qualify
qualify-IsStorable intake name = (
  append-ne-nil (category_class intake (slugify name)) (slugify name) colon,
  Avoids-append comma (category_class intake (slugify name)) (colon ∷ slugify name)
      (category_class-Avoids comma intake (slugify name) refl)
      (colon-ne-comma, Avoids-of_Chars comma (slugify name) refl (slugify-IsSlug name).chars),
)

-- The class of a qualified name is read back from the text before its first colon.
pub before-qualify :
    (intake : IntakeSettings) (name : Text)
    → before colon (qualify intake name) ≡ category_class intake (slugify name)
unfolding qualify
before-qualify intake name =
    before-part colon (category_class intake (slugify name)) (slugify name)
      (category_class-Avoids colon intake (slugify name) refl)

-- No name of the list is its own slug.
abbrev pub NoSlugListed : List (Text × List Text) → Type 0
NoSlugListed defs = All (λ d. All (λ n. slugify n ≢ n) d.1) defs

not_contains_slug :
    (name : Text) (names : List Text)
    → All (λ n. slugify n ≢ n) names
    → contains (slugify name) names ≡ false
unfolding contains
not_contains_slug name [] h = refl
not_contains_slug name (n ∷ names) h = elim (Bool-cases (n == slugify name)) [
  | inl same ↦
      let e : n ≡ slugify name = (==_iff n (slugify name)).0 same in
      absurd (h.0 (ap slugify e ∙ slugify_idempotent name ∙ sym e))
  | inr other ↦ rw other (not_contains_slug name names h.1)
]

class_in_of_NoSlugListed :
    (name : Text) (defs : List (Text × List Text))
    → NoSlugListed defs
    → class_in (slugify name) defs ≡ default_class
unfolding class_in
class_in_of_NoSlugListed name [] h = refl
class_in_of_NoSlugListed name ((c, names) ∷ defs) h =
    ground (arith, not_contains_slug name names h.0, class_in_of_NoSlugListed name defs h.1)

-- Where the intake file lists no name in the form of a slug, every name, the listed ones included,
-- falls into the default class `intake`: the lookup compares a slug with the names as written.
pub category_class_unlisted :
    (intake : IntakeSettings) (name : Text)
    → NoSlugListed intake.category_definitions
    → category_class intake name ≡ default_class
unfolding category_class
category_class_unlisted intake name h = class_in_of_NoSlugListed name intake.category_definitions h
