-- ===== src/Categories/Exposure.antt =====
-- Which categories a reader of the public service sees.
use ripcale_backend.Prelude.{
  ◌≡◌, Bool, false, ◌&&◌, not, List, [], ◌∷◌, map, arith, Text, ◌==◌, nat_eq, list_eq, is_empty,
  keep, any, All, ap, ◌∙◌, sym, split, join, contains, contains-keep, contains-map,
}
use ripcale_backend.Prelude.Order.{contains-sorted_set, sorted_set-IsAscending, IsAscending}
use ripcale_backend.Settings.{IntakeSettings}
use ripcale_backend.Categories.{
  comma, slugify, category_class, qualify, exposed_classes, is_exposed, expose, follow,
  resolve_categories, nonempty, resolve_event_categories, normalize_proposed,
}
use ripcale_backend.Categories.Stored.{
  IsStorable, nonempty-split-join, qualify-IsStorable, before-qualify,
}

-- What a reader may see of the names of a row: each name with its symlink followed, where the
-- class of the result is exposed.
pub visible : IntakeSettings → List Text → Text → Bool
visible intake names c =
    is_exposed intake c && any (λ n. follow intake.category_symlinks n == c) names

contains-expose :
    (intake : IntakeSettings) (c : Text) (names : List Text)
    → contains c (expose intake (resolve_categories intake.category_symlinks names))
      ≡ visible intake names c
unfolding expose resolve_categories visible
contains-expose intake c names =
    contains-sorted_set c _
    ∙ contains-keep c (is_exposed intake) _
    ∙ ap (λ r. is_exposed intake c && r)
        (contains-sorted_set c _ ∙ contains-map c (follow intake.category_symlinks) names)

split_empty :
    (intake : IntakeSettings) (c : Text) → visible intake (nonempty (split comma [])) c ≡ false
unfolding visible split keep any
split_empty intake c = ground arith

-- A category is shown for a row exactly if its class is exposed and it is what the symlinks make
-- of a name in the row's text.
pub contains-resolve_event_categories :
    (intake : IntakeSettings) (stored c : Text)
    → contains c (resolve_event_categories intake stored)
      ≡ visible intake (nonempty (split comma stored)) c
unfolding resolve_event_categories contains
contains-resolve_event_categories intake [] c = sym (split_empty intake c)
contains-resolve_event_categories intake (x ∷ s) c =
    contains-expose intake c (nonempty (split comma (x ∷ s)))

-- The shown categories stand in ascending order, without repetition.
pub resolve_event_categories-IsAscending :
    (intake : IntakeSettings) (stored : Text) → IsAscending (resolve_event_categories intake stored)
unfolding resolve_event_categories expose
resolve_event_categories-IsAscending intake [] = tt
resolve_event_categories-IsAscending intake (x ∷ s) = sorted_set-IsAscending _

-- The proposed names that are taken up: not empty, and with a slug that is not empty.
abbrev pub sluggable : List Text → List Text
sluggable = keep (λ n. not (is_empty n) && not (is_empty (slugify n)))

All-map-qualify :
    (intake : IntakeSettings) (names : List Text) → All IsStorable (map (qualify intake) names)
All-map-qualify intake [] = tt
All-map-qualify intake (n ∷ names) = (qualify-IsStorable intake n, All-map-qualify intake names)

-- Proposing names gives the same categories as storing their qualified forms: the comma-joined text
-- in between loses nothing.
pub contains-normalize_proposed :
    (intake : IntakeSettings) (names : List Text) (c : Text)
    → contains c (normalize_proposed intake names)
      ≡ visible intake (map (qualify intake) (sluggable names)) c
unfolding normalize_proposed
contains-normalize_proposed intake names c =
    contains-resolve_event_categories intake (join comma (map (qualify intake) (sluggable names))) c
    ∙ ap (λ l. visible intake l c)
        (nonempty-split-join _ (All-map-qualify intake (sluggable names)))

-- A name without a symlink is public exactly if the class that the intake file gives to its slug
-- is an exposed one.
pub is_exposed-qualify :
    (intake : IntakeSettings) (name : Text)
    → is_exposed intake (qualify intake name)
      ≡ contains (category_class intake (slugify name)) (exposed_classes intake)
unfolding is_exposed
is_exposed-qualify intake name =
    ap (λ c. contains c (exposed_classes intake)) (before-qualify intake name)
