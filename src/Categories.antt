-- ===== src/Categories.antt =====
-- services/categories.py: slugs, `class:name` identities, symlinks and exposure.
pub mod Slug
pub mod Stored
pub mod Exposure
use ripcale_backend.Prelude.{
  ℕ, ◌+◌, Bool, true, false, ◌&&◌, ◌||◌, not, List, [], ◌∷◌, ◌++◌, map, Option, none, some, Text,
  codes, ltb, leb, ◌==◌, nat_eq, list_eq, if◌then◌else◌, is_empty, keep, contains, lookup, or_else,
  split, join, before,
}
use ripcale_backend.Prelude.Order.{sorted_set}
use ripcale_backend.Settings.{IntakeSettings}

abbrev pub default_class : Text
default_class = codes "intake"

abbrev pub dash : ℕ
dash = b'-'

abbrev pub colon : ℕ
colon = b':'

abbrev pub comma : ℕ
comma = b','

-- `str.lower`, as far as `slugify` can see it: of the letters beyond ASCII only KELVIN SIGN and
-- I WITH DOT ABOVE have ASCII in their lower case; the others stay outside ASCII, where the filter
-- drops them.
lower_char : ℕ → Text
lower_char c =
    if leb b'A' c && leb c b'Z'
    then (c + 32) ∷ []
    else if c == 0x212a
    then b'k' ∷ []
    else if c == 0x130
    then b'i' ∷ 0x307 ∷ []
    else c ∷ []

unfoldable pub lower : Text → Text
unfolding lower_char
lower [] = []
lower (c ∷ s) = lower_char c ++ lower s

-- `s.replace(" ", "-")`
dash_spaces : Text → Text
dash_spaces [] = []
dash_spaces (c ∷ s) = (if c == b' ' then dash else c) ∷ dash_spaces s

-- `c.isascii() and (c.isalnum() or c == "-")`
unfoldable pub slug_char : ℕ → Bool
slug_char c =
    ltb c 128
    && ((leb b'0' c && leb c b'9')
        || (leb b'a' c && leb c b'z')
        || (leb b'A' c && leb c b'Z')
        || (c == dash))

abbrev starts_dash : Text → Bool
starts_dash [] = false
starts_dash (c ∷ s) = c == dash

-- `re.sub(r"-+", "-", s)`
collapse : Text → Text
collapse [] = []
collapse (c ∷ s) = let rest = collapse s in if (c == dash) && starts_dash s then rest else c ∷ rest

-- `s.strip("-")`, from the left and from the right
strip_left : Text → Text
strip_left [] = []
strip_left (c ∷ s) = let rest = strip_left s in if c == dash then rest else c ∷ s

strip_right : Text → Text
strip_right [] = []
strip_right (c ∷ s) =
    let rest = strip_right s in if (c == dash) && is_empty rest then [] else c ∷ rest

pub slugify : Text → Text
unfolding lower dash_spaces slug_char collapse strip_left strip_right
slugify value = strip_right (strip_left (collapse (keep slug_char (dash_spaces (lower value)))))

-- The loop of `category_class`, over the items of the definitions.
class_in : Text → List (Text × List Text) → Text
class_in name [] = default_class
class_in name ((class_name, names) ∷ more) =
    let rest = class_in name more in if contains name names then slugify class_name else rest

pub category_class : IntakeSettings → Text → Text
unfolding class_in
category_class intake name = class_in (slugify name) intake.category_definitions

pub qualify : IntakeSettings → Text → Text
qualify intake name = let slug = slugify name in category_class intake slug ++ (colon ∷ slug)

pub exposed_classes : IntakeSettings → List Text
exposed_classes intake = map slugify (keep (λ c. not (is_empty (slugify c))) intake.exposed_classes)

pub is_exposed : IntakeSettings → Text → Bool
unfolding exposed_classes
is_exposed intake category = contains (before colon category) (exposed_classes intake)

pub expose : IntakeSettings → List Text → List Text
expose intake categories = sorted_set (keep (is_exposed intake) categories)

-- `links.get(c, c)`
abbrev pub follow : List (Text × Text) → Text → Text
follow links c = or_else (lookup c links) c

pub resolve_categories : List (Text × Text) → List Text → List Text
resolve_categories links categories = sorted_set (map (follow links) categories)

abbrev pub nonempty : List Text → List Text
nonempty = keep (λ c. not (is_empty c))

-- `None` and the empty text are both without categories.
pub resolve_event_categories : IntakeSettings → Text → List Text
unfolding expose resolve_categories
resolve_event_categories intake comma_joined =
    if is_empty comma_joined
    then []
    else expose intake
        (resolve_categories intake.category_symlinks (nonempty (split comma comma_joined)))

-- `",".join(qualify(n) for n in names if n and slugify(n))`, resolved
pub normalize_proposed : IntakeSettings → List Text → List Text
normalize_proposed intake names = resolve_event_categories intake (
    join comma
      (map (qualify intake) (keep (λ n. not (is_empty n) && not (is_empty (slugify n))) names)))
