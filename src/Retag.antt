-- ===== src/Retag.antt =====
-- services/retag.py: one category is renamed or removed in all events, and actions.py, which checks
-- the arguments.
pub mod Renames
use ripcale_backend.Prelude.{
  ℕ, suc, Bool, true, false, List, [], ◌∷◌, ◌++◌, Option, none, some, Text, codes, ◌==◌, nat_eq,
  list_eq, if◌then◌else◌, is_empty, split, join, or_else,
}
use ripcale_backend.Prelude.Order.{sorted_set}
use ripcale_backend.Result.{Result, ok, err, action_error}
use ripcale_backend.Models.{Event, Db}
use ripcale_backend.Categories.{comma, nonempty}

-- The tokens of a stored text.
abbrev pub tokens : Text → List Text
tokens categories = nonempty (split comma categories)

-- `if to_cat: new.append(to_cat)`
abbrev pub substitute : Option Text → List Text
substitute none = []
substitute (some to) = if is_empty to then [] else to ∷ []

unfoldable pub replaced : Text → Option Text → List Text → List Text
replaced from to [] = []
replaced from to (token ∷ more) =
    let rest = replaced from to more in
    if token == from then substitute to ++ rest else token ∷ rest

unfoldable pub replace_token : Text → Option Text → Text → Text
replace_token from to categories =
    if is_empty categories
    then []
    else join comma (sorted_set (replaced from to (tokens categories)))

-- An entry of the preview: the title, the categories before and after.
abbrev pub Change : Type 0
Change = Text × Text × Text

unfoldable pub retag_rows : Text → Option Text → List Event → List Event × (ℕ × List Change)
retag_rows from to [] = ([], (0, []))
retag_rows from to (e ∷ more) =
    let (rows, (changed, preview)) = retag_rows from to more in
    let categories = replace_token from to e.categories in
    if categories == e.categories then (e ∷ rows, (changed, preview)) else (
      record e { categories = categories } ∷ rows,
      (suc changed, (e.title, e.categories, categories) ∷ preview),
    )

unfoldable pub retag : Text → Option Text → Db → Db × (ℕ × List Change)
retag from to db =
    let (rows, report) = retag_rows from to db.events in (record db { events = rows }, report)

-- `(to_cat or "").strip() or None`
abbrev given : Text → Option Text
given to = if is_empty to then none else some to

-- `actions.retag`: a dry run closes its session without a commit.
unfoldable pub action :
    (Text → Text) → Option Text → Option Text → Bool → Db → Result (Db × (ℕ × List Change))
action strip from_cat to_cat dry_run db =
    let from = strip (or_else from_cat []) in
    let (after, report) = retag from (given (strip (or_else to_cat []))) db in
    if is_empty from
    then err (action_error (codes "'from' is required") 400)
    else ok (if dry_run then db else after, report)
