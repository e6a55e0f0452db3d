-- ===== src/Actions.antt =====
-- services/actions.py: the edit of an event from raw input, and the checks in front of the services
-- that an administrator calls. A JSON value is opaque; Python's conversions on it are parameters.
pub mod Edits
use ripcale_backend.Prelude.{
  Bool, true, false, not, List, [], ◌∷◌, ◌++◌, map, Option, none, some, Text, codes, nat_eq,
  list_eq, if◌then◌else◌, is_empty, keep, lookup, or_else, split, join,
}
use ripcale_backend.Prelude.Int.{ℤ}
use ripcale_backend.Prelude.Order.{sorted_set}
use ripcale_backend.Result.{Result, ok, err, action_error, ◌>>=◌}
use ripcale_backend.Schema.{Instant, ImageRef}
use ripcale_backend.Platform.{Platform}
use ripcale_backend.Models.{Event, Db}
use ripcale_backend.Identity.{dump_images, dump_exdates}
use ripcale_backend.Categories.{comma}
use ripcale_backend.Events.{
  Edit, title, description, location, url, timezone, rrule, redirect_to_id, images, exdates,
  categories, start_at, end_at, recurrence_id, all_day, priority, update_event, set_pinned,
}
use ripcale_backend.Approvals.{Appliers, approve, reject}
use ripcale_backend.Conflicts.{Chat, resolve}

pub record Values (V : Type 0) : Type 0 where
  -- `v in (None, "")`, `bool(v)`, `str(v)` and `int(v)`
  pub is_missing : V → Bool
  pub truthy : V → Bool
  pub str : V → Text
  pub int : V → Option ℤ
  -- `datetime.fromisoformat(str(v))`, as the column stores it
  pub datetime : V → Option Instant
  -- the text of a value that is a `str`, and `json.loads` of one
  pub text : V → Option Text
  pub loads : Text → Option V
  -- `set(v)` of names, `ImageRef(**i)` and `fromisoformat(str(s))` of each entry
  pub names : V → Option (List Text)
  pub image_refs : V → Option (List ImageRef)
  pub datetimes : V → Option (List Instant)
  -- `str.strip`
  pub strip : Text → Text

abbrev refused {ℓ} : {T : Type ℓ} → Text → Result T
refused message = err (action_error message 400)

abbrev or_refused {ℓ} : {T : Type ℓ} → Text → Option T → Result T
or_refused message none = refused message
or_refused message (some t) = ok t

module _ {V : Type 0} (p : Platform) (v : Values V) where
  -- `if key in form`
  abbrev given : Text → (V → Result Edit) → List (Text × V) → Result (List Edit)
  given key read form = elim (lookup key form) [
    | none ↦ ok []
    | some value ↦ read value >>= λ edit. ok (edit ∷ [])
  ]

  abbrev nullable : (Option Text → Edit) → V → Result Edit
  nullable edit value = ok (edit (if v.is_missing value then none else some (v.str value)))

  unfoldable parse_dt : V → Result (Option Instant)
  parse_dt value =
      let read = or_refused (codes "invalid datetime: " ++ v.str value) (v.datetime value) in
      if v.is_missing value then ok none else read >>= λ t. ok (some t)

  abbrev dated : (Option Instant → Edit) → V → Result Edit
  dated edit value = parse_dt value >>= λ t. ok (edit t)

  abbrev numbered : V → Result Edit
  numbered value =
      let read = or_refused (codes "invalid priority: " ++ v.str value) (v.int value) in
      if v.is_missing value then ok (priority none) else read >>= λ n. ok (priority (some n))

  -- `[c.strip() for c in cats.split(",") if c.strip()]`
  unfoldable listed : Text → List Text
  listed s = keep (λ c. not (is_empty c)) (map v.strip (split comma s))

  abbrev names_of : V → Option Text → Option (List Text)
  names_of value (some s) = some (listed s)
  names_of value none = v.names value

  unfoldable categorized : V → Result Edit
  categorized value =
      or_refused (codes "categories must be a list or comma-separated string")
        (names_of value (v.text value))
      >>= λ names. ok (categories (join comma (sorted_set names)))

  -- A text is read as JSON first.
  abbrev decoded : Text → V → Option Text → Result V
  decoded message value none = ok value
  decoded message value (some s) = or_refused message (v.loads s)

  unfoldable pictured : V → Result Edit
  pictured value = do
    imgs ← decoded (codes "images must be a JSON array") value (v.text value)
    refs ←
        or_refused (codes "images must be a list of {url, alt?, source_url?}") (v.image_refs imgs)
    ok (images (dump_images p refs))

  unfoldable excepted : V → Result Edit
  excepted value = do
    exd ← decoded (codes "exdates must be a JSON array") value (v.text value)
    times ← or_refused (codes "exdates must be ISO datetimes") (v.datetimes exd)
    ok (exdates (dump_exdates p times))

  abbrev titled : V → Result Edit
  titled value = ok (title (if v.truthy value then v.str value else []))

  -- The fields in the order in which the code reads them.
  abbrev readers : List (Text × (V → Result Edit))
  readers =
      (codes "title", titled)
      ∷ (codes "description", nullable description)
      ∷ (codes "location", nullable location)
      ∷ (codes "url", nullable url)
      ∷ (codes "timezone", nullable timezone)
      ∷ (codes "rrule", nullable rrule)
      ∷ (codes "redirect_to_id", nullable redirect_to_id)
      ∷ (codes "start_at", dated start_at)
      ∷ (codes "end_at", dated end_at)
      ∷ (codes "recurrence_id", dated recurrence_id)
      ∷ (codes "all_day", λ value. ok (all_day (v.truthy value)))
      ∷ (codes "priority", numbered)
      ∷ (codes "categories", categorized)
      ∷ (codes "images", pictured)
      ∷ (codes "exdates", excepted)
      ∷ []

  unfoldable read_all : List (Text × (V → Result Edit)) → List (Text × V) → Result (List Edit)
  read_all [] form = ok []
  read_all ((key, read) ∷ more) form =
      given key read form >>= λ first. read_all more form >>= λ rest. ok (first ++ rest)

  pub coerce_edit_fields : List (Text × V) → Result (List Edit)
  coerce_edit_fields form = read_all readers form

  abbrev pub or_true : Option V → Bool
  or_true none = true
  or_true (some value) = v.truthy value

  abbrev pub or_missing : Db × Option Event → Result (Db × Event)
  or_missing (db, none) = err (action_error (codes "event not found") 404)
  or_missing (db, some e) = ok (db, e)

  -- The updated row, which `event_dump` prints.
  unfoldable pub edit_event : Instant → Text → List (Text × V) → Db → Result (Db × Event)
  edit_event utcnow event_id form db = coerce_edit_fields form >>= λ fields.
      or_missing (update_event p utcnow event_id fields (or_true (lookup (codes "pinned") form)) db)

-- A call that answered `False` becomes a 404.
abbrev or_404 : Text → Db × Bool → Result Db
or_404 message (db, true) = ok db
or_404 message (db, false) = err (action_error message 404)

module _ (strip : Text → Text) where
  abbrev id_of : Option Text → Text
  id_of given = strip (or_else given [])

  unfoldable conflict_resolve : Platform → Instant → Chat → Option Text → Text → Db → Result Db
  conflict_resolve p utcnow chat conflict_id action db =
      resolve p utcnow chat (id_of conflict_id) action db >>= λ r.
      or_404 (codes "conflict not found, not pending, or bad action") r

  unfoldable approval_approve : Appliers → Instant → Option Text → Db → Result Db
  approval_approve appliers utcnow approval_id db =
      approve appliers utcnow (id_of approval_id) db >>= λ r.
      or_404 (codes "approval not found or not pending") r

  unfoldable approval_reject : Instant → Option Text → Db → Result Db
  approval_reject utcnow approval_id db =
      or_404 (codes "approval not found or not pending") (reject utcnow (id_of approval_id) db)

-- The new state, or nothing where the event is not found; only a change is committed.
unfoldable pin : Text → Bool → Db → Db × Option Bool
pin event_id pinned db =
    let (after, found) = set_pinned event_id pinned db in
    if found then (after, some pinned) else (db, none)
