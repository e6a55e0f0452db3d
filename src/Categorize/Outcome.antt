-- ===== src/Categorize/Outcome.antt =====
-- What the categorize stage hands on: names that the database can store and the hash can trust.
use ripcale_backend.Prelude.{
  ◌≡◌, ◌∙◌, sym, Bool, not, List, [], ◌∷◌, map, Option, Text, nat_eq, list_eq, keep, is_empty,
  or_else, All, All-at, All-of_contains,
}
use ripcale_backend.Prelude.Order.{sorted_set, contains-sorted_set, sorted_set-IsAscending}
use ripcale_backend.Result.{ok, >>=-eq-ok}
use ripcale_backend.Schema.{CategoryRule, SourceConfig, ScrapedEvent}
use ripcale_backend.Settings.{IntakeSettings}
use ripcale_backend.Platform.{Platform}
use ripcale_backend.Categories.{slugify, qualify}
use ripcale_backend.Categories.Stored.{IsStorable, qualify-IsStorable}
use ripcale_backend.Events.Hash.{IsCategorized}
use ripcale_backend.Categorize.{apply_rules, resolve_rules, qualify_all, with_qualified, apply}

abbrev named : Text → Bool
named n = not (is_empty (slugify n))

qualified-IsStorable :
    (intake : IntakeSettings) (names : List Text) → All IsStorable (map (qualify intake) names)
qualified-IsStorable intake [] = tt
qualified-IsStorable intake (n ∷ names) =
    (qualify-IsStorable intake n, qualified-IsStorable intake names)

qualify_all-IsStorable :
    (intake : IntakeSettings) (names : List Text) → All IsStorable (qualify_all intake names)
unfolding qualify_all
qualify_all-IsStorable intake names =
    let found = map (qualify intake) (keep named names) in
    All-of_contains IsStorable (sorted_set found) (λ a h.
      All-at IsStorable found a (qualified-IsStorable intake (keep named names))
        (sym (contains-sorted_set a found) ∙ h))

categorized :
    (intake : IntakeSettings) (es : List ScrapedEvent)
    → All IsCategorized (map (with_qualified intake) es)
categorized intake [] = tt
categorized intake (e ∷ es) = (
  record {
    ascending =
        unfold qualify_all in
        sorted_set-IsAscending (map (qualify intake) (keep named e.categories));
    storable = qualify_all-IsStorable intake e.categories;
  },
  categorized intake es,
)

-- Where the rules apply without an error, the categories of every event ascend without repetition,
-- and each is a name that survives storing in one comma-separated column.
pub apply-IsCategorized :
    (p : Platform) (intake : IntakeSettings) (source : SourceConfig)
    (events out : List ScrapedEvent) (rules : Option (List CategoryRule))
    → apply p intake source events rules ≡ ok out
    → All IsCategorized out
unfolding apply
apply-IsCategorized p intake source events out rules h =
    let (changed, applied, same) =
      >>=-eq-ok (apply_rules p (or_else rules (resolve_rules intake source)) events) _ h in
    let eq : out ≡ map (with_qualified intake) changed = cc in rw eq (categorized intake changed)
