-- ===== src/Categorize.antt =====
-- categorize/categorize.py: the rules that assign categories to gathered events.
pub mod Outcome
use ripcale_backend.Prelude.{
  ◌≡◌, Bool, true, false, not, List, [], ◌∷◌, ◌++◌, map, Option, none, some, Text, codes, is_empty,
  ◌==◌, nat_eq, list_eq, if◌then◌else◌, contains, keep, lookup, or_else, ◌||◌,
}
use ripcale_backend.Prelude.Order.{sorted_set}
use ripcale_backend.Result.{Result, ok, err, Error, bad_rule, ◌>>=◌}
use ripcale_backend.Schema.{
  Mode, regex, assign, CategoryRule, SourceConfig, ScrapedEvent, GathererConfig,
}
use ripcale_backend.Settings.{IntakeSettings}
use ripcale_backend.Platform.{Platform}
use ripcale_backend.Categories.{slugify, qualify}

abbrev pub text_fields : List Text
text_fields =
    codes "uid" ∷ codes "title" ∷ codes "description" ∷ codes "location" ∷ codes "url" ∷ []

default_rules : SourceConfig → List CategoryRule
default_rules source =
    if is_empty source.default_categories
    then []
    else record {
      mode = assign;
      fields = [];
      pattern = none;
      categories = source.default_categories;
    }
      ∷ []

abbrev rules_of : Option GathererConfig → List CategoryRule
rules_of none = []
rules_of (some g) = g.rules

gatherer_rules : IntakeSettings → SourceConfig → List CategoryRule
gatherer_rules intake source = rules_of (lookup source.gatherer intake.gatherers)

pub selected_fields : CategoryRule → List Text
selected_fields rule =
    if is_empty rule.fields || contains (codes "*") rule.fields then text_fields else rule.fields

-- `getattr(event, field) or ""` as the pattern's search takes it: a field that holds something
-- other than a text is refused with `TypeError`, unless it is empty, and a name that is no field
-- with `AttributeError`. `raw` is never empty, and its name is refused.
abbrev falsy_or_bad : Bool → Result Text
falsy_or_bad true = ok []
falsy_or_bad false = err bad_rule

abbrev is_unset {ℓ} : {A : Type ℓ} → Option A → Bool
is_unset none = true
is_unset (some a) = false

pub search_text : Text → ScrapedEvent → Result Text
search_text field e =
    if field == codes "uid"
    then ok (or_else e.uid [])
    else if field == codes "title"
    then ok e.title
    else if field == codes "description"
    then ok (or_else e.description [])
    else if field == codes "location"
    then ok (or_else e.location [])
    else if field == codes "url"
    then ok (or_else e.url [])
    else if field == codes "timezone"
    then ok (or_else e.timezone [])
    else if field == codes "rrule"
    then ok (or_else e.rrule [])
    else if field == codes "images"
    then falsy_or_bad (is_empty e.images)
    else if field == codes "exdates"
    then falsy_or_bad (is_empty e.exdates)
    else if field == codes "categories"
    then falsy_or_bad (is_empty e.categories)
    else if field == codes "start_at"
    then falsy_or_bad (is_unset e.start_at)
    else if field == codes "end_at"
    then falsy_or_bad (is_unset e.end_at)
    else if field == codes "recurrence_id"
    then falsy_or_bad (is_unset e.recurrence_id)
    else if field == codes "all_day"
    then falsy_or_bad (not e.all_day)
    else err bad_rule

-- `any(pattern.search(getattr(event, field) or "") for field in fields)`
matches_any : (Text → Bool) → List Text → ScrapedEvent → Result Bool
matches_any search [] e = ok false
matches_any search (field ∷ more) e =
    let rest = matches_any search more e in
    search_text field e >>= λ s. if search s then ok true else rest

-- `sorted(set(event.categories) | set(rule.categories))`
abbrev pub add_categories : List Text → ScrapedEvent → ScrapedEvent
add_categories cats e = record e { categories = sorted_set (e.categories ++ cats) }

pub matching_events : (Text → Bool) → CategoryRule → List ScrapedEvent → Result (List ScrapedEvent)
matching_events search rule [] = ok []
matching_events search rule (e ∷ es) = do
  found ← matches_any search (selected_fields rule) e
  rest ← matching_events search rule es
  ok ((if found then add_categories rule.categories e else e) ∷ rest)

abbrev compiled :
    Option (Text → Bool) → CategoryRule → List ScrapedEvent → Result (List ScrapedEvent)
compiled none rule es = err bad_rule
compiled (some search) rule es = matching_events search rule es

module _ (p : Platform) where
  regex_rule : CategoryRule → Option Text → List ScrapedEvent → Result (List ScrapedEvent)
  regex_rule rule none es = ok es
  regex_rule rule (some []) es = ok es
  regex_rule rule (some (c ∷ s)) es = compiled (p.compile (c ∷ s)) rule es

  by_mode : Mode → CategoryRule → List ScrapedEvent → Result (List ScrapedEvent)
  unfolding regex_rule
  by_mode assign rule es = ok (map (add_categories rule.categories) es)
  by_mode regex rule es = regex_rule rule rule.pattern es

  unfoldable pub apply_rule : CategoryRule → List ScrapedEvent → Result (List ScrapedEvent)
  unfolding by_mode
  apply_rule rule es = if is_empty rule.categories then ok es else by_mode rule.mode rule es

  unfoldable pub apply_rules : List CategoryRule → List ScrapedEvent → Result (List ScrapedEvent)
  apply_rules [] es = ok es
  apply_rules (rule ∷ rules) es = do changed ← apply_rule rule es; apply_rules rules changed

-- global → gatherer → defaults → source
unfoldable pub resolve_rules : IntakeSettings → SourceConfig → List CategoryRule
unfolding gatherer_rules default_rules
resolve_rules intake source =
    intake.rules ++ (gatherer_rules intake source ++ (default_rules source ++ source.rules))

-- `sorted({qualify(name) for name in event.categories if slugify(name)})`
pub qualify_all : IntakeSettings → List Text → List Text
qualify_all intake names =
    sorted_set (map (qualify intake) (keep (λ n. not (is_empty (slugify n))) names))

abbrev pub with_qualified : IntakeSettings → ScrapedEvent → ScrapedEvent
with_qualified intake e = record e { categories = qualify_all intake e.categories }

unfoldable pub apply :
    Platform
    → IntakeSettings
    → SourceConfig
    → List ScrapedEvent
    → Option (List CategoryRule)
    → Result (List ScrapedEvent)
apply p intake source events rules = do
  changed ← apply_rules p (or_else rules (resolve_rules intake source)) events
  ok (map (with_qualified intake) changed)
