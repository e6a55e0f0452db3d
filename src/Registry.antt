-- ===== src/Registry.antt =====
-- registry.py: the capability constants of the gatherers, which each declares in its module
-- (gatherers/elfsight, gatherers/hikerapi, gatherers/ics); a name without a module has none.
use ripcale_backend.Prelude.{Bool, Option, none, some, Text, codes, ◌==◌, nat_eq, list_eq, lookup}
use ripcale_backend.Prelude.Int.{ℤ, pos}
use ripcale_backend.Schema.{GathererConfig, SourceConfig}
use ripcale_backend.Settings.{IntakeSettings}

pub gatherer_permanent : Text → Bool
gatherer_permanent name = name == codes "hikerapi"

unfoldable pub gatherer_decide_before_insert : Text → Bool
gatherer_decide_before_insert name = name == codes "hikerapi"

-- source override > gatherer default > 0
abbrev gatherer_priority : Option GathererConfig → ℤ
gatherer_priority none = pos 0
gatherer_priority (some g) = g.priority

abbrev or_gatherer : Option ℤ → Option GathererConfig → ℤ
or_gatherer (some n) g = n
or_gatherer none g = gatherer_priority g

pub source_priority : IntakeSettings → SourceConfig → ℤ
source_priority intake cfg = or_gatherer cfg.priority (lookup cfg.gatherer intake.gatherers)
