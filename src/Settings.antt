-- ===== src/Settings.antt =====
-- The settings that the modelled code reads (config.py) and the intake file (intake.py).
use ripcale_backend.Prelude.{ℕ, Bool, List, Option, Text}
use ripcale_backend.Prelude.Int.{ℤ}
use ripcale_backend.Schema.{CategoryRule, GathererConfig, SourceConfig}

-- The counts are taken to be no less than 0, as their defaults are.
pub record Settings : Type 0 where
  pub expire_past_days : Option ℤ
  pub expire_future_days : Option ℤ
  pub archive_grace_hours : Option ℤ
  pub ingest_interval_minutes : Option ℕ
  pub backup_count : ℤ
  pub deepseek_key : Text
  pub llm_enabled : Bool
  pub llm_max_per_tick : ℕ
  pub llm_context_events : ℕ
  pub llm_max_attempts : ℕ
  pub llm_max_images : ℕ
  pub llm_stale_processing_seconds : ℕ

-- A dict of the file keeps its items in the order of the file.
pub record IntakeSettings : Type 0 where
  pub sources : List SourceConfig
  pub gatherers : List (Text × GathererConfig)
  pub category_symlinks : List (Text × Text)
  pub category_definitions : List (Text × List Text)
  pub exposed_classes : List Text
  pub rules : List CategoryRule
