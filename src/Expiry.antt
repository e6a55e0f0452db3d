-- ===== src/Expiry.antt =====
-- services/expiry.py: the relevance window. Instants are unbounded here: that `datetime` ends with
-- the year 9999, where Python raises `OverflowError`, is not modelled.
pub mod Window
use mathlib.Core.Option
use ripcale_backend.Prelude.{Bool, true, false, ◌&&◌, not, Option, none, some, Text, if◌then◌else◌}
use ripcale_backend.Prelude.Int.{ℤ, pos, ◌+ℤ◌, ◌-ℤ◌, ◌*ℤ◌, ltb_ℤ}
use ripcale_backend.Schema.{Instant}
use ripcale_backend.Platform.{Platform}
use ripcale_backend.Identity.{truthy}
use ripcale_backend.Recurrence.{last_occurrence}

-- `timedelta(days=days)` in microseconds
unfoldable pub days_delta : ℤ → ℤ
days_delta days = days *ℤ pos 86400000000

unfoldable pub past_cutoff : Instant → Option ℤ → Option Instant
past_cutoff now days = Option.map (λ d. now -ℤ days_delta d) days

unfoldable pub future_cutoff : Instant → Option ℤ → Option Instant
future_cutoff now days = Option.map (λ d. now +ℤ days_delta d) days

-- `a or b`
abbrev pub or_option {ℓ} : {A : Type ℓ} → Option A → Option A → Option A
or_option none b = b
or_option (some a) b = some a

-- `end is not None and end < cutoff`, and the same for a start beyond the cutoff
abbrev is_before : Option Instant → Instant → Bool
is_before none cutoff = false
is_before (some t) cutoff = ltb_ℤ t cutoff

abbrev is_after : Option Instant → Instant → Bool
is_after none cutoff = false
is_after (some t) cutoff = ltb_ℤ cutoff t

abbrev passed : Option Instant → Option Instant → Bool
passed end none = false
passed end (some cutoff) = is_before end cutoff

abbrev ahead : Option Instant → Option Instant → Bool
ahead start none = false
ahead start (some cutoff) = is_after start cutoff

unfoldable pub is_past_expired : Option Instant → Option Instant → Instant → Option ℤ → Bool
unfolding past_cutoff
is_past_expired end_at start_at now days = passed (or_option end_at start_at) (past_cutoff now days)

unfoldable pub is_future_expired : Option Instant → Instant → Option ℤ → Bool
unfolding future_cutoff
is_future_expired start_at now days = ahead start_at (future_cutoff now days)

-- The end of the last occurrence: it lasts as long as the first, where both ends of that are known.
abbrev last_end : Instant → Option Instant → Option Instant → Instant
last_end last (some start) (some end) = last +ℤ (end -ℤ start)
last_end last _ _ = last

abbrev series_expired : Option Instant → Option Instant → Option Instant → Instant → Option ℤ → Bool
series_expired none start_at end_at now days = false
series_expired (some last) start_at end_at now days =
    passed (some (last_end last start_at end_at)) (past_cutoff now days)

module _ (p : Platform) where
  unfoldable pub is_expired :
      Option Instant → Option Instant → Option Text → Instant → Option ℤ → Bool
  unfolding past_cutoff is_past_expired
  is_expired start_at end_at rrule now days =
      if truthy rrule
      then series_expired (last_occurrence p rrule start_at) start_at end_at now days
      else is_past_expired end_at start_at now days

  unfoldable pub is_relevant :
      Option Instant → Option Instant → Option Text → Instant → Option ℤ → Option ℤ → Bool
  unfolding is_future_expired
  is_relevant start_at end_at rrule now past_days future_days =
      if is_future_expired start_at now future_days
      then false
      else not (is_expired start_at end_at rrule now past_days)
