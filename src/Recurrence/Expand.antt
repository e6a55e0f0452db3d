-- ===== src/Recurrence/Expand.antt =====
-- services/recurrence.py: `occurrences`, the starts of a series. What `rrulestr` yields is a
-- parameter.
use ripcale_backend.Prelude.{
  ℕ, ◌-◌, Bool, false, List, [], ◌∷◌, Option, none, some, Text, leb, if◌then◌else◌,
}
use mathlib.Core.Option
use ripcale_backend.Prelude.Int.{ltb_ℤ}
use ripcale_backend.Result.{ok, err}
use ripcale_backend.Schema.{Instant}
use ripcale_backend.Platform.{Platform, Stamp}
use ripcale_backend.Timeutil.{to_utc_naive}
use ripcale_backend.Recurrence.{normalize_until}

abbrev pub is_before : Option Instant → Instant → Bool
is_before none t = false
is_before (some since) t = ltb_ℤ t since

-- The loop of `occurrences`, with the number of starts that are still wanted; a step that raises
-- loses what was collected.
unfoldable pub collect : Option Instant → ℕ → List (Option Stamp) → Option (List Instant)
collect since count [] = some []
collect since count (none ∷ steps) = none
collect since count (some occ ∷ steps) =
    let skipped = collect since count steps in
    let rest = collect since (count - 1) steps in
    elim (to_utc_naive occ) [
      | err raised ↦ none
      | ok utc ↦
          if is_before since utc
          then skipped
          else if leb count 1
          then some (utc ∷ [])
          else Option.map (λ out. utc ∷ out) rest
    ]

abbrev none_raised : Option (List Instant) → List Instant
none_raised none = []
none_raised (some out) = out

abbrev known_zone : Platform → Option Text → Option Text
known_zone p none = none
known_zone p (some []) = none
known_zone p (some (c ∷ tz)) = elim (p.zone (c ∷ tz)) [ none ↦ none | some _ ↦ some (c ∷ tz) ]

abbrev expanded : Option Instant → ℕ → Option (List (Option Stamp)) → List Instant
expanded since count none = []
expanded since count (some steps) = none_raised (collect since count steps)

unfoldable pub occurrences :
    Platform → Option Text → Option Instant → Option Text → ℕ → Option Instant → List Instant
unfolding normalize_until
occurrences p (some (c ∷ rule)) (some start) tz count since =
    expanded since count (p.expand (normalize_until (c ∷ rule)) start (known_zone p tz))
occurrences p _ _ tz count since = []
