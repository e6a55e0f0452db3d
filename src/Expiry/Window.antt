-- ===== src/Expiry/Window.antt =====
-- The relevance window in terms of the moment at which an event ends.
use ripcale_backend.Prelude.{
  ◌*◌, ◌≡◌, refl, ◌↔◌, true, Option, none, some, Text, arith, if◌then◌else◌,
}
use ripcale_backend.Prelude.Int.{ℤ, pos, ◌+ℤ◌, ◌-ℤ◌, ◌*ℤ◌, ◌<ℤ◌, ◌≤ℤ◌, +ℤ_parts, -ℤ_parts}
use ripcale_backend.Schema.{Instant}
use ripcale_backend.Platform.{Platform}
use ripcale_backend.Identity.{truthy}
use ripcale_backend.Recurrence.{last_occurrence}
use ripcale_backend.Expiry.{
  days_delta, past_cutoff, future_cutoff, or_option, is_past_expired, is_future_expired, is_expired,
  is_relevant,
}

-- The moment at which an event is over, if there is one: its end, else its start. A series is over
-- when its last occurrence, which lasts as long as the first, is over; one without a known last
-- occurrence is never over, and one whose first has no start or no end lasts no time.
abbrev pub series_over : Option Instant → Option Instant → Option Instant → Option Instant
series_over none start_at end_at = none
series_over (some last) (some start) (some end) = some (last +ℤ (end -ℤ start))
series_over (some last) (some start) none = some last
series_over (some last) none end_at = some last

pub over_at : Platform → Option Instant → Option Instant → Option Text → Option Instant
over_at p start_at end_at rrule =
    if truthy rrule
    then series_over (last_occurrence p rrule start_at) start_at end_at
    else or_option end_at start_at

-- 24 hours, in microseconds
abbrev pub day : ℤ
day = pos (24 * 60 * 60 * 1000000)

-- The event is over, and since more than the given days.
abbrev pub OverSince : Option Instant → Instant → Option ℤ → Type 0
OverSince (some t) now (some days) = t +ℤ (days *ℤ day) <ℤ now
OverSince _ now _ = ⊥

-- The event begins, and more than the given days from now.
abbrev pub BeginsAfter : Option Instant → Instant → Option ℤ → Type 0
BeginsAfter (some t) now (some days) = now +ℤ (days *ℤ day) <ℤ t
BeginsAfter _ now _ = ⊥

passed_iff :
    (over : Option Instant) (now : Instant) (days : Option ℤ)
    → (is_past_expired over none now days ≡ true) ↔ OverSince over now days
unfolding is_past_expired past_cutoff days_delta
passed_iff none now none = ground arith
passed_iff none now (some d) = ground arith
passed_iff (some t) now none = ground arith
passed_iff (some t) now (some d) = ground (arith, +ℤ_parts t (d *ℤ day), -ℤ_parts now (d *ℤ day))

is_past_expired_or :
    (a b : Option Instant) (now : Instant) (days : Option ℤ)
    → is_past_expired a b now days ≡ is_past_expired (or_option a b) none now days
unfolding is_past_expired
is_past_expired_or none none now days = refl
is_past_expired_or none (some b) now days = refl
is_past_expired_or (some a) b now days = refl

is_expired-over_at :
    (p : Platform) (start_at end_at : Option Instant) (rrule : Option Text) (now : Instant)
    (days : Option ℤ)
    → is_expired p start_at end_at rrule now days
      ≡ is_past_expired (over_at p start_at end_at rrule) none now days
unfolding is_expired is_past_expired over_at
is_expired-over_at p none end_at rrule now days = ground arith
is_expired-over_at p (some s) none rrule now days = ground arith
is_expired-over_at p (some s) (some t) rrule now days = ground arith

-- An event has expired exactly when it was over the given number of days before now; with no limit
-- of days, and for a series of which no last occurrence is known, it never has.
pub is_expired_iff :
    (p : Platform) (start_at end_at : Option Instant) (rrule : Option Text) (now : Instant)
    (days : Option ℤ)
    → (is_expired p start_at end_at rrule now days ≡ true)
      ↔ OverSince (over_at p start_at end_at rrule) now days
is_expired_iff p start_at end_at rrule now days =
    rw is_expired-over_at (passed_iff (over_at p start_at end_at rrule) now days)

is_future_expired_iff :
    (start_at : Option Instant) (now : Instant) (days : Option ℤ)
    → (is_future_expired start_at now days ≡ true) ↔ BeginsAfter start_at now days
unfolding is_future_expired future_cutoff days_delta
is_future_expired_iff none now none = ground arith
is_future_expired_iff none now (some d) = ground arith
is_future_expired_iff (some t) now none = ground arith
is_future_expired_iff (some t) now (some d) = ground (arith, +ℤ_parts now (d *ℤ day))

-- An event is relevant exactly when it neither begins more than the given days from now nor was
-- over more than the given days ago, where a series is over with its last occurrence, which lasts
-- as long as the first.
pub is_relevant_iff :
    (p : Platform) (start_at end_at : Option Instant) (rrule : Option Text) (now : Instant)
    (past_days future_days : Option ℤ)
    → (is_relevant p start_at end_at rrule now past_days future_days ≡ true) ↔ (
        (¬ BeginsAfter start_at now future_days)
        × (¬ OverSince (over_at p start_at end_at rrule) now past_days))
unfolding is_relevant
is_relevant_iff p start_at end_at rrule now past_days future_days = ground (
  arith,
  is_future_expired_iff start_at now future_days,
  is_expired_iff p start_at end_at rrule now past_days,
)

OverSince-later :
    (over : Option Instant) (now later : Instant) (days : Option ℤ)
    → now ≤ℤ later
    → OverSince over now days
    → OverSince over later days
OverSince-later none now later days h k = k
OverSince-later (some t) now later none h k = k
OverSince-later (some t) now later (some d) h k = omega arith

-- Once expired, an event stays expired as time goes on.
pub is_expired_later :
    (p : Platform) (start_at end_at : Option Instant) (rrule : Option Text) (now later : Instant)
    (days : Option ℤ)
    → now ≤ℤ later
    → is_expired p start_at end_at rrule now days ≡ true
    → is_expired p start_at end_at rrule later days ≡ true
is_expired_later p start_at end_at rrule now later days h k =
    (is_expired_iff p start_at end_at rrule later days).1 (
      OverSince-later (over_at p start_at end_at rrule) now later days h
        ((is_expired_iff p start_at end_at rrule now days).0 k))
