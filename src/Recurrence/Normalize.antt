-- ===== src/Recurrence/Normalize.antt =====
-- services/recurrence.py: `normalize_rrule`, for rules in ASCII. A value of `UNTIL` that is not a
-- date raises, and so does the whole call.
use ripcale_backend.Prelude.{
  ℕ, Bool, false, ◌&&◌, ◌||◌, not, List, [], ◌∷◌, ◌++◌, Option, none, some, Text, codes, leb, ◌==◌,
  nat_eq, if◌then◌else◌, is_empty, keep, take, contains, before, split, join,
}
use ripcale_backend.Prelude.Options.{◌>>=◌}
use ripcale_backend.Prelude.Int.{◌-ℤ◌}
use ripcale_backend.Schema.{Instant}
use ripcale_backend.Platform.{Platform}
use ripcale_backend.Recurrence.{drop, starts_ci}

-- `s.strip()`
abbrev is_space : ℕ → Bool
is_space c = (leb 9 c && leb c 13) || (leb 28 c && leb c 32)

pub strip_left : Text → Text
strip_left [] = []
strip_left (c ∷ s) = let rest = strip_left s in if is_space c then rest else c ∷ s

pub strip_right : Text → Text
strip_right [] = []
strip_right (c ∷ s) =
    let rest = strip_right s in if is_space c && is_empty rest then [] else c ∷ rest

pub strip : Text → Text
unfolding strip_left strip_right
strip s = strip_right (strip_left s)

-- `s.upper().endswith("Z")`, and `s[:-1]`
pub ends_z : Text → Bool
ends_z [] = false
ends_z (c ∷ []) = (c == b'Z') || (c == b'z')
ends_z (c ∷ d ∷ s) = ends_z (d ∷ s)

pub drop_last : Text → Text
drop_last [] = []
drop_last (c ∷ []) = []
drop_last (c ∷ d ∷ s) = c ∷ drop_last (d ∷ s)

-- `s.replace(c, "")`
abbrev without : ℕ → Text → Text
without c s = keep (λ d. not (d == c)) s

-- `s.split(sep, 1)[1]`, where the separator is there
pub after : ℕ → Text → Text
after sep [] = []
after sep (c ∷ s) = let rest = after sep s in if c == sep then s else rest

module _ (p : Platform) where
  in_zone : Instant → Option (Instant → Instant) → Instant
  in_zone t none = t
  in_zone t (some offset) = t -ℤ offset t

  pub local_to_utc : Instant → Option Text → Instant
  unfolding in_zone
  local_to_utc t (some (c ∷ tz)) = in_zone t (p.zone (c ∷ tz))
  local_to_utc t _ = t

  -- What follows `UNTIL=` where there is a time of day.
  until_utc : Text → Text → Text
  until_utc day clock = codes "UNTIL=" ++ (day ++ (b'T' ∷ (clock ++ codes "Z")))

  local_until : Option Text → Option Instant → Option Text
  unfolding until_utc local_to_utc
  local_until tz none = none
  local_until tz (some t) =
      let utc = local_to_utc t tz in some (until_utc (p.strftime_date utc) (p.strftime_time utc))

  dated_until : Bool → Text → Option Text → Option Text
  unfolding until_utc local_until after
  dated_until has_z v tz =
      let day = without b'-' (before b'T' v) in
      let clock = take 6 (without b':' (after b'T' v) ++ codes "000000") in
      if has_z
      then some (until_utc day clock)
      else local_until tz (p.strptime (day ++ (b'T' ∷ clock)))

  pub normalize_until_value : Text → Option Text → Option Text
  unfolding strip ends_z drop_last dated_until
  normalize_until_value value tz =
      let stripped = strip value in
      let has_z = ends_z stripped in
      let v = if has_z then drop_last stripped else stripped in
      if contains b'T' v then dated_until has_z v tz else some (codes "UNTIL=" ++ without b'-' v)

  -- `part.strip().upper().startswith("UNTIL=")`
  pub is_until : Text → Bool
  unfolding starts_ci strip
  is_until part = starts_ci (codes "UNTIL=") (strip part)

  normalize_part : Option Text → Text → Option Text
  unfolding normalize_until_value is_until strip
  normalize_part tz part =
      if is_until part then normalize_until_value (drop 6 (strip part)) tz else some part

  normalize_parts : Option Text → List Text → Option (List Text)
  unfolding normalize_part
  normalize_parts tz [] = some []
  normalize_parts tz (part ∷ parts) = do
    first ← normalize_part tz part
    rest ← normalize_parts tz parts
    some (first ∷ rest)

  pub normalize_rrule : Text → Option Text → Option Text
  unfolding normalize_parts
  normalize_rrule rule tz = do parts ← normalize_parts tz (split b';' rule); some (join b';' parts)
