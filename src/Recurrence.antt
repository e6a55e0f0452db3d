-- ===== src/Recurrence.antt =====
-- services/recurrence.py: the last occurrence of a rule, for rules in ASCII, which RFC 5545 asks.
pub mod Normalize
pub mod Expand
use ripcale_backend.Prelude.{
  ℕ, zero, suc, ◌-◌, Bool, true, false, ◌&&◌, ◌||◌, not, [], ◌∷◌, ◌++◌, Option, none, some, Text,
  codes, leb, ◌==◌, nat_eq, if◌then◌else◌, take,
}
use ripcale_backend.Schema.{Instant}
use ripcale_backend.Platform.{Platform}

abbrev upper_char : ℕ → ℕ
upper_char c = if leb b'a' c && leb c b'z' then c - 32 else c

pub upper : Text → Text
upper [] = []
upper (c ∷ s) = upper_char c ∷ upper s

-- Whether a text begins like the upper-case pattern, in either case.
unfoldable pub starts_ci : Text → Text → Bool
starts_ci [] s = true
starts_ci (p ∷ ps) [] = false
starts_ci (p ∷ ps) (c ∷ s) = (upper_char c == p) && starts_ci ps s

-- `pattern in s.upper()`
pub has_ci : Text → Text → Bool
unfolding starts_ci
has_ci p [] = starts_ci p []
has_ci p (c ∷ s) = starts_ci p (c ∷ s) || has_ci p s

abbrev pub drop : ℕ → Text → Text
drop zero s = s
drop (suc n) [] = []
drop (suc n) (c ∷ s) = drop n s

-- Whether a text begins with a shape: `9` stands for a digit, every other character for itself in
-- either case.
fits : ℕ → ℕ → Bool
fits p c = if p == b'9' then leb b'0' c && leb c b'9' else upper_char c == p

starts_shape : Text → Text → Bool
unfolding fits
starts_shape [] s = true
starts_shape (p ∷ ps) [] = false
starts_shape (p ∷ ps) (c ∷ s) = fits p c && starts_shape ps s

abbrev until_date : Text
until_date = codes "UNTIL=9999-99-99"

abbrev until_time : Text
until_time = codes "T99:99:99"

-- `_UNTIL_ISO`: how many characters the match takes, and what `_rebuild` puts in their place.
abbrev slice : ℕ → ℕ → Text → Text
slice i n s = take n (drop i s)

abbrev compact_date : Text → Text
compact_date s = codes "UNTIL=" ++ (slice 6 4 s ++ (slice 11 2 s ++ slice 14 2 s))

abbrev compact_time : Text → Text
compact_time s = codes "T" ++ (slice 17 2 s ++ (slice 20 2 s ++ slice 23 2 s))

abbrev ends_z : ℕ → Text → ℕ
ends_z n s = if starts_ci (codes "Z") (drop n s) then suc n else n

match_iso : Text → Option (ℕ × Text)
unfolding starts_shape starts_ci
match_iso s =
    if not (starts_shape until_date s)
    then none
    else if starts_shape until_time (drop 16 s)
    then some (ends_z 25 s, compact_date s ++ compact_time s)
    else some (ends_z 16 s, compact_date s)

-- `_UNTIL_Z`: the longer form is tried first.
match_z : Text → Option (ℕ × Text)
unfolding starts_shape starts_ci
match_z s =
    if starts_shape (codes "UNTIL=99999999T999999Z") s
    then some (22, take 21 s)
    else if starts_shape (codes "UNTIL=99999999Z") s
    then some (15, take 14 s)
    else none

-- `pattern.sub(…, s)`: matches from the left, which do not overlap; the number counts what is left
-- of the last match.
replace : (Text → Option (ℕ × Text)) → ℕ → Text → Text
replace matched n [] = []
replace matched (suc n) (c ∷ s) = replace matched n s
replace matched zero (c ∷ s) = elim (matched (c ∷ s)) [
  | none ↦ c ∷ replace matched zero s
  | some (n, new) ↦ new ++ replace matched (n - 1) s
]

unfoldable pub normalize_until : Text → Text
unfolding match_iso match_z replace
normalize_until rule = replace match_z 0 (replace match_iso 0 rule)

is_bounded : Text → Bool
unfolding has_ci
is_bounded rule = has_ci (codes "COUNT=") rule || has_ci (codes "UNTIL=") rule

-- `None` for a rule without an end, one that does not parse, and a series without a start.
pub last_occurrence : Platform → Option Text → Option Instant → Option Instant
unfolding normalize_until is_bounded
last_occurrence p (some (c ∷ rule)) (some start) =
    let normalized = normalize_until (c ∷ rule) in
    if not (is_bounded normalized) then none else p.last_of_rule normalized start
last_occurrence p _ _ = none
