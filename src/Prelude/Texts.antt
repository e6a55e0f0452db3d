-- ===== src/Prelude/Texts.antt =====
-- A Python `str` as the list of its code points: comparison, search, `split` and `join`.
use Prim.Native.Nat.{ℕ}
use Prim.Native.Char.{code}
use Prim.Native.String.{String}
use mathlib.Core.Path.{◌≡◌, refl, ap, ◌∙◌}
use mathlib.Core.Logic.{◌≢◌}
use mathlib.Core.Bool.{Bool, true, false, ◌&&◌, ◌||◌}
use mathlib.Core.Option.{Option, none, some}
use mathlib.Core.List.{List, [], ◌∷◌, ◌++◌}
use native.Mathlib.Omega.{arith}
use ripcale_backend.Prelude.Tests.{ltb, ◌==◌, ==_iff, nat_eq, list_eq, if◌then◌else◌}
use ripcale_backend.Prelude.Lists.{All}

abbrev pub Text : Type 0
Text = List ℕ

-- A literal of the source.
abbrev pub codes : String → Text
codes String.[] = []
codes (String.◌∷◌ c s) = code c ∷ codes s

-- `not s`: the empty text is false.
abbrev pub is_empty {ℓ} : {A : Type ℓ} → List A → Bool
is_empty [] = true
is_empty (c ∷ s) = false

-- `a < b` on texts: by code points, from the left.
unfoldable pub text_lt : Text → Text → Bool
text_lt [] [] = false
text_lt [] (d ∷ t) = true
text_lt (c ∷ s) [] = false
text_lt (c ∷ s) (d ∷ t) = ltb c d || ((c == d) && text_lt s t)

pub text_lt_irrefl : (s : Text) → text_lt s s ≡ false
unfolding text_lt
text_lt_irrefl [] = refl
text_lt_irrefl (c ∷ s) = ground (arith, text_lt_irrefl s)

pub text_lt_trans : (s t u : Text) → text_lt s t ≡ true → text_lt t u ≡ true → text_lt s u ≡ true
unfolding text_lt
text_lt_trans [] [] u h k = ground arith
text_lt_trans [] (d ∷ t) [] h k = ground arith
text_lt_trans [] (d ∷ t) (e ∷ u) h k = refl
text_lt_trans (c ∷ s) [] u h k = ground arith
text_lt_trans (c ∷ s) (d ∷ t) [] h k = ground arith
text_lt_trans (c ∷ s) (d ∷ t) (e ∷ u) h k = ground (arith, text_lt_trans s t u)

-- Two texts of which neither is smaller are equal.
pub text_lt_connex : (s t : Text) → text_lt s t ≡ false → text_lt t s ≡ false → s ≡ t
unfolding text_lt
text_lt_connex [] [] h k = refl
text_lt_connex [] (d ∷ t) h k = ground arith
text_lt_connex (c ∷ s) [] h k = ground arith
text_lt_connex (c ∷ s) (d ∷ t) h k = ground (arith, text_lt_connex s t)

-- `s.split(sep)` for a separator of one character: always at least one part.
abbrev pub push_head : ℕ → List Text → List Text
push_head c [] = (c ∷ []) ∷ []
push_head c (p ∷ ps) = (c ∷ p) ∷ ps

unfoldable pub split : ℕ → Text → List Text
split sep [] = [] ∷ []
split sep (c ∷ s) = let rest = split sep s in if c == sep then [] ∷ rest else push_head c rest

-- `sep.join(parts)`
unfoldable pub join : ℕ → List Text → Text
join sep [] = []
join sep (p ∷ []) = p
join sep (p ∷ q ∷ ps) = p ++ (sep ∷ join sep (q ∷ ps))

-- `s.split(sep, 1)[0]`
unfoldable pub before : ℕ → Text → Text
before sep [] = []
before sep (c ∷ s) = let rest = before sep s in if c == sep then [] else c ∷ rest

abbrev pub Avoids : ℕ → Text → Type 0
Avoids sep s = All (λ c. c ≢ sep) s

split-part : (sep : ℕ) (p s : Text) → Avoids sep p → split sep (p ++ (sep ∷ s)) ≡ p ∷ split sep s
unfolding split
split-part sep [] s h = ground (arith, ==_iff sep sep)
split-part sep (c ∷ p) s h = ground (arith, ==_iff c sep, split-part sep p s h.1)

split_of_Avoids : (sep : ℕ) (p : Text) → Avoids sep p → split sep p ≡ p ∷ []
unfolding split
split_of_Avoids sep [] h = refl
split_of_Avoids sep (c ∷ p) h = ground (arith, ==_iff c sep, split_of_Avoids sep p h.1)

-- What was joined is found again, where no part holds the separator and there is a part.
pub split-join :
    (sep : ℕ) (p : Text) (ps : List Text)
    → All (Avoids sep) (p ∷ ps)
    → split sep (join sep (p ∷ ps)) ≡ p ∷ ps
unfolding join
split-join sep p [] h = split_of_Avoids sep p h.0
split-join sep p (q ∷ ps) h =
    split-part sep p (join sep (q ∷ ps)) h.0 ∙ ap (◌∷◌ p) (split-join sep q ps h.1)

pub before-part : (sep : ℕ) (p s : Text) → Avoids sep p → before sep (p ++ (sep ∷ s)) ≡ p
unfolding before
before-part sep [] s h = ground (arith, ==_iff sep sep)
before-part sep (c ∷ p) s h = ground (arith, ==_iff c sep, before-part sep p s h.1)

-- `s.startswith(prefix)`
unfoldable pub starts_with : Text → Text → Bool
starts_with [] s = true
starts_with (c ∷ prefix) [] = false
starts_with (c ∷ prefix) (d ∷ s) = (c == d) && starts_with prefix s

-- `s.endswith(suffix)`
unfoldable pub ends_with : Text → Text → Bool
ends_with suffix [] = is_empty suffix
ends_with suffix (c ∷ s) = (suffix == c ∷ s) || ends_with suffix s

-- `s.removeprefix(prefix)`, where the text starts with it
unfoldable pub removed_prefix : Text → Text → Option Text
removed_prefix [] s = some s
removed_prefix (c ∷ prefix) [] = none
removed_prefix (c ∷ prefix) (d ∷ s) =
    let rest = removed_prefix prefix s in if c == d then rest else none
