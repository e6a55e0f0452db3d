-- ===== src/Categories/Slug.antt =====
-- What `slugify` returns, and what it leaves alone.
use ripcale_backend.Prelude.{
  ℕ, ◌≡◌, refl, Bool, true, false, ◌&&◌, ◌||◌, [], ◌∷◌, ◌++◌, arith, Text, leb, ◌==◌, nat_eq,
  is_empty, keep, All, ap, Avoids, Bool-cases, inl, inr,
}
use ripcale_backend.Categories.{
  dash, lower_char, lower, dash_spaces, slug_char, starts_dash, collapse, strip_left, strip_right,
  slugify,
}

abbrev pub is_slug_char : ℕ → Bool
is_slug_char c = (leb b'0' c && leb c b'9') || (leb b'a' c && leb c b'z') || (c == dash)

abbrev pub ends_dash : Text → Bool
ends_dash [] = false
ends_dash (c ∷ []) = c == dash
ends_dash (c ∷ d ∷ s) = ends_dash (d ∷ s)

-- No two dashes stand side by side.
abbrev pub NoRun : Text → Type 0
NoRun [] = Unit
NoRun (c ∷ s) = (((c == dash) && starts_dash s) ≡ false) × NoRun s

-- A slug: only `[a-z0-9-]`, no run of dashes, and no dash at either end.
pub record IsSlug (s : Text) : Type 0 where
  pub chars : All (λ c. is_slug_char c ≡ true) s
  pub no_run : NoRun s
  pub head : starts_dash s ≡ false
  pub last : ends_dash s ≡ false

abbrev is_upper : ℕ → Bool
is_upper c = leb b'A' c && leb c b'Z'

abbrev Lowered : Text → Type 0
Lowered s = All (λ c. is_upper c ≡ false) s

lower_char-Lowered : (c : ℕ) (s : Text) → Lowered s → Lowered (lower_char c ++ s)
unfolding lower_char
lower_char-Lowered c s h = ground arith

lower-Lowered : (s : Text) → Lowered (lower s)
unfolding lower
lower-Lowered [] = tt
lower-Lowered (c ∷ s) = lower_char-Lowered c (lower s) (lower-Lowered s)

dash_spaces-Lowered : (s : Text) → Lowered s → Lowered (dash_spaces s)
unfolding dash_spaces
dash_spaces-Lowered [] h = tt
dash_spaces-Lowered (c ∷ s) h = ground (arith, dash_spaces-Lowered s h.1)

abbrev Chars : Text → Type 0
Chars s = All (λ c. is_slug_char c ≡ true) s

keep-Chars : (s : Text) → Lowered s → Chars (keep slug_char s)
unfolding keep slug_char
keep-Chars [] h = tt
keep-Chars (c ∷ s) h = ground (arith, keep-Chars s h.1)

collapse-Chars : (s : Text) → Chars s → Chars (collapse s)
unfolding collapse
collapse-Chars [] h = tt
collapse-Chars (c ∷ s) h = ground (arith, collapse-Chars s h.1)

starts_dash-collapse : (s : Text) → starts_dash (collapse s) ≡ starts_dash s
unfolding collapse
starts_dash-collapse [] = refl
starts_dash-collapse (c ∷ s) = ground (arith, starts_dash-collapse s)

collapse-NoRun : (s : Text) → NoRun (collapse s)
unfolding collapse
collapse-NoRun [] = tt
collapse-NoRun (c ∷ s) = ground (arith, collapse-NoRun s, starts_dash-collapse s)

strip_left-Chars : (s : Text) → Chars s → Chars (strip_left s)
unfolding strip_left
strip_left-Chars [] h = tt
strip_left-Chars (c ∷ s) h = ground (arith, strip_left-Chars s h.1)

strip_left-NoRun : (s : Text) → NoRun s → NoRun (strip_left s)
unfolding strip_left
strip_left-NoRun [] h = tt
strip_left-NoRun (c ∷ s) h = ground (arith, strip_left-NoRun s h.1)

starts_dash-strip_left : (s : Text) → starts_dash (strip_left s) ≡ false
unfolding strip_left
starts_dash-strip_left [] = refl
starts_dash-strip_left (c ∷ s) = ground (arith, starts_dash-strip_left s)

strip_right-Chars : (s : Text) → Chars s → Chars (strip_right s)
unfolding strip_right
strip_right-Chars [] h = tt
strip_right-Chars (c ∷ s) h = ground (arith, strip_right-Chars s h.1)

-- Stripping from the right leaves the first character, if it leaves any.
starts_dash-strip_right : (s : Text) → starts_dash s ≡ false → starts_dash (strip_right s) ≡ false
unfolding strip_right
starts_dash-strip_right [] h = refl
starts_dash-strip_right (c ∷ s) h = ground arith

run_free_head :
    (c : ℕ) (s : Text)
    → ((c == dash) && starts_dash s) ≡ false
    → ((c == dash) && starts_dash (strip_right s)) ≡ false
run_free_head c s h = ground (arith, starts_dash-strip_right s)

strip_right-NoRun : (s : Text) → NoRun s → NoRun (strip_right s)
unfolding strip_right
strip_right-NoRun [] h = tt
strip_right-NoRun (c ∷ s) h =
    let kept : NoRun (c ∷ strip_right s) = (run_free_head c s h.0, strip_right-NoRun s h.1) in
    elim (Bool-cases ((c == dash) && is_empty (strip_right s))) [
      | inl all ↦ rw all tt
      | inr more ↦ rw more kept
    ]

ends_dash-cons :
    (c : ℕ) (s : Text)
    → ends_dash s ≡ false
    → ((c == dash) && is_empty s) ≡ false
    → ends_dash (c ∷ s) ≡ false
ends_dash-cons c [] h k = ground arith
ends_dash-cons c (d ∷ s) h k = h

ends_dash-strip_right : (s : Text) → ends_dash (strip_right s) ≡ false
unfolding strip_right
ends_dash-strip_right [] = refl
ends_dash-strip_right (c ∷ s) =
    ground (arith, ends_dash-strip_right s, ends_dash-cons c (strip_right s))

-- Whatever the text, `slugify` returns a slug (which may be empty).
pub slugify-IsSlug : (s : Text) → IsSlug (slugify s)
unfolding slugify
slugify-IsSlug s =
    let kept = keep slug_char (dash_spaces (lower s)) in
    let chars : Chars kept = keep-Chars _ (dash_spaces-Lowered _ (lower-Lowered s)) in
    record {
      chars = strip_right-Chars _ (strip_left-Chars _ (collapse-Chars _ chars));
      no_run = strip_right-NoRun _ (strip_left-NoRun _ (collapse-NoRun kept));
      head =
          starts_dash-strip_right (strip_left (collapse kept))
            (starts_dash-strip_left (collapse kept));
      last = ends_dash-strip_right (strip_left (collapse kept));
    }

lower_of_Chars : (s : Text) → Chars s → lower s ≡ s
unfolding lower
lower_of_Chars [] h = refl
lower_of_Chars (c ∷ s) h = ground (arith, lower_of_Chars s h.1)

dash_spaces_of_Chars : (s : Text) → Chars s → dash_spaces s ≡ s
unfolding dash_spaces
dash_spaces_of_Chars [] h = refl
dash_spaces_of_Chars (c ∷ s) h = ground (arith, dash_spaces_of_Chars s h.1)

keep_of_Chars : (s : Text) → Chars s → keep slug_char s ≡ s
unfolding keep slug_char
keep_of_Chars [] h = refl
keep_of_Chars (c ∷ s) h = ground (arith, keep_of_Chars s h.1)

collapse_of_NoRun : (s : Text) → NoRun s → collapse s ≡ s
unfolding collapse
collapse_of_NoRun [] h = refl
collapse_of_NoRun (c ∷ s) h = ground (arith, collapse_of_NoRun s h.1)

strip_left_of_head : (s : Text) → starts_dash s ≡ false → strip_left s ≡ s
unfolding strip_left
strip_left_of_head [] h = refl
strip_left_of_head (c ∷ s) h = ground arith

strip_right_of_last : (s : Text) → ends_dash s ≡ false → strip_right s ≡ s
unfolding strip_right
strip_right_of_last [] h = refl
strip_right_of_last (c ∷ []) h = ground arith
strip_right_of_last (c ∷ d ∷ s) h = ground (arith, strip_right_of_last (d ∷ s))

-- `slugify` leaves a slug as it is.
pub slugify_of_IsSlug : (s : Text) → IsSlug s → slugify s ≡ s
unfolding slugify
slugify_of_IsSlug s h =
    rw (lower_of_Chars s h.chars, dash_spaces_of_Chars s h.chars, keep_of_Chars s h.chars)
      (rw (collapse_of_NoRun s h.no_run, strip_left_of_head s h.head)
        (strip_right_of_last s h.last))

-- Slugifying twice is slugifying once.
pub slugify_idempotent : (s : Text) → slugify (slugify s) ≡ slugify s
slugify_idempotent s = slugify_of_IsSlug (slugify s) (slugify-IsSlug s)

pub Avoids-of_Chars : (sep : ℕ) (s : Text) → is_slug_char sep ≡ false → Chars s → Avoids sep s
Avoids-of_Chars sep [] h k = tt
Avoids-of_Chars sep (c ∷ s) h k = (λ e. cc (ap is_slug_char e), Avoids-of_Chars sep s h k.1)
