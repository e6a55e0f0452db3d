-- ===== src/Backup/Retention.antt =====
-- Which archives the retention keeps.
use ripcale_backend.Prelude.{
  ==_refl, leb, if◌then◌else◌, false, ℕ, zero, suc, ◌+◌, ◌-◌, ◌≤◌, ◌≡◌, refl, ap, sym, ◌∙◌, true,
  false, ◌&&◌, ◌||◌, not, List, [], ◌∷◌, map, Text, ◌==◌, ==_iff, nat_eq, list_eq, keep, contains,
  length, take, All, arith, text_lt_connex, text_lt_trans, All-at, contains-keep, none,
  All-of_contains, lookup,
}
use ripcale_backend.Prelude.Int.{pos}
use ripcale_backend.Prelude.Order.{
  length-sort_by, All-sort_by, All-kept, sort_by, insert_by, text_le, length-keep-sort_by,
  sort_by-IsSortedBy, IsSortedBy, All-take,
}
use ripcale_backend.Settings.{Settings}
use ripcale_backend.Backup.{Archive, Place, is_archive, archives, excess, without, prune}

keep_names :
    (gone : List Text) (files : List (Text × Archive))
    → length (keep is_archive (map (λ (f : Text × Archive). f.0) (without gone files)))
      ≡ length (
          keep
            (λ n. not (contains n gone))
            (keep is_archive (map (λ (f : Text × Archive). f.0) files)))
unfolding keep without
keep_names gone [] = refl
keep_names gone (f ∷ files) = ground (arith, keep_names gone files)

contains-insert_by :
    (a b : Text) (l : List Text) → contains a (insert_by text_le b l) ≡ ((b == a) || contains a l)
unfolding insert_by contains
contains-insert_by a b [] = refl
contains-insert_by a b (x ∷ l) = ground (arith, contains-insert_by a b l)

contains-sort_by : (a : Text) (l : List Text) → contains a (sort_by text_le l) ≡ contains a l
unfolding sort_by contains
contains-sort_by a [] = refl
contains-sort_by a (x ∷ l) =
    contains-insert_by a x (sort_by text_le l) ∙ ap (λ r. (x == a) || r) (contains-sort_by a l)

contains-names_without :
    (a : Text) (gone : List Text) (files : List (Text × Archive))
    → contains a (map (λ (f : Text × Archive). f.0) (without gone files))
      ≡ (not (contains a gone) && contains a (map (λ (f : Text × Archive). f.0) files))
unfolding keep without contains
contains-names_without a gone [] = ground arith
contains-names_without a gone (f ∷ files) =
    ground (arith, contains-names_without a gone files, ==_iff f.0 a)

text_le_total : (a b : Text) → (text_le a b || text_le b a) ≡ true
text_le_total a b = ground (arith, text_lt_connex a b, ==_iff a b)

text_le_trans : (a b c : Text) → text_le a b ≡ true → text_le b c ≡ true → text_le a c ≡ true
text_le_trans a b c h k = ground (arith, text_lt_trans a b c, ==_iff a b, ==_iff b c, ==_iff a c)

-- In a sorted list what is among the first elements is before what is not.
sorted_split :
    (k : ℕ) (l : List Text) (x y : Text)
    → IsSortedBy text_le l
    → contains x (take k l) ≡ true
    → contains y l ≡ true
    → contains y (take k l) ≡ false
    → text_le x y ≡ true
unfolding contains
sorted_split zero l x y s hx hy n = ground arith
sorted_split (suc k) [] x y s hx hy n = ground arith
sorted_split (suc k) (z ∷ l) x y s hx hy n = ground (
  arith,
  ==_iff z x,
  ==_iff z y,
  sorted_split k l x y s.1,
  All-at (λ t. text_le z t ≡ true) l y s.0,
)

pub lookup-without :
    (name : Text) (gone : List Text) (files : List (Text × Archive))
    → contains name gone ≡ false
    → lookup name (without gone files) ≡ lookup name files
unfolding keep without lookup
lookup-without name gone [] h = refl
lookup-without name gone (f ∷ files) h =
    ground (arith, lookup-without name gone files h, ==_iff f.0 name)

pub lookup-without_gone :
    (name : Text) (gone : List Text) (files : List (Text × Archive))
    → contains name gone ≡ true
    → lookup name (without gone files) ≡ none
unfolding keep without lookup
lookup-without_gone name gone [] h = refl
lookup-without_gone name gone (f ∷ files) h =
    ground (arith, lookup-without_gone name gone files h, ==_iff f.0 name)

contains-archives :
    (y : Text) (files : List (Text × Archive))
    → contains y (archives files)
      ≡ (is_archive y && contains y (map (λ (f : Text × Archive). f.0) files))
unfolding archives
contains-archives y files =
    contains-sort_by y (keep is_archive (map (λ (f : Text × Archive). f.0) files))
    ∙ contains-keep y is_archive (map (λ (f : Text × Archive). f.0) files)

-- No name stands twice in the list.
abbrev pub IsDistinct : List Text → Type 0
IsDistinct [] = Unit
IsDistinct (x ∷ xs) = All (λ y. (x == y) ≡ false) xs × IsDistinct xs

keep_other_names :
    (x : Text) (gone xs : List Text)
    → All (λ y. (x == y) ≡ false) xs
    → keep (λ y. not (contains y (x ∷ gone))) xs ≡ keep (λ y. not (contains y gone)) xs
unfolding keep contains
keep_other_names x gone [] h = refl
keep_other_names x gone (y ∷ xs) h = ground (arith, h.0, keep_other_names x gone xs h.1)

keep_all : (xs : List Text) → keep (λ y. not (contains y [])) xs ≡ xs
unfolding keep contains
keep_all [] = refl
keep_all (x ∷ xs) = ap (◌∷◌ x) (keep_all xs)

length_without_first :
    (k : ℕ) (xs : List Text)
    → IsDistinct xs
    → k ≤ length xs
    → length (keep (λ y. not (contains y (take k xs))) xs) + k ≡ length xs
length_without_first zero xs d h = omega (arith, ap length (keep_all xs))
length_without_first (suc k) [] d h = absurd (omega arith)
length_without_first (suc k) (x ∷ xs) d h =
    let same : keep (λ y. not (contains y (x ∷ take k xs))) (x ∷ xs)
        ≡ keep (λ y. not (contains y (take k xs))) xs =
      unfold keep contains in rw (==_refl x) (keep_other_names x (take k xs) xs d.0) in
    omega (arith, ap length same, length_without_first k xs d.1 (omega arith))

module _ (k : ℕ) (files : List (Text × Archive)) where
  abbrev oldest : List Text
  oldest = take k (archives files)

  length_left :
      IsDistinct (archives files)
      → k ≤ length (archives files)
      → length (archives (without oldest files)) + k ≡ length (archives files)
  length_left d h =
      let test = λ (n : Text). not (contains n oldest) in
      let names = map (λ (f : Text × Archive). f.0) files in
      let left : length (archives (without oldest files)) ≡ length (keep test (archives files)) =
        unfold archives in
        length-sort_by text_le
          (keep is_archive (map (λ (f : Text × Archive). f.0) (without oldest files)))
        ∙ keep_names oldest files
        ∙ sym (length-keep-sort_by test text_le (keep is_archive names)) in
      ap (λ n. n + k) left ∙ length_without_first k (archives files) d h

  sorted : IsSortedBy text_le (archives files)
  unfolding archives
  sorted = sort_by-IsSortedBy text_le text_le_total text_le_trans _

  All-archives : All (λ n. is_archive n ≡ true) (archives files)
  unfolding archives
  All-archives =
      All-sort_by (λ n. is_archive n ≡ true) text_le _
        (All-kept is_archive (map (λ (f : Text × Archive). f.0) files))

  archive_of : (name : Text) → contains name oldest ≡ true → is_archive name ≡ true
  archive_of name h =
      All-at (λ n. is_archive n ≡ true) oldest name
        (All-take (λ n. is_archive n ≡ true) k (archives files) All-archives) h

  -- What is among the archives afterwards was one before, and is not one of the oldest.
  left_of :
      (y : Text)
      → contains y (archives (without oldest files)) ≡ true
      → (contains y (archives files) ≡ true) × (contains y oldest ≡ false)
  left_of y h =
      let now = contains-archives y (without oldest files) in
      let was = contains-archives y files in
      let rest = contains-names_without y oldest files in ground arith

  oldest_before : All (λ x. All (λ y. text_le x y ≡ true) (archives (without oldest files))) oldest
  oldest_before =
      All-of_contains (λ x. All (λ y. text_le x y ≡ true) (archives (without oldest files))) oldest
        (λ x hx.
          All-of_contains (λ y. text_le x y ≡ true) (archives (without oldest files))
            (λ y hy.
              let (there, stays) = left_of y hy in
              sorted_split k (archives files) x y sorted hx there stays))

  -- What was an archive and is none afterwards is one of the oldest.
  gone_is_oldest :
      (x : Text)
      → contains x (archives files) ≡ true
      → contains x (archives (without oldest files)) ≡ false
      → contains x oldest ≡ true
  gone_is_oldest x there gone =
      let now = contains-archives x (without oldest files) in
      let was = contains-archives x files in
      let rest = contains-names_without x oldest files in ground arith

  gone_before :
      All
        (λ x.
          contains x (archives (without oldest files)) ≡ false
          → All (λ y. text_le x y ≡ true) (archives (without oldest files)))
        (archives files)
  gone_before = All-of_contains _ (archives files) (λ x there gone.
      All-at (λ z. All (λ y. text_le z y ≡ true) (archives (without oldest files))) oldest x
        oldest_before (gone_is_oldest x there gone))

  left_stay :
      All (λ y. lookup y (without oldest files) ≡ lookup y files) (archives (without oldest files))
  left_stay =
      All-of_contains _ (archives (without oldest files))
        (λ y h. lookup-without y oldest files (left_of y h).1)

  others_stay :
      (name : Text)
      → is_archive name ≡ false
      → lookup name (without oldest files) ≡ lookup name files
  others_stay name h = lookup-without name oldest files (ground (arith, archive_of name))

abbrev pub smaller : ℕ → ℕ → ℕ
smaller a b = if leb a b then a else b

module _ (settings : Settings) (place : Place) where
  -- With a positive `backup_count` and backups enabled, pruning a directory in which no archive's
  -- name stands twice leaves exactly that many archives, or all where there are fewer: each has its
  -- content, the name of each that is gone is before those of all that are left, and every file
  -- that is no archive stays.
  pub prune_keeps_latest :
      (n : ℕ) (files : List (Text × Archive))
      → place.enabled ≡ true
      → settings.backup_count ≡ pos (suc n)
      → IsDistinct (archives files)
      → let after = (prune settings place files).0 in
        (length (archives after) ≡ smaller (suc n) (length (archives files)))
        × All
            (λ x.
              contains x (archives after) ≡ false → All (λ y. text_le x y ≡ true) (archives after))
            (archives files)
        × All (λ y. lookup y after ≡ lookup y files) (archives after)
        × ((name : Text) → is_archive name ≡ false → lookup name after ≡ lookup name files)
  unfolding prune excess
  prune_keeps_latest n files on count distinct =
      let k = length (archives files) - suc n in
      rw (on, count)
        (
          ground (arith, length_left k files distinct (omega arith)),
          gone_before k files,
          left_stay k files,
          others_stay k files,
        )
