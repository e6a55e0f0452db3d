-- ===== src/Tests/Codec.antt =====
-- A wire format for the sample platform: lengths and tags before their values.
use ripcale_backend.Prelude.{
  ℕ, zero, suc, ◌≡◌, refl, ap, sym, List, [], ◌∷◌, ◌++◌, Option, none, some, Text, length, take,
}
use mathlib.Core.List.{append_assoc, append-nil}
use ripcale_backend.Prelude.Int.{ℤ, pos, negsuc}
use ripcale_backend.Schema.{ImageRef}

abbrev drop : ℕ → Text → Text
drop zero s = s
drop (suc n) [] = []
drop (suc n) (c ∷ s) = drop n s

-- How a type is written, and how it is read off the front of a text.
pub record Wire (A : Type 0) : Type 0 where
  pub write : A → Text
  pub read : Text → Option (A × Text)
  pub back : (a : A) (s : Text) → read (write a ++ s) ≡ some (a, s)

pub take_part : (t s : Text) → take (length t) (t ++ s) ≡ t
take_part [] s = refl
take_part (c ∷ t) s = ap (◌∷◌ c) (take_part t s)

pub drop_part : (t s : Text) → drop (length t) (t ++ s) ≡ s
drop_part [] s = refl
drop_part (c ∷ t) s = drop_part t s

abbrev pub read_text : Text → Option (Text × Text)
read_text [] = none
read_text (n ∷ s) = some (take n s, drop n s)

abbrev pub write_text : Text → Text
write_text t = length t ∷ t

abbrev pub text : Wire Text
text = record {
  write = write_text;
  read = read_text;
  back = λ t s. rw (take_part t s, drop_part t s) refl;
}

abbrev pub read_int : Text → Option (ℤ × Text)
read_int (zero ∷ n ∷ s) = some (pos n, s)
read_int (suc tag ∷ n ∷ s) = some (negsuc n, s)
read_int _ = none

abbrev pub write_int : ℤ → Text
write_int (pos n) = 0 ∷ n ∷ []
write_int (negsuc n) = 1 ∷ n ∷ []

pub int_back : (a : ℤ) (s : Text) → read_int (write_int a ++ s) ≡ some (a, s)
int_back (pos n) s = refl
int_back (negsuc n) s = refl

abbrev pub int : Wire ℤ
int = record { write = write_int; read = read_int; back = int_back }

module _ {A : Type 0} (w : Wire A) where
  read_option : Text → Option (Option A × Text)
  read_option [] = none
  read_option (zero ∷ s) = some (none, s)
  read_option (suc tag ∷ s) = elim (w.read s) [ none ↦ none | some (a, r) ↦ some (some a, r) ]

  write_option : Option A → Text
  write_option none = 0 ∷ []
  write_option (some a) = 1 ∷ w.write a

  option_back : (o : Option A) (s : Text) → read_option (write_option o ++ s) ≡ some (o, s)
  unfolding read_option write_option
  option_back none s = refl
  option_back (some a) s = rw (w.back a s) refl

  read_many : ℕ → Text → Option (List A × Text)
  read_many zero s = some ([], s)
  read_many (suc n) s = elim (w.read s) [
    | none ↦ none
    | some (a, r) ↦ elim (read_many n r) [ none ↦ none | some (l, t) ↦ some (a ∷ l, t) ]
  ]

  write_many : List A → Text
  write_many [] = []
  write_many (a ∷ l) = w.write a ++ write_many l

  many_back : (l : List A) (s : Text) → read_many (length l) (write_many l ++ s) ≡ some (l, s)
  unfolding read_many write_many
  many_back [] s = refl
  many_back (a ∷ l) s =
      rw (append_assoc (w.write a) (write_many l) s, w.back a (write_many l ++ s), many_back l s)
        refl

  abbrev pub list_of : Option (List A × Text) → Option (List A)
  list_of none = none
  list_of (some (l, t)) = some l

  unfoldable pub read_list : Text → Option (List A)
  unfolding read_many
  read_list [] = none
  read_list (n ∷ s) = list_of (read_many n s)

  unfoldable pub write_list : List A → Text
  unfolding write_many
  write_list l = length l ∷ write_many l

  pub list_back : (l : List A) → read_list (write_list l) ≡ some l
  unfolding read_list write_list
  list_back l = rw (sym (append-nil (write_many l)), many_back l []) refl

module _ {A B : Type 0} (v : Wire A) (w : Wire B) where
  abbrev with_first : A → Option (B × Text) → Option ((A × B) × Text)
  with_first a none = none
  with_first a (some (b, t)) = some ((a, b), t)

  abbrev read_second : Option (A × Text) → Option ((A × B) × Text)
  read_second none = none
  read_second (some (a, s)) = with_first a (w.read s)

  write_pair : A × B → Text
  write_pair (a, b) = v.write a ++ w.write b

  pair_back : (x : A × B) (s : Text) → read_second (v.read (write_pair x ++ s)) ≡ some (x, s)
  unfolding write_pair
  pair_back (a, b) s =
      rw (append_assoc (v.write a) (w.write b) s, v.back a (w.write b ++ s), w.back b s) refl

  pair : Wire (A × B)
  pair = record { write = write_pair; read = λ s. read_second (v.read s); back = pair_back }

option : {A : Type 0} → Wire A → Wire (Option A)
option w = record { write = write_option w; read = read_option w; back = option_back w }

abbrev of_fields : Option ((Text × (Option Text × Option Text)) × Text) → Option (ImageRef × Text)
of_fields none = none
of_fields (some (x, s)) = some (record { url = x.0; alt = x.1.0; source_url = x.1.1 }, s)

fields : Wire (Text × (Option Text × Option Text))
unfolding pair option
fields = pair text (pair (option text) (option text))

pub image : Wire ImageRef
image = record {
  write = λ i. fields.write (i.url, (i.alt, i.source_url));
  read = λ s. of_fields (fields.read s);
  back = λ i s. ap of_fields (fields.back (i.url, (i.alt, i.source_url)) s);
}
