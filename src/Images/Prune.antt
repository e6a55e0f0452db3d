-- ===== src/Images/Prune.antt =====
-- Which image files a prune deletes.
use ripcale_backend.Prelude.{
  ◌≢◌, ap, All, Option-cases, ◌≡◌, refl, Bool, true, false, not, List, [], ◌∷◌, Option, none, some,
  Text, ◌==◌, ==_iff, ==_refl, ◌∙◌, ℕ, nat_eq, list_eq, if◌then◌else◌, keep, contains,
  contains-append, lookup, is_some, arith, Bool-cases, inl, inr,
}
use ripcale_backend.Schema.{ImageRef, image_eq}
use ripcale_backend.Platform.{Platform}
use ripcale_backend.Identity.{load_images}
use ripcale_backend.Models.{Event, Db, event_row}
use ripcale_backend.Table.{get_row}
use ripcale_backend.Images.{
  is_filename_from, Files, is_filename, filename_from_url, with_name, gallery_names, names_of,
  referenced_filenames, is_orphan, prune,
}

lookup-keep :
    (test : Text → Bool) (name : Text) (files : Files)
    → lookup name (keep (λ (f : Text × Text). test f.0) files)
      ≡ (if test name then lookup name files else none)
unfolding keep lookup
lookup-keep test name [] = ground arith
lookup-keep test name (f ∷ files) = ground (arith, lookup-keep test name files, ==_iff f.0 name)

module _ (p : Platform) where
  shown_later :
      (first : Option Text) (name : Text) (names : List Text)
      → contains name names ≡ true
      → contains name (with_name p first names) ≡ true
  unfolding contains
  shown_later none name names h = h
  shown_later (some []) name names h = h
  shown_later (some (d ∷ m)) name names h = ground arith

  contains-gallery_names :
      (img : ImageRef) (c : ℕ) (n : Text) (images : List ImageRef)
      → filename_from_url img.url ≡ some (c ∷ n)
      → contains img images ≡ true
      → contains (c ∷ n) (gallery_names p images) ≡ true
  unfolding contains gallery_names
  contains-gallery_names img c n [] h k = ground arith
  contains-gallery_names img c n (x ∷ images) h k = elim (Bool-cases (x == img)) [
    | inl here ↦ rw ((==_iff x img).0 here, h) (ground (arith, ==_refl (c ∷ n)))
    | inr later ↦
        shown_later (filename_from_url x.url) (c ∷ n) (gallery_names p images)
          (contains-gallery_names img c n images h (ground arith))
  ]

  contains-names_of :
      (e : Event) (name : Text) (events : List Event)
      → event_row e.id events ≡ some e
      → is_some e.archived_at ≡ false
      → contains name (gallery_names p (load_images p e.images)) ≡ true
      → contains name (names_of p events) ≡ true
  unfolding get_row names_of
  contains-names_of e name [] h k c = ground arith
  contains-names_of e name (x ∷ events) h k c = ground (
    arith,
    contains-names_of e name events,
    contains-append name (gallery_names p (load_images p x.images)) (names_of p events),
  )

  pick_then : {A : Type 0} (b : Bool) (x y : A) → b ≡ false → (if not b then x else y) ≡ x
  pick_then b x y h = rw h refl

  pick_else : {A : Type 0} (b : Bool) (x y : A) → b ≡ true → (if not b then x else y) ≡ y
  pick_else b x y h = rw h refl

  no_orphan :
      (db : Db) (files : Files) (name : Text)
      → is_orphan p db name ≡ false
      → lookup name (prune p false db files).0 ≡ lookup name files
  unfolding prune
  no_orphan db files name h =
      lookup-keep (λ n. not (is_orphan p db n)) name files
      ∙ pick_then (is_orphan p db name) (lookup name files) none h

  shown_is_no_orphan :
      (db : Db) (e : Event) (img : ImageRef) (name : Text)
      → event_row e.id db.events ≡ some e
      → is_some e.archived_at ≡ false
      → contains img (load_images p e.images) ≡ true
      → filename_from_url img.url ≡ some name
      → is_orphan p db name ≡ false
  unfolding is_orphan referenced_filenames is_filename is_filename_from
  shown_is_no_orphan db e img [] row live shown url = refl
  shown_is_no_orphan db e img (c ∷ n) row live shown url =
      let referenced =
        contains-names_of e (c ∷ n) db.events row live
          (contains-gallery_names img c n (load_images p e.images) url shown) in
      ground arith

  -- No image of the list is served from the file.
  abbrev pub NotAmong : Text → List ImageRef → Type 0
  NotAmong name images = All (λ (img : ImageRef). filename_from_url img.url ≢ some name) images

  -- No live event has an image that is served from the file.
  abbrev pub IsUnshown : Text → List Event → Type 0
  IsUnshown name events =
      All (λ (e : Event). e.archived_at ≡ none → NotAmong name (load_images p e.images)) events

  with_name_other :
      (first : Option Text) (name : Text) (names : List Text)
      → first ≢ some name
      → contains name names ≡ false
      → contains name (with_name p first names) ≡ false
  unfolding contains
  with_name_other none name names h k = k
  with_name_other (some []) name names h k = k
  with_name_other (some (d ∷ m)) name names h k = elim (Bool-cases ((d ∷ m) == name)) [
    | inl same ↦ absurd (h (ap some ((==_iff (d ∷ m) name).0 same)))
    | inr other ↦ rw other k
  ]

  not_in_gallery :
      (name : Text) (images : List ImageRef)
      → NotAmong name images
      → contains name (gallery_names p images) ≡ false
  unfolding gallery_names
  not_in_gallery name [] h = unfold contains in refl
  not_in_gallery name (img ∷ images) h =
      with_name_other (filename_from_url img.url) name (gallery_names p images) h.0
        (not_in_gallery name images h.1)

  not_in_names :
      (name : Text) (events : List Event)
      → IsUnshown name events
      → contains name (names_of p events) ≡ false
  unfolding names_of
  not_in_names name [] h = unfold contains in refl
  not_in_names name (e ∷ events) h = elim (Option-cases e.archived_at) [
    | inl live ↦ rw live (
        contains-append name (gallery_names p (load_images p e.images)) (names_of p events)
        ∙ ground (
          arith,
          not_in_gallery name (load_images p e.images) (h.0 live),
          not_in_names name events h.1,
        ))
    | inr (t, archived) ↦ rw archived (not_in_names name events h.1)
  ]

  -- A prune that commits deletes exactly the image files that no live event shows: a file that an
  -- image of a live event is served from stays, a file whose name is not that of an image stays,
  -- and a file of such a name is gone where no event that is not archived has an image that is
  -- served from it; a dry run deletes nothing.
  pub prune_spares :
      (db : Db) (files : Files)
      → ((e : Event) (img : ImageRef) (name : Text)
          → event_row e.id db.events ≡ some e
          → is_some e.archived_at ≡ false
          → contains img (load_images p e.images) ≡ true
          → filename_from_url img.url ≡ some name
          → lookup name (prune p false db files).0 ≡ lookup name files)
        × ((name : Text)
            → is_filename name ≡ false
            → lookup name (prune p false db files).0 ≡ lookup name files)
        × ((name : Text)
            → is_filename name ≡ true
            → IsUnshown name db.events
            → lookup name (prune p false db files).0 ≡ none)
        × ((prune p true db files).0 ≡ files)
  unfolding prune is_orphan referenced_filenames
  prune_spares db files = (
    (λ e img name row live shown url.
        no_orphan db files name (shown_is_no_orphan db e img name row live shown url)),
    (λ name other. no_orphan db files name (ground arith)),
    (λ name image unshown.
        let unused = not_in_names name db.events unshown in
        lookup-keep (λ n. not (is_orphan p db n)) name files
        ∙ pick_else (is_orphan p db name) (lookup name files) none (ground arith)),
    refl,
  )
