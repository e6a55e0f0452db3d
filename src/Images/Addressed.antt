-- ===== src/Images/Addressed.antt =====
-- What becomes of the images that are hosted.
use ripcale_backend.Prelude.{
  ◌≡◌, refl, ◌⊎◌, inl, inr, true, List, [], ◌∷◌, ◌++◌, Option, none, some, Text, ==_iff, ==_refl,
  nat_eq, list_eq, Bool-cases, lookup, starts_with, All, arith,
}
use ripcale_backend.Schema.{Instant, ImageRef, ScrapedEvent}
use ripcale_backend.Models.{HostedImage}
use ripcale_backend.Table.{get_row}
use ripcale_backend.Images.{
  ext, rewritten, images_prefix, World, Store, Files, Download, hosted_key, is_file, served,
  put_file, name_of, stored, store, note_stored, host_found, host_or_store, host_image,
  host_gallery, host_events, host_images,
}

module _ (w : World) (utcnow : Instant) where
  -- Every file has the name that its bytes hash to, with an extension.
  abbrev pub IsAddressed : Files → Type 0
  IsAddressed = All (λ (f : Text × Text). (e : Text) × (f.0 ≡ w.sha256 f.1 ++ e))

  -- No file is lost, and what is new is addressed.
  pub record Extends (old new : Files) : Type 0 where
    pub keeps : (name : Text) → is_file name old ≡ true → is_file name new ≡ true
    pub addressed : IsAddressed old → IsAddressed new

  Extends-refl : (files : Files) → Extends files files
  Extends-refl files = record { keeps = λ name h. h; addressed = λ h. h }

  Extends-trans : (a b c : Files) → Extends a b → Extends b c → Extends a c
  Extends-trans a b c h k = record {
    keeps = λ name p. k.keeps name (h.keeps name p);
    addressed = λ p. k.addressed (h.addressed p);
  }

  -- What a download leads to: a file of the name is there.
  Serves : Files → Option Text → Type 0
  Serves files none = Unit
  Serves files (some name) = is_file name files ≡ true

  put_file-Extends :
      (name content : Text) (files : Files) (e : Text)
      → name ≡ w.sha256 content ++ e
      → Extends files (put_file w utcnow name content files)
        × (is_file name (put_file w utcnow name content files) ≡ true)
  unfolding put_file lookup
  put_file-Extends name content files e h = elim (Bool-cases (is_file name files)) [
    | inl there ↦ rw there (Extends-refl files, there)
    | inr new ↦ rw new (
      record { keeps = λ n p. ground (arith, ==_iff name n); addressed = λ a. ((e, h), a) },
      ground (arith, ==_refl name),
    )
  ]

  stored-Extends :
      (url : Text) (d : Option Download) (files : Files)
      → let (after, name) = stored w utcnow url d files in Extends files after × Serves after name
  unfolding Serves
  stored-Extends url none files = (Extends-refl files, tt)
  stored-Extends url (some d) files =
      put_file-Extends (name_of w utcnow url d) d.content files (ext w utcnow d.content_type url)
        refl

  -- The files behind a step, and the name that it hands on.
  abbrev Keeps : Files → Files → Option Text → Type 0
  Keeps old new name = Extends old new × Serves new name

  note_stored-Keeps :
      (url : Text) (row : Option HostedImage) (result : Files × Option Text) (s : Store)
      → Keeps s.files result.0 result.1
      → let r = note_stored w utcnow url row result s in Keeps s.files r.0.files r.1.0
  unfolding note_stored
  note_stored-Keeps url row (files, none) s h = h
  note_stored-Keeps url none (files, some name) s h = h
  note_stored-Keeps url (some row) (files, some name) s h = h

  host_found-Keeps :
      (url : Text) (row : Option HostedImage) (s : Store)
      → let r = host_found w utcnow url row s in Keeps s.files r.0.files r.1.0
  unfolding host_found store
  host_found-Keeps url none s =
      note_stored-Keeps url none _ s (stored-Extends url (w.download url) s.files)
  host_found-Keeps url (some row) s = elim (Bool-cases (is_file row.filename s.files)) [
    | inl there ↦ rw there (Extends-refl s.files, unfold Serves in there)
    | inr lost ↦
        rw lost (note_stored-Keeps url (some row) _ s (stored-Extends url (w.download url) s.files))
  ]

  -- An image stays as it was, or is served from a file that is there, with its URL as the source.
  abbrev pub Fate : Files → ImageRef → ImageRef → Type 0
  Fate files before after =
      (after ≡ before)
      ⊎ ((name : Text) × (after ≡ record before { url = served name; source_url = some before.url })
          × (is_file name files ≡ true))

  Fate-of :
      (img : ImageRef) (local : Option Text) (files : Files)
      → Serves files local
      → Fate files img (rewritten w utcnow img local)
  unfolding Serves
  Fate-of img none files h = inl refl
  Fate-of img (some name) files h = inr (name, refl, h)

  host_image-Fate :
      (img : ImageRef) (s : Store)
      → let r = host_image w utcnow img s in Extends s.files r.0.files × Fate r.0.files img r.1.0
  unfolding host_image host_or_store
  host_image-Fate img s =
      let (h, k) = host_found-Keeps img.url (get_row hosted_key img.url s.memo) s in
      elim (Bool-cases (starts_with images_prefix img.url)) [
        | inl hosted ↦ rw hosted (Extends-refl s.files, inl refl)
        | inr remote ↦ rw remote (h, Fate-of img _ _ k)
      ]

  -- The same for each image of a gallery, in order.
  abbrev pub Fates : Files → List ImageRef → List ImageRef → Type 0
  Fates files [] [] = Unit
  Fates files (a ∷ xs) (b ∷ ys) = Fate files a b × Fates files xs ys
  Fates files _ _ = ⊥

  Fate-Extends : (old new : Files) (a b : ImageRef) → Extends old new → Fate old a b → Fate new a b
  Fate-Extends old new a b h (inl same) = inl same
  Fate-Extends old new a b h (inr (name, e, there)) = inr (name, e, h.keeps name there)

  host_gallery-Fates :
      (images : List ImageRef) (s : Store)
      → let r = host_gallery w utcnow images s in
        Extends s.files r.0.files × Fates r.0.files images r.1.0
  unfolding host_gallery
  host_gallery-Fates [] s = (Extends-refl s.files, tt)
  host_gallery-Fates (img ∷ images) s =
      let one = host_image w utcnow img s in
      let rest = host_gallery w utcnow images one.0 in
      let (h, fate) = host_image-Fate img s in
      let (k, fates) = host_gallery-Fates images one.0 in
      (
        Extends-trans s.files one.0.files rest.0.files h k,
        (Fate-Extends one.0.files rest.0.files img one.1.0 k fate, fates),
      )

  Fates-Extends :
      (old new : Files) (xs ys : List ImageRef)
      → Extends old new
      → Fates old xs ys
      → Fates new xs ys
  Fates-Extends old new [] [] h k = tt
  Fates-Extends old new (a ∷ xs) (b ∷ ys) h k =
      (Fate-Extends old new a b h k.0, Fates-Extends old new xs ys h k.1)
  Fates-Extends old new [] (b ∷ ys) h k = absurd k
  Fates-Extends old new (a ∷ xs) [] h k = absurd k

  -- Event by event, nothing but the images changes.
  abbrev pub AreHosted : Files → List ScrapedEvent → List ScrapedEvent → Type 0
  AreHosted files [] [] = Unit
  AreHosted files (a ∷ xs) (b ∷ ys) =
      (b ≡ record a { images = b.images }) × Fates files a.images b.images × AreHosted files xs ys
  AreHosted files _ _ = ⊥

  host_events_hosted :
      (events : List ScrapedEvent) (s : Store)
      → let r = host_events w utcnow events s in
        Extends s.files r.0.files × AreHosted r.0.files events r.1.0
  unfolding host_events
  host_events_hosted [] s = (Extends-refl s.files, tt)
  host_events_hosted (e ∷ events) s =
      let one = host_gallery w utcnow e.images s in
      let rest = host_events w utcnow events one.0 in
      let (h, fates) = host_gallery-Fates e.images s in
      let (k, hosted) = host_events_hosted events one.0 in
      (
        Extends-trans s.files one.0.files rest.0.files h k,
        (refl, Fates-Extends one.0.files rest.0.files e.images one.1.0 k fates, hosted),
      )

  -- Hosting the images of a batch of events changes nothing but the images; each image stays as it
  -- was, or is served from a file that is then in the directory, with its old URL as its source. No
  -- file is lost, and the name of every file is still the hash of its bytes with an extension, if
  -- that was so before.
  pub host_images-AreHosted :
      (events : List ScrapedEvent) (s : Store)
      → let (after, hosted) = host_images w utcnow events s in
        AreHosted after.files events hosted × Extends s.files after.files
  unfolding host_images
  host_images-AreHosted events s =
      let (h, k) = host_events_hosted events s in
      elim (Bool-cases (host_events w utcnow events s).1.1) [
        | inl grew ↦ rw grew (k, h)
        | inr same ↦ rw same (k, h)
      ]
