-- ===== src/Images/Bounds.antt =====
-- The size of the memo of hosted images.
use ripcale_backend.Prelude.{
  suc, ◌-◌, ◌≤◌, ◌≡◌, refl, ap, Bool, true, false, not, List, [], ◌∷◌, map, Option, none, some,
  Text, nat_eq, list_eq, contains, length, take, All, All-of_contains, arith,
}
use ripcale_backend.Prelude.Order.{sort_by, length-sort_by, length-keep-sort_by, length-keep_others}
use ripcale_backend.Schema.{Instant, ImageRef, ScrapedEvent}
use ripcale_backend.Models.{HostedImage}
use ripcale_backend.Table.{get_row, modify_row}
use ripcale_backend.Images.{
  World, Store, Files, used, hosted_key, store, note_stored, host_found, host_or_store, host_image,
  host_gallery, host_events, older_use, least_used, evict_lru, host_images,
}

length-modify_row :
    (k : Text) (f : HostedImage → HostedImage) (rows : List HostedImage)
    → length (modify_row hosted_key k f rows) ≡ length rows
unfolding modify_row
length-modify_row k f [] = refl
length-modify_row k f (r ∷ rows) = ap suc (length-modify_row k f rows)

contains_keys :
    (rows : List HostedImage)
    → (gone : List Text) → All (λ u. contains u gone ≡ true) (map hosted_key rows)
    → All (λ (r : HostedImage). contains r.url gone ≡ true) rows
contains_keys [] gone h = tt
contains_keys (r ∷ rows) gone h = (h.0, contains_keys rows gone h.1)

module _ (w : World) (utcnow : Instant) where
  -- However many rows the memo has, the eviction leaves at most a thousand.
  length-evict_lru : (memo : List HostedImage) → length (evict_lru w utcnow memo) ≤ 1000
  unfolding evict_lru least_used
  length-evict_lru memo =
      let n = length memo - 1000 in
      let rows = sort_by (older_use w utcnow) memo in
      let gone = map hosted_key (take n rows) in
      let same = length-sort_by (older_use w utcnow) memo in
      let left = length-keep_others hosted_key gone rows n (omega (arith, same)) (
        contains_keys (take n rows) gone
          (All-of_contains (λ u. contains u gone ≡ true) gone (λ a p. p))) in
      omega (
        arith,
        left,
        same,
        length-keep-sort_by (λ (r : HostedImage). not (contains r.url gone)) (older_use w utcnow)
            memo,
      )

  -- Without a report of growth the memo has the rows it had.
  abbrev Grows : Store → Store → Bool → Type 0
  Grows before after grew = grew ≡ false → length after.memo ≡ length before.memo

  note_stored-Grows :
      (url : Text) (row : Option HostedImage) (stored : Files × Option Text) (s : Store)
      → let r = note_stored w utcnow url row stored s in Grows s r.0 r.1.1
  unfolding note_stored
  note_stored-Grows url row (files, none) s h = refl
  note_stored-Grows url none (files, some name) s h = ground arith
  note_stored-Grows url (some row) (files, some name) s h = length-modify_row url _ s.memo

  host_found-Grows :
      (url : Text) (row : Option HostedImage) (s : Store)
      → let r = host_found w utcnow url row s in Grows s r.0 r.1.1
  unfolding host_found
  host_found-Grows url none s h = note_stored-Grows url none (store w utcnow url s.files) s h
  host_found-Grows url (some row) s h = ground (
    arith,
    note_stored-Grows url (some row) (store w utcnow url s.files) s,
    length-modify_row url (used w utcnow row.filename) s.memo,
  )

  host_image-Grows :
      (img : ImageRef) (s : Store) → let r = host_image w utcnow img s in Grows s r.0 r.1.1
  unfolding host_image host_or_store
  host_image-Grows img s h =
      ground (arith, host_found-Grows img.url (get_row hosted_key img.url s.memo) s)

  host_gallery-Grows :
      (images : List ImageRef) (s : Store)
      → let r = host_gallery w utcnow images s in Grows s r.0 r.1.1
  unfolding host_gallery
  host_gallery-Grows [] s h = refl
  host_gallery-Grows (img ∷ images) s h =
      let (s₁, (img', grew)) = host_image w utcnow img s in
      ground (arith, host_image-Grows img s, host_gallery-Grows images s₁)

  host_events-Grows :
      (events : List ScrapedEvent) (s : Store)
      → let r = host_events w utcnow events s in Grows s r.0 r.1.1
  unfolding host_events
  host_events-Grows [] s h = refl
  host_events-Grows (e ∷ events) s h =
      let (s₁, (images, grew)) = host_gallery w utcnow e.images s in
      ground (arith, host_gallery-Grows e.images s, host_events-Grows events s₁)

  -- A memo of at most a thousand rows has at most a thousand behind any batch of events.
  pub length-host_images :
      (events : List ScrapedEvent) (s : Store)
      → length s.memo ≤ 1000
      → length (host_images w utcnow events s).0.memo ≤ 1000
  unfolding host_images
  length-host_images events s h =
      let after = (host_events w utcnow events s).0 in
      ground (arith, host_events-Grows events s, length-evict_lru after.memo)
