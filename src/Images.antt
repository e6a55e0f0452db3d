-- ===== src/Images.antt =====
-- services/images.py: images are downloaded once and kept under the hash of their bytes. The download,
-- the hash and `pathlib` are parameters.
pub mod Bounds
pub mod Prune
pub mod Addressed
use mathlib.Core.Option
use ripcale_backend.Prelude.{
  ℕ, zero, suc, ◌-◌, Bool, true, false, ◌&&◌, ◌||◌, not, List, [], ◌∷◌, ◌++◌, map, Option, none,
  some, Text, codes, ◌==◌, nat_eq, list_eq, if◌then◌else◌, is_empty, is_none, is_some, or_else,
  keep, contains, length, take, leb, lookup, before, removed_prefix, starts_with,
}
use ripcale_backend.Prelude.Int.{leb_ℤ}
use ripcale_backend.Prelude.Order.{sort_by}
use ripcale_backend.Schema.{Instant, ImageRef, ScrapedEvent}
use ripcale_backend.Platform.{Platform}
use ripcale_backend.Models.{HostedImage, Event, Db}
use ripcale_backend.Table.{get_row, modify_row}
use ripcale_backend.Identity.{load_images, truthy}
use ripcale_backend.Categories.{lower}

-- The response of a download: its bytes and its `Content-Type`.
pub record Download : Type 0 where
  pub content : Text
  pub content_type : Option Text

pub record World : Type 0 where
  -- `safe_get(url)` and `raise_for_status()`, unless one raises
  pub download : Text → Option Download
  -- `hashlib.sha256(content).hexdigest()`
  pub sha256 : Text → Text
  -- `Path(url).suffix`, and `s.strip()`
  pub suffix : Text → Text
  pub strip : Text → Text

-- The directory `data/images`: the files by name, with their bytes.
abbrev pub Files : Type 0
Files = List (Text × Text)

-- The memo of the database beside the files.
pub record Store : Type 0 where
  pub memo : List HostedImage
  pub files : Files

abbrev content_type_exts : List (Text × Text)
content_type_exts =
    (codes "image/jpeg", codes ".jpg")
    ∷ (codes "image/jpg", codes ".jpg")
    ∷ (codes "image/png", codes ".png")
    ∷ (codes "image/webp", codes ".webp")
    ∷ (codes "image/gif", codes ".gif")
    ∷ (codes "image/heic", codes ".heic")
    ∷ (codes "image/heif", codes ".heif")
    ∷ (codes "image/avif", codes ".avif")
    ∷ []

abbrev is_digit : ℕ → Bool
is_digit c = leb b'0' c && leb c b'9'

-- `[a-z0-9]` and `[0-9a-f]`
abbrev pub is_alnum : ℕ → Bool
is_alnum c = (leb b'a' c && leb c b'z') || is_digit c

abbrev pub is_hex : ℕ → Bool
is_hex c = is_digit c || (leb b'a' c && leb c b'f')

unfoldable pub every : (ℕ → Bool) → Text → Bool
every test [] = true
every test (c ∷ s) = test c && every test s

-- `fullmatch(r"\.[a-z0-9]{2,5}", suffix)`
unfoldable pub is_suffix : Text → Bool
is_suffix [] = false
is_suffix (c ∷ s) = (c == b'.') && every is_alnum s && leb 2 (length s) && leb (length s) 5

-- `_FILENAME_RE`: 64 digits, a dot and at least one letter or digit.
unfoldable pub is_filename_from : ℕ → Text → Bool
is_filename_from n [] = false
is_filename_from zero (c ∷ s) = (c == b'.') && every is_alnum s && not (is_empty s)
is_filename_from (suc n) (c ∷ s) = is_hex c && is_filename_from n s

unfoldable pub is_filename : Text → Bool
is_filename name = is_filename_from 64 name

-- `resolve`: the name of the file below the directory
unfoldable pub resolve : Text → Option Text
resolve filename = if is_filename filename then some filename else none

abbrev pub images_prefix : Text
images_prefix = codes "/images/"

abbrev pub served : Text → Text
served filename = images_prefix ++ filename

unfoldable pub filename_from_url : Text → Option Text
filename_from_url url = removed_prefix images_prefix url

abbrev pub is_file : Text → Files → Bool
is_file name files = is_some (lookup name files)

abbrev is_stored : Files → Option Text → Bool
is_stored files none = false
is_stored files (some filename) = is_some (resolve filename) && is_file filename files

unfoldable pub is_local : Files → Text → Bool
is_local files url = is_stored files (filename_from_url url)

abbrev pub hosted_key : HostedImage → Text
hosted_key row = row.url

module _ (w : World) (utcnow : Instant) where
  abbrev suffix_ext : Text → Text
  suffix_ext url =
      let suffix = lower (w.suffix (before b'?' url)) in
      if is_suffix suffix then suffix else codes ".img"

  abbrev type_ext : Text → Option Text
  type_ext content_type = lookup (lower (w.strip (before b';' content_type))) content_type_exts

  unfoldable pub ext : Option Text → Text → Text
  ext none url = suffix_ext url
  ext (some []) url = suffix_ext url
  ext (some (c ∷ t)) url = or_else (type_ext (c ∷ t)) (suffix_ext url)

  abbrev pub name_of : Text → Download → Text
  name_of url d = w.sha256 d.content ++ ext d.content_type url

  -- A file that is there is not written again.
  unfoldable pub put_file : Text → Text → Files → Files
  put_file name content files = if is_file name files then files else (name, content) ∷ files

  -- The filename, or nothing where the download raises.
  abbrev pub stored : Text → Option Download → Files → Files × Option Text
  stored url none files = (files, none)
  stored url (some d) files = (put_file (name_of url d) d.content files, some (name_of url d))

  -- `store`, less the prefix of the URL that it returns
  unfoldable pub store : Text → Files → Files × Option Text
  store url files = stored url (w.download url) files

  abbrev pub used : Text → HostedImage → HostedImage
  used filename row = record row { filename = filename; last_used_at = utcnow }

  abbrev new_row : Text → Text → HostedImage
  new_row url filename = record { url = url; filename = filename; last_used_at = utcnow }

  -- The rest of `_host_or_store`, behind the download: the memo's row may be there or not.
  unfoldable pub note_stored :
      Text → Option HostedImage → Files × Option Text → Store → Store × (Option Text × Bool)
  note_stored url row (files, none) s = (record s { files = files }, (none, false))
  note_stored url none (files, some filename) s =
      (record { memo = s.memo ++ new_row url filename ∷ []; files = files }, (some filename, true))
  note_stored url (some row) (files, some filename) s = (
    record { memo = modify_row hosted_key url (used filename) s.memo; files = files },
    (some filename, false),
  )

  unfoldable pub host_found : Text → Option HostedImage → Store → Store × (Option Text × Bool)
  host_found url none s = note_stored url none (store url s.files) s
  host_found url (some row) s =
      if is_file row.filename s.files
      then (
        record s { memo = modify_row hosted_key url (used row.filename) s.memo },
        (some row.filename, false),
      )
      else note_stored url (some row) (store url s.files) s

  -- `_host_or_store`: the filename in the place of its URL, and whether the memo grew
  unfoldable pub host_or_store : Text → Store → Store × (Option Text × Bool)
  host_or_store url s = host_found url (get_row hosted_key url s.memo) s

  abbrev pub rewritten : ImageRef → Option Text → ImageRef
  rewritten img none = img
  rewritten img (some filename) = record img { url = served filename; source_url = some img.url }

  unfoldable pub host_image : ImageRef → Store → Store × (ImageRef × Bool)
  host_image img s =
      let (after, (local, grew)) = host_or_store img.url s in
      if starts_with images_prefix img.url
      then (s, (img, false))
      else (after, (rewritten img local, grew))

  unfoldable pub host_gallery : List ImageRef → Store → Store × (List ImageRef × Bool)
  host_gallery [] s = (s, ([], false))
  host_gallery (img ∷ images) s =
      let (s₁, (img', grew₁)) = host_image img s in
      let (s₂, (images', grew₂)) = host_gallery images s₁ in (s₂, (img' ∷ images', grew₁ || grew₂))

  unfoldable pub host_events : List ScrapedEvent → Store → Store × (List ScrapedEvent × Bool)
  host_events [] s = (s, ([], false))
  host_events (e ∷ events) s =
      let (s₁, (images, grew₁)) = host_gallery e.images s in
      let (s₂, (events', grew₂)) = host_events events s₁ in
      (s₂, (record e { images = images } ∷ events', grew₁ || grew₂))

  abbrev pub index_max : ℕ
  index_max = 1000

  abbrev pub older_use : HostedImage → HostedImage → Bool
  older_use a b = leb_ℤ a.last_used_at b.last_used_at

  -- The keys of the rows that are used the longest time ago.
  unfoldable pub least_used : ℕ → List HostedImage → List Text
  least_used n memo = map hosted_key (take n (sort_by older_use memo))

  unfoldable pub evict_lru : List HostedImage → List HostedImage
  evict_lru memo =
      keep
        (λ (row : HostedImage). not (contains row.url (least_used (length memo - index_max) memo)))
        memo

  unfoldable pub host_images : List ScrapedEvent → Store → Store × List ScrapedEvent
  host_images events s =
      let (after, (events', grew)) = host_events events s in
      ((if grew then record after { memo = evict_lru after.memo } else after), events')

  -- `rehost_missing_images` on one image
  unfoldable pub rehost_image : ImageRef → Files → Files × ImageRef
  rehost_image img files =
      let (files', name) = store (or_else img.source_url []) files in
      if is_none (filename_from_url img.url)
        || not (truthy img.source_url)
        || is_local files img.url
      then (files, img)
      else (files', record img { url = or_else (Option.map served name) img.url })

  unfoldable pub rehost_missing_images : List ImageRef → Files → Files × List ImageRef
  rehost_missing_images [] files = (files, [])
  rehost_missing_images (img ∷ images) files =
      let (files₁, img') = rehost_image img files in
      let (files₂, images') = rehost_missing_images images files₁ in (files₂, img' ∷ images')

module _ (p : Platform) where
  abbrev with_name : Option Text → List Text → List Text
  with_name none names = names
  with_name (some []) names = names
  with_name (some (c ∷ name)) names = (c ∷ name) ∷ names

  unfoldable pub gallery_names : List ImageRef → List Text
  gallery_names [] = []
  gallery_names (img ∷ images) = with_name (filename_from_url img.url) (gallery_names images)

  unfoldable pub names_of : List Event → List Text
  names_of [] = []
  names_of (e ∷ events) =
      let rest = names_of events in
      if is_some e.archived_at then rest else gallery_names (load_images p e.images) ++ rest

  -- As a list, which may repeat a name.
  unfoldable pub referenced_filenames : Db → List Text
  referenced_filenames db = names_of db.events

  unfoldable pub is_orphan : Db → Text → Bool
  is_orphan db name = is_filename name && not (contains name (referenced_filenames db))

  -- Every orphan can be unlinked; the report is the names of the orphans.
  unfoldable pub prune : Bool → Db → Files → Files × List Text
  prune dry_run db files = (
    (if dry_run then files else keep (λ (f : Text × Text). not (is_orphan db f.0)) files),
    keep (is_orphan db) (map (λ (f : Text × Text). f.0) files),
  )
