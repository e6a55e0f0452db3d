-- ===== src/Platform/Laws.antt =====
-- What the theorems ask of the platform: JSON reads back what it wrote, and writes no empty text.
use ripcale_backend.Prelude.{◌≡◌, ◌≢◌, List, [], some}
use ripcale_backend.Schema.{Instant, ImageRef}
use ripcale_backend.Platform.{Platform}

pub record CodecLaws (p : Platform) : Type 0 where
  pub images_back : (l : List ImageRef) → p.loads_images (p.dumps_images l) ≡ some l
  pub images_text : (l : List ImageRef) → p.dumps_images l ≢ []
  pub exdates_back : (l : List Instant) → p.loads_exdates (p.dumps_exdates l) ≡ some l
  pub exdates_text : (l : List Instant) → p.dumps_exdates l ≢ []
