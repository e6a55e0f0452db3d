-- ===== src/Identity/Codec.antt =====
-- The text columns read back what was written, and the hash depends on the payload alone.
use ripcale_backend.Prelude.{◌≡◌, ◌≢◌, refl, ap, List, [], ◌∷◌, Text, is_empty, if◌then◌else◌}
use ripcale_backend.Schema.{Instant, ImageRef, ScrapedEvent}
use ripcale_backend.Platform.{Platform}
use ripcale_backend.Platform.Laws.{CodecLaws}
use ripcale_backend.Identity.{
  payload, content_hash, dump_images, load_images, dump_exdates, load_exdates,
}

not_empty {ℓ} : {A : Type ℓ} (s : Text) (x y : A) → s ≢ [] → (if is_empty s then x else y) ≡ y
not_empty [] x y h = absurd (h refl)
not_empty (c ∷ s) x y h = refl

module _ (p : Platform) where
  pub load_images-dump_images :
      (l : List ImageRef) → CodecLaws p → load_images p (dump_images p l) ≡ l
  unfolding load_images dump_images
  load_images-dump_images l laws =
      rw (not_empty (p.dumps_images l) _ _ (laws.images_text l), laws.images_back l)

  pub load_exdates-dump_exdates :
      (l : List Instant) → CodecLaws p → load_exdates p (dump_exdates p l) ≡ l
  unfolding load_exdates dump_exdates
  load_exdates-dump_exdates l laws =
      rw (not_empty (p.dumps_exdates l) _ _ (laws.exdates_text l), laws.exdates_back l)

  pub content_hash_of_payload :
      (a b : ScrapedEvent) → payload p a ≡ payload p b → content_hash p a ≡ content_hash p b
  unfolding content_hash
  content_hash_of_payload a b h = ap (λ x. p.sha256 (p.dumps_payload x)) h
