-- ===== src/Identity/Keys.antt =====
-- Which events share an id.
use mathlib.Core.List.{append_assoc, append-nil}
use ripcale_backend.Prelude.{◌≡◌, ap, sym, ◌∙◌, [], ◌∷◌, ◌++◌, none, some, Text, arith, ℕ}
use ripcale_backend.Schema.{ScrapedEvent}
use ripcale_backend.Platform.{Platform}
use ripcale_backend.Identity.{base_key, identity_key, recurrence_suffix, stable_id}

append_cancel : (s : Text) {t u : Text} → s ++ t ≡ s ++ u → t ≡ u
append_cancel [] h = h
append_cancel (c ∷ s) h = append_cancel s (cc h)

module _ (p : Platform) where
  key_of_uid :
      (name : Text) (e : ScrapedEvent) (c : ℕ) (u : Text)
      → e.uid ≡ some (c ∷ u)
      → e.recurrence_id ≡ none
      → identity_key p name e ≡ name ++ (b':' ∷ c ∷ u)
  unfolding identity_key
  key_of_uid name e c u h k = rw (h, k, base_key) (append-nil (name ++ (b':' ∷ c ∷ u)))

  -- Within one source, events with different uids that are not empty have different ids, if the hash
  -- has no collision. Occurrences with a recurrence id are left out.
  pub stable_id_injective :
      (name : Text) (a b : ScrapedEvent) (c d : ℕ) (u v : Text)
      → ((s t : Text) → p.sha256 s ≡ p.sha256 t → s ≡ t)
      → a.uid ≡ some (c ∷ u)
      → b.uid ≡ some (d ∷ v)
      → a.recurrence_id ≡ none
      → b.recurrence_id ≡ none
      → stable_id p name a ≡ stable_id p name b
      → a.uid ≡ b.uid
  unfolding stable_id
  stable_id_injective name a b c d u v injective ha hb ra rb h =
      let keys = injective (identity_key p name a) (identity_key p name b) h in
      let same =
        append_cancel name
          (sym (key_of_uid name a c u ha ra) ∙ keys ∙ key_of_uid name b d v hb rb) in
      ground arith

  -- Whatever the hash, an event of a source whose name holds a colon, and an event of the
  -- source named by the part before that colon, have one id, if the second's uid is the part
  -- behind it, a colon and the first's uid, neither is empty, and their recurrence ids agree.
  pub stable_id_collides :
      (name part : Text) (a b : ScrapedEvent) (c d : ℕ) (u : Text)
      → a.uid ≡ some (c ∷ u)
      → b.uid ≡ some (d ∷ (part ++ (b':' ∷ c ∷ u)))
      → a.recurrence_id ≡ b.recurrence_id
      → stable_id p (name ++ (b':' ∷ d ∷ part)) a ≡ stable_id p name b
  unfolding stable_id identity_key
  stable_id_collides name part a b c d u ha hb r =
      rw (ha, hb, base_key)
        (rw r (
          ap p.sha256 (
            ap (λ k. k ++ recurrence_suffix p b.recurrence_id)
              (append_assoc name (b':' ∷ d ∷ part) (b':' ∷ c ∷ u)))))

  -- Of an event with a uid that is not empty, the id depends on the uid and the recurrence id alone.
  pub stable_id_of_uid :
      (name : Text) (a b : ScrapedEvent) (c : ℕ) (u : Text)
      → a.uid ≡ some (c ∷ u)
      → b.uid ≡ some (c ∷ u)
      → a.recurrence_id ≡ b.recurrence_id
      → stable_id p name a ≡ stable_id p name b
  unfolding stable_id identity_key
  stable_id_of_uid name a b c u ha hb r =
      ap p.sha256
        (rw (ha, hb, base_key) (ap (λ o. (name ++ (b':' ∷ c ∷ u)) ++ recurrence_suffix p o) r))
