-- ===== src/Decisionmaker/Settled.antt =====
-- When a stored row needs no write for an incoming event, and how `apply` gets there.
use ripcale_backend.Prelude.{
  ℕ, ◌≡◌, refl, Bool, true, false, ◌||◌, List, [], ◌∷◌, Option, none, some, Text, ◌==◌, ==_iff,
  nat_eq, list_eq, if◌then◌else◌, contains, arith, is_some, All, Bool-cases, inl, inr,
}
use ripcale_backend.Result.{ok, >>=-eq-ok}
use ripcale_backend.Schema.{Instant, ClassifiedEvent, SieveResult}
use ripcale_backend.Platform.{Platform}
use ripcale_backend.Models.{Event, EventConflict, event_key, event_row}
use ripcale_backend.Table.{add_row, get_row-key, get_row-add_row, get_row-modify_row}
use ripcale_backend.Sieve.Verdict.{ids_of}
use ripcale_backend.Decisionmaker.{
  seen_at, new_event, apply_update, insert_all, update_one, update_all, stamp_all, conflict_all,
  write_rows,
}
use ripcale_backend.Decisionmaker.Rows.{insert_all-keeps, event_row-stamp_all, conflict_all-keeps}

-- The stored row is archived, pinned, or has the hash.
abbrev pub settled : Text → Option Event → Bool
settled hash none = false
settled hash (some r) = is_some r.archived_at || r.pinned || (r.content_hash == hash)

-- All that a list says of the event with the id has the hash.
abbrev pub Agrees : Text → Text → List ClassifiedEvent → Type 0
Agrees j hash cs = All (λ c. c.id ≡ j → c.content_hash ≡ hash) cs

settled_row :
    (hash : Text) (o : Option Event)
    → settled hash o ≡ true
    → (r : Event) × (o ≡ some r) × (settled hash (some r) ≡ true)
settled_row hash none h = cc
settled_row hash (some r) h = (r, refl, h)

module _ (p : Platform) (run_ts utcnow : Instant) (source_id : ℕ) (j hash : Text) where
  insert_all-keeps_settled :
      (cs : List ClassifiedEvent) (rows rows' : List Event)
      → insert_all p run_ts utcnow source_id cs rows ≡ ok rows'
      → settled hash (event_row j rows) ≡ true
      → settled hash (event_row j rows') ≡ true
  insert_all-keeps_settled cs rows rows' h k =
      let (r, found, holds) = settled_row hash (event_row j rows) k in
      rw (insert_all-keeps p run_ts utcnow source_id j r cs rows rows' h found) holds

  insert_all-settles :
      (cs : List ClassifiedEvent) (rows rows' : List Event)
      → insert_all p run_ts utcnow source_id cs rows ≡ ok rows'
      → Agrees j hash cs
      → contains j (ids_of cs) ≡ true
      → settled hash (event_row j rows') ≡ true
  unfolding insert_all contains
  insert_all-settles [] rows rows' h a k = ground arith
  insert_all-settles (c ∷ cs) rows rows' h a k =
      let new = new_event p run_ts utcnow source_id c in
      let (next, added, later) = >>=-eq-ok (add_row event_key new rows) _ h in
      elim (Bool-cases (c.id == j)) [
        | inl here ↦ insert_all-keeps_settled cs next rows' later (
            rw (get_row-add_row event_key j new rows next added)
              (unfold new_event in ground (arith, ==_iff c.id j, ==_iff c.content_hash hash, a.0)))
        | inr there ↦ insert_all-settles cs next rows' later a.1 (ground arith)
      ]

  update_one-keeps_settled :
      (c : ClassifiedEvent) (o : Option Event) (rows next : List Event) (i u : ℕ)
      → update_one p run_ts utcnow source_id c o rows ≡ ok (next, i, u)
      → (c.id ≡ j → c.content_hash ≡ hash)
      → settled hash (event_row j rows) ≡ true
      → settled hash (event_row j next) ≡ true
  unfolding update_one new_event apply_update
  update_one-keeps_settled c none rows next i u h a k =
      let new = new_event p run_ts utcnow source_id c in
      let (added, fits, same) = >>=-eq-ok (add_row event_key new rows) _ h in
      ground (
        arith,
        get_row-add_row event_key j new rows added fits,
        ==_iff c.id j,
        ==_iff c.content_hash hash,
      )
  update_one-keeps_settled c (some old) rows next i u h a k =
      let (r, found, holds) = settled_row hash (event_row j rows) k in
      ground (
        arith,
        get_row-modify_row event_key c.id j (apply_update p run_ts utcnow c) rows (λ x. refl),
        ==_iff c.id j,
        ==_iff c.content_hash hash,
      )

  -- The round of the event itself: afterwards its row has the hash, or is frozen.
  update_one-settles :
      (c : ClassifiedEvent) (o : Option Event) (rows next : List Event) (i u : ℕ)
      → update_one p run_ts utcnow source_id c o rows ≡ ok (next, i, u)
      → o ≡ event_row c.id rows
      → c.id ≡ j
      → c.content_hash ≡ hash
      → settled hash (event_row j next) ≡ true
  unfolding update_one new_event apply_update
  update_one-settles c none rows next i u h found same a =
      let new = new_event p run_ts utcnow source_id c in
      let (added, fits, e) = >>=-eq-ok (add_row event_key new rows) _ h in
      ground (
        arith,
        get_row-add_row event_key j new rows added fits,
        ==_iff c.id j,
        ==_iff c.content_hash hash,
      )
  update_one-settles c (some old) rows next i u h found same a = ground (
    arith,
    get_row-modify_row event_key c.id j (apply_update p run_ts utcnow c) rows (λ x. refl),
    ==_iff c.id j,
    ==_iff c.content_hash hash,
  )

  update_all-keeps_settled :
      (cs : List ClassifiedEvent) (rows rows' : List Event) (i u : ℕ)
      → update_all p run_ts utcnow source_id cs rows ≡ ok (rows', i, u)
      → Agrees j hash cs
      → settled hash (event_row j rows) ≡ true
      → settled hash (event_row j rows') ≡ true
  unfolding update_all
  update_all-keeps_settled [] rows rows' i u h a k = ground arith
  update_all-keeps_settled (c ∷ cs) rows rows' i u h a k =
      let ((next, i₁, u₁), first, rest) =
        >>=-eq-ok (update_one p run_ts utcnow source_id c (event_row c.id rows) rows) _ h in
      let ((last, i₂, u₂), later, same) =
        >>=-eq-ok (update_all p run_ts utcnow source_id cs next) _ rest in
      let kept = update_one-keeps_settled c (event_row c.id rows) rows next i₁ u₁ first a.0 k in
      ground (arith, update_all-keeps_settled cs next last i₂ u₂ later a.1 kept)

  update_all-settles :
      (cs : List ClassifiedEvent) (rows rows' : List Event) (i u : ℕ)
      → update_all p run_ts utcnow source_id cs rows ≡ ok (rows', i, u)
      → Agrees j hash cs
      → contains j (ids_of cs) ≡ true
      → settled hash (event_row j rows') ≡ true
  unfolding update_all contains
  update_all-settles [] rows rows' i u h a k = ground arith
  update_all-settles (c ∷ cs) rows rows' i u h a k =
      let ((next, i₁, u₁), first, rest) =
        >>=-eq-ok (update_one p run_ts utcnow source_id c (event_row c.id rows) rows) _ h in
      let ((last, i₂, u₂), later, same) =
        >>=-eq-ok (update_all p run_ts utcnow source_id cs next) _ rest in
      elim (Bool-cases (c.id == j)) [
        | inl here ↦
            let at = (==_iff c.id j).0 here in
            let kept =
              update_one-settles c (event_row c.id rows) rows next i₁ u₁ first refl at (a.0 at) in
            ground (arith, update_all-keeps_settled cs next last i₂ u₂ later a.1 kept)
        | inr there ↦ ground (arith, update_all-settles cs next last i₂ u₂ later a.1)
      ]

  stamps-keep_settled :
      (uuid : Text → Text) (ids : List Text) (cs : List ClassifiedEvent) (rows rows' : List Event)
      (conflicts conflicts' : List EventConflict)
      → conflict_all p run_ts utcnow uuid cs (stamp_all p run_ts utcnow ids rows) conflicts
        ≡ ok (rows', conflicts')
      → settled hash (event_row j rows) ≡ true
      → settled hash (event_row j rows') ≡ true
  stamps-keep_settled uuid ids cs rows rows' conflicts conflicts' h k =
      let (r, found, holds) = settled_row hash (event_row j rows) k in
      let stamped =
        event_row-stamp_all p run_ts utcnow j r ids rows found
          (get_row-key event_key j rows r found) in
      ground (
        arith,
        conflict_all-keeps p run_ts utcnow uuid j (if contains j ids then seen_at run_ts r else r)
            cs (stamp_all p run_ts utcnow ids rows) rows' conflicts conflicts' h stamped,
      )

  -- After the writes the row is settled, if it was, or if the verdict inserts or updates it.
  pub write_rows-settles :
      (uuid : Text → Text) (v : SieveResult) (rows rows' : List Event)
      (conflicts conflicts' : List EventConflict) (i u : ℕ)
      → write_rows p run_ts utcnow uuid source_id v rows conflicts ≡ ok (rows', conflicts', i, u)
      → Agrees j hash v.new
      → Agrees j hash v.updated
      → (contains j (ids_of v.new)
          || contains j (ids_of v.updated)
          || settled hash (event_row j rows))
        ≡ true
      → settled hash (event_row j rows') ≡ true
  unfolding write_rows
  write_rows-settles uuid v rows rows' conflicts conflicts' i u h a b k =
      let (inserted, h₁, rest₁) = >>=-eq-ok (insert_all p run_ts utcnow source_id v.new rows) _ h in
      let ((changed, i₁, u₁), h₂, rest₂) =
        >>=-eq-ok (update_all p run_ts utcnow source_id v.updated inserted) _ rest₁ in
      let ((seen, conflicts₁), h₃, same) =
        >>=-eq-ok
          (conflict_all p run_ts utcnow uuid v.conflicts
            (stamp_all p run_ts utcnow v.unchanged_ids changed) conflicts)
          _ rest₂ in
      let after : settled hash (event_row j changed) ≡ true = ground (
        arith,
        insert_all-settles v.new rows inserted h₁ a,
        insert_all-keeps_settled v.new rows inserted h₁,
        update_all-settles v.updated inserted changed i₁ u₁ h₂ b,
        update_all-keeps_settled v.updated inserted changed i₁ u₁ h₂ b,
      ) in
      ground (
        arith,
        stamps-keep_settled uuid v.unchanged_ids v.conflicts changed seen conflicts conflicts₁ h₃
            after,
      )
