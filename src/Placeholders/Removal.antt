-- ===== src/Placeholders/Removal.antt =====
-- A declaration that was taken out of the configuration takes its series with it.
use ripcale_backend.Prelude.{
  ℕ, ◌≡◌, refl, ap, sym, ◌∙◌, Bool, true, false, ◌&&◌, not, List, [], ◌∷◌, map, Option, Text, ◌==◌,
  ==_iff, ==_refl, nat_eq, list_eq, option_eq, if◌then◌else◌, keep, contains, All, arith,
}
use ripcale_backend.Schema.{Instant, SourceConfig}
use ripcale_backend.Platform.{Platform}
use ripcale_backend.Models.{Event, event_key, Db}
use ripcale_backend.Table.{modify_row}
use ripcale_backend.Placeholders.{
  Dates, series_uid, declare_all, no_report, is_master, removed, is_kept, remove_override,
  remove_master, remove_all, materialize,
}

abbrev ids_of : List Event → List Text
ids_of es = map (λ (e : Event). e.id) es

-- The rows that a test keeps are in the list of the rows that it keeps.
All-kept_ids :
    (test : Event → Bool) (ids : List Text) (es : List Event)
    → ((k : Text) → contains k (ids_of (keep test es)) ≡ true → contains k ids ≡ true)
    → All (λ e. test e ≡ true → contains e.id ids ≡ true) es
unfolding keep contains
All-kept_ids test ids [] h = tt
All-kept_ids test ids (e ∷ es) h = (
  (λ t. h e.id (ground (arith, ==_refl e.id))),
  All-kept_ids test ids es (λ k q. h k (ground arith)),
)

keep-keep : (f g : Event → Bool) (es : List Event) → keep f (keep g es) ≡ keep (λ e. g e && f e) es
unfolding keep
keep-keep f g [] = refl
keep-keep f g (e ∷ es) = ground (arith, keep-keep f g es)

All-map {ℓ} :
    (P Q : Event → Type ℓ) (f : Event → Event) (es : List Event)
    → ((e : Event) → P e → Q (f e))
    → All P es
    → All Q (map f es)
All-map P Q f [] h k = tt
All-map P Q f (e ∷ es) h k = (h e k.0, All-map P Q f es h k.1)

module _ (p : Platform) (dates : Dates) (now utcnow : Instant) (source_id : ℕ)
    (kept : List Text) where
  abbrev gone : Event → Event
  gone = removed p dates now utcnow source_id

  abbrev master : Event → Bool
  master = is_master p dates now utcnow source_id

  abbrev stays : Event → Bool
  stays e = is_kept p dates now utcnow source_id kept e.uid

  abbrev override : Option Text → Event → Event
  override = remove_override p dates now utcnow source_id

  -- What one round does to one row.
  round_row : Event → Event → Event
  round_row m e = if stays m then e else override m.uid (if e.id == m.id then gone e else e)

  rounds_row : List Event → Event → Event
  unfolding round_row
  rounds_row [] e = e
  rounds_row (m ∷ ms) e = rounds_row ms (round_row m e)

  map-modify_row :
      (m : Event) (rows : List Event)
      → map (override m.uid) (modify_row event_key m.id gone rows)
        ≡ map (λ e. override m.uid (if e.id == m.id then gone e else e)) rows
  unfolding modify_row
  map-modify_row m [] = refl
  map-modify_row m (e ∷ rows) =
      ap (◌∷◌ (override m.uid (if e.id == m.id then gone e else e))) (map-modify_row m rows)

  map-same : (rows : List Event) → map (λ e. e) rows ≡ rows
  map-same [] = refl
  map-same (e ∷ rows) = ap (◌∷◌ e) (map-same rows)

  map-map : (f g : Event → Event) (rows : List Event) → map g (map f rows) ≡ map (λ e. g (f e)) rows
  map-map f g [] = refl
  map-map f g (e ∷ rows) = ap (◌∷◌ (g (f e))) (map-map f g rows)

  remove_master-rows :
      (m : Event) (rows : List Event) (n : ℕ)
      → (remove_master p dates now utcnow source_id kept m (rows, n)).0 ≡ map (round_row m) rows
  unfolding remove_master round_row
  remove_master-rows m rows n = ground (arith, map-modify_row m rows, map-same rows)

  remove_all-rows :
      (ms : List Event) (rows : List Event) (n : ℕ)
      → (remove_all p dates now utcnow source_id kept ms (rows, n)).0 ≡ map (rounds_row ms) rows
  unfolding remove_all rounds_row
  remove_all-rows [] rows n = sym (map-same rows)
  remove_all-rows (m ∷ ms) rows n =
      let one = remove_master p dates now utcnow source_id kept m (rows, n) in
      remove_all-rows ms one.0 one.1
      ∙ (ap (map (rounds_row ms)) (remove_master-rows m rows n)
          ∙ map-map (round_row m) (rounds_row ms) rows)

  -- No round makes a row a live placeholder, and none changes its uid or its id.
  round_row-facts :
      (m e : Event)
      → ((round_row m e).id ≡ e.id)
        × ((round_row m e).uid ≡ e.uid)
        × (master (round_row m e) ≡ true → master e ≡ true)
        × (not (stays m) && (e.id == m.id) ≡ true → master (round_row m e) ≡ false)
  unfolding round_row is_master
  round_row-facts m e = ground arith

  rounds_row-uid : (ms : List Event) (e : Event) → (rounds_row ms e).uid ≡ e.uid
  unfolding rounds_row
  rounds_row-uid [] e = refl
  rounds_row-uid (m ∷ ms) e = rounds_row-uid ms (round_row m e) ∙ (round_row-facts m e).1

  rounds_row-master :
      (ms : List Event) (e : Event) → master (rounds_row ms e) ≡ true → master e ≡ true
  unfolding rounds_row
  rounds_row-master [] e h = h
  rounds_row-master (m ∷ ms) e h = (round_row-facts m e).2 (rounds_row-master ms (round_row m e) h)

  unkept : Event → Bool
  unkept e = not (stays e)

  rounds_row-removed :
      (ms : List Event) (e : Event)
      → contains e.id (ids_of (keep unkept ms)) ≡ true
      → master (rounds_row ms e) ≡ false
  unfolding rounds_row keep contains unkept
  rounds_row-removed [] e h = ground arith
  rounds_row-removed (m ∷ ms) e h = ground (
    arith,
    round_row-facts m e,
    rounds_row-master ms (round_row m e),
    rounds_row-removed ms (round_row m e),
    ==_iff e.id m.id,
    ==_iff m.id e.id,
  )

  still_declared :
      (ms : List Event) (e : Event)
      → ((master e && unkept e) ≡ true → contains e.id (ids_of (keep unkept ms)) ≡ true)
      → master (rounds_row ms e) ≡ true
      → stays (rounds_row ms e) ≡ true
  still_declared ms e listed live =
      ap (is_kept p dates now utcnow source_id kept) (rounds_row-uid ms e)
      ∙ unfold unkept in
        ground (arith, rounds_row-master ms e, rounds_row-removed ms e, listed, live)

  -- Behind the loop over the live placeholders every one that is still live is declared.
  remove_all-declared :
      (rows : List Event) (n : ℕ)
      → All
          (λ e. master e ≡ true → stays e ≡ true)
          (remove_all p dates now utcnow source_id kept (keep master rows) (rows, n)).0
  remove_all-declared rows n = rw (remove_all-rows (keep master rows) rows n) (
      All-map
        (λ e.
          (master e && unkept e) ≡ true
          → contains e.id (ids_of (keep unkept (keep master rows))) ≡ true)
        (λ e. master e ≡ true → stays e ≡ true) (rounds_row (keep master rows)) rows
        (λ e listed live. still_declared (keep master rows) e listed live)
        (All-kept_ids (λ e. master e && unkept e) (ids_of (keep unkept (keep master rows))) rows
          (λ k q. rw (keep-keep unkept master rows) q)))

-- After the placeholders of a source are materialized, every row of the source that is a live
-- placeholder has the uid of a declared series.
pub live_placeholders_are_declared :
    (p : Platform) (dates : Dates) (now utcnow : Instant) (source_id : ℕ) (cfg : SourceConfig)
    (db : Db)
    → All
        (λ e.
          is_master p dates now utcnow source_id e ≡ true
          → is_kept p dates now utcnow source_id
              (map (series_uid p dates now utcnow source_id cfg.name) cfg.recurrences)
              e.uid
            ≡ true)
        (materialize p dates now utcnow source_id cfg db).0.events
unfolding materialize
live_placeholders_are_declared p dates now utcnow source_id cfg db =
    remove_all-declared p dates now utcnow source_id
      (map (series_uid p dates now utcnow source_id cfg.name) cfg.recurrences)
      (declare_all p dates now utcnow source_id cfg.name cfg.recurrences
        (db.events, no_report p dates now utcnow source_id)).0
      0
