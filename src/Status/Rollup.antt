-- ===== src/Status/Rollup.antt =====
-- The status of a gatherer is the worst of its sources'.
use ripcale_backend.Prelude.{
  ◌≡◌, Bool, true, List, [], ◌∷◌, Text, codes, ◌==◌, ==_iff, nat_eq, list_eq, if◌then◌else◌, lookup,
  insert, lookup-insert, ◌&&◌, ◌||◌, any, ==_refl, All, arith,
}
use ripcale_backend.Prelude.Int.{◌≤ℤ◌}
use ripcale_backend.Status.{
  Statuses, source_status, severity, or_never, worse, rollup_from, gatherer_rollup,
}

worse_upper :
    (old status : Text)
    → (severity old ≤ℤ severity (worse old status))
      × (severity status ≤ℤ severity (worse old status))
unfolding worse
worse_upper old status = ground arith

worse_one : (old status : Text) → ((worse old status == old) || (worse old status == status)) ≡ true
unfolding worse
worse_one old status = ground (arith, ==_refl old, ==_refl status)

module _ (statuses : Statuses) where
  abbrev of_gatherer : Text → List (Text × Text) → Text
  of_gatherer g rollup = or_never (lookup g rollup)

  abbrev next_rollup : Text → Text → List (Text × Text) → List (Text × Text)
  next_rollup name gatherer rollup =
      insert gatherer (worse (of_gatherer gatherer rollup) (source_status statuses name)) rollup

  round_at :
      (name gatherer g : Text) (rollup : List (Text × Text))
      → of_gatherer g (next_rollup name gatherer rollup) ≡ (
          if gatherer == g
          then worse (of_gatherer g rollup) (source_status statuses name)
          else of_gatherer g rollup)
  round_at name gatherer g rollup = ground (
    arith,
    lookup-insert gatherer g (worse (of_gatherer gatherer rollup) (source_status statuses name))
        rollup,
    ==_iff gatherer g,
  )

  round_grows :
      (name gatherer g : Text) (rollup : List (Text × Text))
      → severity (of_gatherer g rollup)
        ≤ℤ severity (of_gatherer g (next_rollup name gatherer rollup))
  round_grows name gatherer g rollup =
      rw (round_at name gatherer g rollup)
        (ground (arith, worse_upper (of_gatherer g rollup) (source_status statuses name)))

  round_reaches :
      (name gatherer : Text) (rollup : List (Text × Text))
      → severity (source_status statuses name)
        ≤ℤ severity (of_gatherer gatherer (next_rollup name gatherer rollup))
  round_reaches name gatherer rollup =
      rw (round_at name gatherer gatherer rollup, ==_refl gatherer)
        (worse_upper (of_gatherer gatherer rollup) (source_status statuses name)).1

  grows :
      (sources : List (Text × Text)) (rollup : List (Text × Text)) (g : Text)
      → severity (of_gatherer g rollup)
        ≤ℤ severity (of_gatherer g (rollup_from statuses sources rollup))
  unfolding rollup_from
  grows [] rollup g = omega arith
  grows ((name, gatherer) ∷ sources) rollup g = omega (
    arith,
    round_grows name gatherer g rollup,
    grows sources (next_rollup name gatherer rollup) g,
  )

  reaches :
      (sources : List (Text × Text)) (rollup : List (Text × Text))
      → All
          (λ (s : Text × Text).
            severity (source_status statuses s.0)
            ≤ℤ severity (of_gatherer s.1 (rollup_from statuses sources rollup)))
          sources
  unfolding rollup_from
  reaches [] rollup = tt
  reaches ((name, gatherer) ∷ sources) rollup = (
    omega (
      arith,
      round_reaches name gatherer rollup,
      grows sources (next_rollup name gatherer rollup) gatherer,
    ),
    reaches sources (next_rollup name gatherer rollup),
  )

  abbrev from_source : Text → List (Text × Text) → Text → Bool
  from_source g sources status =
      any (λ (s : Text × Text). (s.1 == g) && (source_status statuses s.0 == status)) sources

  attained :
      (sources : List (Text × Text)) (rollup : List (Text × Text)) (g : Text)
      → ((of_gatherer g (rollup_from statuses sources rollup) == of_gatherer g rollup)
          || from_source g sources (of_gatherer g (rollup_from statuses sources rollup)))
        ≡ true
  unfolding rollup_from any
  attained [] rollup g = ground (arith, ==_refl (of_gatherer g rollup))
  attained ((name, gatherer) ∷ sources) rollup g =
      let later = of_gatherer g (rollup_from statuses sources (next_rollup name gatherer rollup)) in
      ground (
        arith,
        attained sources (next_rollup name gatherer rollup) g,
        round_at name gatherer g rollup,
        worse_one (of_gatherer g rollup) (source_status statuses name),
        ==_iff later (of_gatherer g (next_rollup name gatherer rollup)),
        ==_iff later (of_gatherer g rollup),
        ==_iff (source_status statuses name) later,
      )

-- The status of a gatherer in the rollup is at least as severe as that of each of its sources, and
-- it is the status of one of them, or `never`.
pub rollup_is_worst :
    (statuses : Statuses) (sources : List (Text × Text))
    → let rollup = gatherer_rollup statuses sources in
      All
        (λ (s : Text × Text).
          severity (source_status statuses s.0) ≤ℤ severity (or_never (lookup s.1 rollup)))
        sources
      × ((g : Text)
          → ((or_never (lookup g rollup) == codes "never")
              || any
                  (λ (s : Text × Text).
                    (s.1 == g) && (source_status statuses s.0 == or_never (lookup g rollup)))
                  sources)
            ≡ true)
unfolding gatherer_rollup
rollup_is_worst statuses sources =
    (reaches statuses sources [], λ g. unfold lookup in attained statuses sources [] g)
