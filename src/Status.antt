-- ===== src/Status.antt =====
-- services/status.py: the outcome of each source's last run. The store is the file's dict, in
-- order; the wall clock's text is not kept.
pub mod Rollup
use ripcale_backend.Prelude.{
  ℕ, Bool, true, false, List, [], ◌∷◌, Option, none, some, Text, codes, ◌==◌, nat_eq, list_eq,
  if◌then◌else◌, lookup, insert, is_some,
}
use ripcale_backend.Prelude.Int.{ℤ, pos, negsuc, ltb_ℤ}

pub record Entry : Type 0 where
  pub status : Text
  pub events : ℕ
  pub message : Option Text

abbrev pub Statuses : Type 0
Statuses = List (Text × Entry)

pub record_status : Text → Text → Option Text → ℕ → Statuses → Statuses
record_status name status message events statuses =
    insert name (record { status = status; events = events; message = message }) statuses

pub record_run : Text → ℕ → Statuses → Statuses
unfolding record_status
record_run name total_events statuses =
    if total_events == 0
    then record_status name (codes "warning") (some (codes "returned 0 events")) 0 statuses
    else record_status name (codes "ok") none total_events statuses

-- The store is written anew, whatever it held.
abbrev pub reset_status : Statuses → Statuses
reset_status statuses = []

abbrev status_or_never : Option Entry → Text
status_or_never none = codes "never"
status_or_never (some e) = e.status

pub source_status : Statuses → Text → Text
source_status statuses name = status_or_never (lookup name statuses)

pub severity : Text → ℤ
severity status =
    if status == codes "error"
    then pos 2
    else if status == codes "warning"
    then pos 1
    else if status == codes "ok"
    then pos 0
    else negsuc 0

-- `rollup.setdefault(gatherer, "never")`
abbrev pub or_never : Option Text → Text
or_never none = codes "never"
or_never (some status) = status

-- One round: the status of the gatherer behind it.
pub worse : Text → Text → Text
unfolding severity
worse old status = if ltb_ℤ (severity old) (severity status) then status else old

rollup_from : Statuses → List (Text × Text) → List (Text × Text) → List (Text × Text)
unfolding worse source_status
rollup_from statuses [] rollup = rollup
rollup_from statuses ((name, gatherer) ∷ sources) rollup = rollup_from statuses sources (
    insert gatherer (worse (or_never (lookup gatherer rollup)) (source_status statuses name))
      rollup)

-- The sources are pairs of their name and their gatherer.
pub gatherer_rollup : Statuses → List (Text × Text) → List (Text × Text)
unfolding rollup_from
gatherer_rollup statuses sources = rollup_from statuses sources []
