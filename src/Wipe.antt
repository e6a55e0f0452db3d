-- ===== src/Wipe.antt =====
-- services/wipe.py with `wipe_db` of db.py, and the challenge of actions.py that guards it.
pub mod Challenge
use ripcale_backend.Prelude.{
  ℕ, ◌*◌, Bool, List, [], Option, none, some, Text, codes, nat_eq, list_eq, if◌then◌else◌, is_empty,
  length, lookup, insert, remove, or_else,
}
use ripcale_backend.Prelude.Int.{ℤ, pos, ◌+ℤ◌, ltb_ℤ}
use ripcale_backend.Result.{Result, ok, err, action_error}
use ripcale_backend.Schema.{Instant}
use ripcale_backend.Models.{Db}
use ripcale_backend.Status.{Statuses, reset_status}

-- One transaction. Users, API tokens and conflicts are kept.
unfoldable pub wipe_db : Db → Db × (ℕ × ℕ)
wipe_db db = (
  record db { sources = []; events = []; posts = []; approvals = []; login_sessions = [] },
  (length db.events, length db.sources),
)

-- The database, the two files beside it, and `_pending_wipes`: a challenge with its deadline.
pub record Instance : Type 0 where
  pub db : Db
  pub statuses : Statuses
  pub last_ingest : Option Text
  pub pending : List (Text × Instant)

unfoldable pub wipe_all : Instance → Instance × (ℕ × ℕ)
wipe_all s =
    let (db, counts) = wipe_db s.db in
    (record s { db = db; statuses = reset_status s.statuses; last_ingest = none }, counts)

-- `_WIPE_TTL`: 60 seconds, in microseconds
abbrev pub wipe_ttl : ℤ
wipe_ttl = pos (60 * 1000000)

-- `challenge` is what `secrets.token_urlsafe` draws.
unfoldable pub wipe_begin : Text → Instant → Instance → Instance
wipe_begin challenge now s = record s { pending = insert challenge (now +ℤ wipe_ttl) s.pending }

abbrev pub dropped : Text → Instance → Instance
dropped challenge s = record s { pending = remove challenge s.pending }

abbrev rejected : Text → Instance → Instance × Result (ℕ × ℕ)
rejected challenge s =
    (dropped challenge s, err (action_error (codes "invalid or expired challenge") 400))

abbrev confirmed : Text → Instance × (ℕ × ℕ) → Instance × Result (ℕ × ℕ)
confirmed challenge (s, counts) = (dropped challenge s, ok counts)

abbrev pub against : Text → Instant → Option Instant → Instance → Instance × Result (ℕ × ℕ)
against challenge now none s = rejected challenge s
against challenge now (some deadline) s =
    if ltb_ℤ deadline now then rejected challenge s else confirmed challenge (wipe_all s)

-- `strip` is `str.strip`.
unfoldable pub wipe_confirm :
    (Text → Text) → Option Text → Instant → Instance → Instance × Result (ℕ × ℕ)
wipe_confirm strip given now s =
    let challenge = strip (or_else given []) in
    if is_empty challenge
    then (s, err (action_error (codes "challenge is required") 400))
    else against challenge now (lookup challenge s.pending) s
