-- ===== src/Approvals.antt =====
-- services/approvals.py: proposals that a person approves or rejects. Each call is a transaction
-- of its own; where the applier raises, nothing is written.
pub mod Lifecycle
use ripcale_backend.Prelude.{
  Bool, true, false, List, [], ◌∷◌, ◌++◌, Option, none, some, Text, if◌then◌else◌,
}
use ripcale_backend.Result.{Result, ok, err, ◌>>=◌}
use ripcale_backend.Schema.{Instant}
use ripcale_backend.Models.{Approval, ApprovalStatus, Db}
use ripcale_backend.Table.{get_row, add_row, modify_row}

abbrev pub approval_key : Approval → Text
approval_key a = a.id

abbrev pub approval_row : Text → Db → Option Approval
approval_row id db = get_row approval_key id db.approvals

-- The registry of appliers, by kind.
abbrev pub Appliers : Type 0
Appliers = Text → Option (Approval → Db → Result Db)

-- `uuid` is what `uuid4().hex` draws; `payload` is the proposal's JSON.
abbrev pub proposal : Text → Instant → Text → Text → Text → Text → Approval
proposal uuid utcnow kind source_name payload reason = record {
  id = uuid;
  kind = kind;
  source_name = source_name;
  payload = payload;
  reason = reason;
  status = ApprovalStatus.pending;
  created_at = utcnow;
  updated_at = utcnow;
  resolved_at = none;
}

-- The row reaches the table when the session of the caller is flushed, which is where a second row
-- with one id is refused.
unfoldable pub create_in_session : Text → Instant → Text → Text → Text → Text → Db → Result Db
create_in_session uuid utcnow kind source_name payload reason db = do
  rows ← add_row approval_key (proposal uuid utcnow kind source_name payload reason) db.approvals
  ok (record db { approvals = rows })

pub create : Text → Instant → Text → Text → Text → Text → Db → Result (Db × Text)
unfolding create_in_session
create uuid utcnow kind source_name payload reason db = do
  after ← create_in_session uuid utcnow kind source_name payload reason db
  ok (after, uuid)

abbrev pub resolved : ApprovalStatus → Instant → Approval → Approval
resolved status utcnow a = record a {
  status = status;
  resolved_at = some utcnow;
  updated_at = utcnow;
}

abbrev pub set_approval : Approval → Db → Db
set_approval a db = record db { approvals = modify_row approval_key a.id (λ _. a) db.approvals }

abbrev run_applier : Option (Approval → Db → Result Db) → Approval → Db → Result Db
run_applier none a db = ok db
run_applier (some applier) a db = applier a db

approve_pending : Appliers → Instant → Approval → ApprovalStatus → Db → Result (Db × Bool)
approve_pending appliers utcnow a ApprovalStatus.pending db =
    let approved = resolved ApprovalStatus.approved utcnow a in
    run_applier (appliers a.kind) approved (set_approval approved db) >>= λ written.
    ok (written, true)
approve_pending appliers utcnow a _ db = ok (db, false)

approve_found : Appliers → Instant → Option Approval → Db → Result (Db × Bool)
unfolding approve_pending
approve_found appliers utcnow none db = ok (db, false)
approve_found appliers utcnow (some a) db = approve_pending appliers utcnow a a.status db

pub approve : Appliers → Instant → Text → Db → Result (Db × Bool)
unfolding approve_found
approve appliers utcnow id db = approve_found appliers utcnow (approval_row id db) db

reject_pending : Instant → Approval → ApprovalStatus → Db → Db × Bool
reject_pending utcnow a ApprovalStatus.pending db =
    (set_approval (resolved ApprovalStatus.rejected utcnow a) db, true)
reject_pending utcnow a _ db = (db, false)

reject_found : Instant → Option Approval → Db → Db × Bool
unfolding reject_pending
reject_found utcnow none db = (db, false)
reject_found utcnow (some a) db = reject_pending utcnow a a.status db

pub reject : Instant → Text → Db → Db × Bool
unfolding reject_found
reject utcnow id db = reject_found utcnow (approval_row id db) db
