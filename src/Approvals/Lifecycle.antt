-- ===== src/Approvals/Lifecycle.antt =====
-- An approval is resolved once.
use ripcale_backend.Prelude.{
  ◌≡◌, refl, Bool, true, false, Option, none, some, Text, arith, ==_iff, nat_eq, list_eq,
  if◌then◌else◌, ◌==◌,
}
use ripcale_backend.Result.{ok}
use ripcale_backend.Schema.{Instant}
use ripcale_backend.Models.{Approval, ApprovalStatus, Db}
use ripcale_backend.Table.{get_row-replace, get_row-key}
use ripcale_backend.Approvals.{
  Appliers, approval_key, approval_row, resolved, set_approval, approve, reject_pending,
  reject_found, reject,
}

abbrev pub is_pending : Option Approval → Bool
is_pending none = false
is_pending (some a) = elim a.status [ ApprovalStatus.pending ↦ true | _ ↦ false ]

-- What is absent or was resolved before is neither approved nor rejected, and nothing is written.
pub resolved_is_final :
    (appliers : Appliers) (utcnow : Instant) (id : Text) (db : Db)
    → is_pending (approval_row id db) ≡ false
    → (approve appliers utcnow id db ≡ ok (db, false)) × (reject utcnow id db ≡ (db, false))
unfolding approve reject
resolved_is_final appliers utcnow id db h = ground arith

row_after :
    (id j : Text) (a b : Approval) (db : Db)
    → approval_row id db ≡ some a
    → b.id ≡ a.id
    → approval_row j (set_approval b db) ≡ (if id == j then some b else approval_row j db)
row_after id j a b db found same = ground (
  arith,
  get_row-key approval_key id db.approvals a found,
  get_row-replace approval_key b.id j b db.approvals refl,
  ==_iff id j,
)

-- Rejecting a pending proposal marks it rejected, with the time, and leaves every other one as it
-- was; no applier runs, and only the proposals are written.
pub reject_marks :
    (utcnow : Instant) (id j : Text) (db : Db) (a : Approval)
    → approval_row id db ≡ some a
    → a.status ≡ ApprovalStatus.pending
    → let (after, done) = reject utcnow id db in
      (done ≡ true)
      × (after ≡ record db { approvals = after.approvals })
      × (approval_row j after ≡ (
          if id == j then some (resolved ApprovalStatus.rejected utcnow a) else approval_row j db))
unfolding reject
reject_marks utcnow id j db a found pending =
    rw (found, reject_found)
      (rw (pending, reject_pending)
        (refl, refl, row_after id j a (resolved ApprovalStatus.rejected utcnow a) db found refl))
