-- ===== src/Models.antt =====
-- models.py: the rows of the database. `Db` is what one session sees; the keys of the `source`
-- table are numbers, all others are texts.
use ripcale_backend.Prelude.{ℕ, Bool, List, Option, Text}
use ripcale_backend.Prelude.Int.{ℤ}
use ripcale_backend.Schema.{Instant}
use ripcale_backend.Table.{get_row}

pub record Source : Type 0 where
  pub id : ℕ
  pub name : Text
  pub url : Text
  pub gatherer : Text
  pub is_public : Bool
  pub default_categories : Text
  pub enabled : Bool
  pub llm_context : Option Text
  pub last_fetched_at : Option Instant
  pub created_at : Instant

pub record Event : Type 0 where
  pub id : Text
  pub source_id : ℕ
  pub uid : Option Text
  pub title : Text
  pub description : Option Text
  pub location : Option Text
  pub geo : Option Text
  pub url : Option Text
  pub images : Text
  pub start_at : Option Instant
  pub end_at : Option Instant
  pub timezone : Option Text
  pub all_day : Bool
  pub rrule : Option Text
  pub recurrence_id : Option Instant
  pub exdates : Text
  pub redirect_to_id : Option Text
  pub priority : Option ℤ
  pub categories : Text
  pub content_hash : Text
  pub last_seen_at : Option Instant
  pub archived_at : Option Instant
  pub archived_reason : Option Text
  pub pinned : Bool
  pub placeholder : Bool
  pub created_at : Instant
  pub updated_at : Instant

pub data PostStatus : Type 0 where
  pending processing created modified deleted proposed ignored failed : PostStatus

pub record PendingPost : Type 0 where
  pub uid : Text
  pub source_id : ℕ
  pub url : Option Text
  pub caption : Option Text
  pub images : Text
  pub published_at : Option Instant
  pub status : PostStatus
  pub attempts : ℕ
  pub transcription : Option Text
  pub decision : Option Text
  pub match_event_id : Option Text
  pub error : Option Text
  pub created_at : Instant
  pub updated_at : Instant
  pub processed_at : Option Instant

pub data ApprovalStatus : Type 0 where
  pending approved rejected : ApprovalStatus

pub record Approval : Type 0 where
  pub id : Text
  pub kind : Text
  pub source_name : Text
  pub payload : Text
  pub reason : Text
  pub status : ApprovalStatus
  pub created_at : Instant
  pub updated_at : Instant
  pub resolved_at : Option Instant

pub data ConflictStatus : Type 0 where
  pending ignored applied merged : ConflictStatus

pub record EventConflict : Type 0 where
  pub id : Text
  pub event_id : Text
  pub incoming : Text
  pub changed_fields : Text
  pub status : ConflictStatus
  pub created_at : Instant
  pub updated_at : Instant
  pub resolved_at : Option Instant

pub record User : Type 0 where
  pub id : ℕ
  pub username : Text
  pub password_hash : Text
  pub created_at : Instant

pub record LoginSession : Type 0 where
  pub token : Text
  pub user_id : ℕ
  pub expires_at : Instant

pub record ApiToken : Type 0 where
  pub token_hash : Text
  pub user_id : ℕ
  pub label : Text
  pub created_at : Instant

pub record Db : Type 0 where
  pub sources : List Source
  pub users : List User
  pub events : List Event
  pub posts : List PendingPost
  pub approvals : List Approval
  pub conflicts : List EventConflict
  pub login_sessions : List LoginSession
  pub api_tokens : List ApiToken

-- A row keyed by its `id` column.
abbrev pub event_key : Event → Text
event_key e = e.id

-- `session.get(Event, id)`
abbrev pub event_row : Text → List Event → Option Event
event_row = get_row event_key

-- The memo of hosted images stands beside the other tables: nothing but services/images.py uses it.
pub record HostedImage : Type 0 where
  pub url : Text
  pub filename : Text
  pub last_used_at : Instant
