-- ===== src/Result.antt =====
-- What a call that may raise returns, and the database transaction as a monad: an exception loses
-- the session's changes, since every caller rolls back or drops the session.
use ripcale_backend.Prelude.{ℕ, Bool, true, false, ◌≡◌, refl, Text}

-- The exceptions that the modelled code tells apart.
pub data Error : Type 0 where
  -- `gatherers.errors.SourceIssue`: a known problem of one source
  source_issue : Text → Error
  -- `sqlalchemy.exc.IntegrityError`: a second row with one primary key
  integrity_error : Error
  -- `re.error`, and a field that is missing or holds no text
  bad_rule : Error
  -- `RuntimeError` and any other exception
  failure : Text → Error
  -- `actions.ActionError`: a message and an HTTP status
  action_error : Text → ℕ → Error

pub data Result {ℓ} (T : Type ℓ) : Type ℓ where
  err : Error → Result T
  ok : T → Result T

module _ {ℓ} {T : Type ℓ} where
  abbrev pub is_ok : Result T → Bool
  is_ok (err e) = false
  is_ok (ok t) = true

infixl 5 ◌>>=◌ ◌>>◌
abbrev pub ◌>>=◌ {ℓ κ} : {T : Type ℓ} {U : Type κ} → Result T → (T → Result U) → Result U
err raised >>= next = err raised
ok t >>= next = next t

abbrev pub ◌>>◌ {ℓ κ} : {T : Type ℓ} {U : Type κ} → Result T → Result U → Result U
first >> second = first >>= λ _. second

-- A chain that returned had a first call that returned.
pub >>=-eq-ok {ℓ κ} :
    {T : Type ℓ} {U : Type κ} (first : Result T) (next : T → Result U) {u : U}
    → (first >>= next) ≡ ok u
    → (t : T) × (first ≡ ok t) × (next t ≡ ok u)
>>=-eq-ok (err raised) next h = cc
>>=-eq-ok (ok t) next h = (t, refl, h)
