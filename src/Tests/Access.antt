-- ===== src/Tests/Access.antt =====
-- Runs of the lock, the sessions and the login.
use ripcale_backend.Prelude.{
  insert, list_eq, List, ℕ, ◌≡◌, refl, true, false, [], ◌∷◌, none, some, Text, codes, find,
  list_beq, nat_eq, arith, keep, lookup,
}
use ripcale_backend.Prelude.Int.{pos, ◌≤ℤ◌, ◌<ℤ◌, ◌+ℤ◌, ◌-ℤ◌}
use ripcale_backend.Result.{ok, err, action_error}
use ripcale_backend.Models.{User, Db}
use ripcale_backend.Table.{get_row, add_row}
use ripcale_backend.Lock.{stale_timeout, create_exclusive, is_stale}
use ripcale_backend.Lock.Race.{
  opening, holding, State, all_opening, set_pc, Reach, here, next, create, one_holder,
  stale_lock_is_taken_twice, start-InWindow,
}
use ripcale_backend.Auth.{
  get_user, rate_limited, prune, login_keys, Passwords, Limits, session_key, session_ttl,
  create_session, validate_session, destroy_session, create_api_token, validate_api_token,
  revoke_api_token, failures_of, login,
}
use ripcale_backend.Auth.Sessions.{session_lifetime, api_token_lifetime}
use ripcale_backend.Auth.Lockout.{fifth_failure_locks, refusals_alike}
use ripcale_backend.Tests.Samples.{settings, empty_db}

-- One process alone.
abbrev alone : State
alone = record { file = some (pos 5); pc = set_pc 0 holding (λ i. opening) }

alone_reached : Reach settings (pos 5) (all_opening settings (pos 5) none) alone
unfolding create_exclusive
alone_reached =
    next here (create 0 (pos 5) (some (pos 5)) (start-InWindow settings (pos 5)) refl refl)

one_holder_example : ◌≡◌ {A = ℕ} 0 0
one_holder_example = one_holder settings (pos 5) alone 0 0 alone_reached refl refl

stale_lock_is_taken_twice_example :
    (s : State) × Reach settings
      (pos 7200000001)
      (all_opening settings (pos 7200000001) (some (pos 0)))
      s
    × (s.pc 0 ≡ holding)
    × (s.pc 1 ≡ holding)
unfolding is_stale stale_timeout ◌-ℤ◌
stale_lock_is_taken_twice_example = stale_lock_is_taken_twice settings (pos 7200000001) (pos 0) refl

abbrev session_db : Db
session_db = record empty_db {
  login_sessions =
      record { token = codes "t"; user_id = 1; expires_at = pos 5 +ℤ session_ttl } ∷ [];
}

session_made : create_session (codes "t") (pos 5) 1 empty_db ≡ ok session_db
unfolding create_session add_row keep
session_made = refl

session_lifetime_example :
    ((pos 9 ≤ℤ pos 5 +ℤ session_ttl)
      → validate_session (pos 9) (some (codes "t")) session_db ≡ (session_db, some 1))
    × ((pos 5 +ℤ session_ttl <ℤ pos 9)
        → ((validate_session (pos 9) (some (codes "t")) session_db).1 ≡ none)
          × (get_row session_key
                (codes "t")
                (validate_session (pos 9) (some (codes "t")) session_db).0.login_sessions
              ≡ none))
    × ((validate_session
          (pos 9)
          (some (codes "t"))
          (destroy_session (some (codes "t")) session_db)).1
        ≡ none)
session_lifetime_example =
    session_lifetime (codes "t") (pos 5) (pos 9) 1 empty_db session_db (λ e. ground arith)
      session_made

abbrev token_db : Db
token_db = record empty_db {
  api_tokens = record { token_hash = codes "t"; user_id = 1; label = []; created_at = pos 5 } ∷ [];
}

abbrev plain : Text → Text
plain s = s

token_made : create_api_token plain (codes "t") (pos 5) 1 [] empty_db ≡ ok token_db
unfolding create_api_token add_row
token_made = refl

api_token_lifetime_example :
    (validate_api_token plain (some (codes "t")) token_db ≡ some 1)
    × (validate_api_token plain (some (codes "o")) token_db
        ≡ validate_api_token plain (some (codes "o")) empty_db)
    × ((revoke_api_token plain (some (codes "t")) token_db).1 ≡ true)
    × (validate_api_token plain
          (some (codes "t"))
          (revoke_api_token plain (some (codes "t")) token_db).0
        ≡ none)
api_token_lifetime_example =
    api_token_lifetime plain (codes "t") (codes "o") (pos 5) 1 [] empty_db token_db
      (λ e. ground arith) (λ e. ground arith) token_made

abbrev passwords : Passwords
passwords = record {
  strip = λ s. s;
  verify = λ password hash. list_beq password hash;
  needs_rehash = λ hash. false;
  hash = λ s. s;
  shown_ip = λ ip. codes "None";
}

abbrev ann : User
ann = record { id = 1; username = codes "ann"; password_hash = codes "right"; created_at = pos 0 }

abbrev users_db : Db
users_db = record empty_db { users = ann ∷ [] }

abbrev four_failures : Limits
four_failures = record { attempts = []; lockouts = []; failures = (codes "ann", 4) ∷ [] }

four : failures_of (codes "ann") four_failures ≡ 4
unfolding lookup list_beq
four = refl

unlocked : lookup (codes "ann") four_failures.lockouts ≡ none
unfolding lookup
unlocked = refl

nobody :
    (user : User)
    → get_user (codes "ann") empty_db ≡ some user
    → passwords.verify (codes "wrong") user.password_hash ≡ false
unfolding find
nobody user h = cc

let_through :
    (rate_limited (pos 5) (login_keys passwords (codes "ann") none) four_failures).1 ≡ false
unfolding rate_limited prune lookup insert keep list_beq
let_through = refl

fifth_failure_locks_example :
    let (after, db', answer) =
      login passwords
        (codes "t")
        (pos 5)
        (pos 5)
        (codes "ann")
        (codes "wrong")
        none
        four_failures
        empty_db in
    (answer ≡ err (action_error (codes "invalid credentials") 401))
    × (login passwords (codes "u") (pos 5) (pos 9) (codes "ann") (codes "right") none after db'
        ≡ (after, empty_db, err (action_error (codes "account locked") 423)))
    × (failures_of (codes "ann") after ≡ 0)
unfolding ◌+ℤ◌
fifth_failure_locks_example =
    fifth_failure_locks passwords (codes "t") (codes "u") (pos 5) (pos 5) (pos 9) (codes "ann")
      (codes "wrong") (codes "right") none none four_failures empty_db unlocked let_through four
      nobody (omega arith)

refusals_alike_example :
    let unknown =
      login passwords
        (codes "t")
        (pos 9)
        (pos 9)
        (codes "ann")
        (codes "wrong")
        none
        four_failures
        empty_db in
    let wrong =
      login passwords
        (codes "t")
        (pos 9)
        (pos 9)
        (codes "ann")
        (codes "wrong")
        none
        four_failures
        users_db in
    (unknown.0 ≡ wrong.0) × (unknown.2 ≡ wrong.2) × (unknown.1 ≡ empty_db) × (wrong.1 ≡ users_db)
unfolding find list_beq
refusals_alike_example =
    refusals_alike passwords (codes "t") (pos 9) (pos 9) (codes "ann") (codes "wrong") none
      four_failures empty_db users_db ann refl refl refl

abbrev first_id : List User → ℕ
first_id rows = 1
