-- ===== src/Auth.antt =====
-- services/auth.py: sessions, API tokens, and the login with its limits. The password hashing and
-- the drawing of tokens are parameters. The limits are the module's dicts: no rollback undoes them.
pub mod Sessions
pub mod Lockout
pub mod Users
use ripcale_backend.Prelude.{
  ℕ, suc, ◌*◌, Bool, true, false, ◌&&◌, not, List, [], ◌∷◌, ◌++◌, Option, none, some, Text, codes,
  ◌==◌, nat_eq, list_eq, if◌then◌else◌, keep, find, length, lookup, insert, remove, leb, is_some,
  or_else, is_empty,
}
use ripcale_backend.Prelude.Int.{ℤ, pos, ◌+ℤ◌, ◌-ℤ◌, ltb_ℤ}
use ripcale_backend.Result.{Result, Error, ok, err, action_error, ◌>>=◌}
use ripcale_backend.Schema.{Instant}
use ripcale_backend.Models.{User, LoginSession, ApiToken, Db}
use ripcale_backend.Table.{get_row, add_row, delete_row}

abbrev pub session_key : LoginSession → Text
session_key s = s.token

abbrev pub api_token_key : ApiToken → Text
api_token_key t = t.token_hash

-- `timedelta(seconds=SESSION_TTL)` in microseconds
abbrev pub session_ttl : ℤ
session_ttl = pos (86400 * 1000000)

abbrev is_over : ℕ → Instant → LoginSession → Bool
is_over user_id utcnow s = (s.user_id == user_id) && ltb_ℤ s.expires_at utcnow

-- `token` is what `secrets.token_urlsafe` draws.
unfoldable pub create_session : Text → Instant → ℕ → Db → Result Db
create_session token utcnow user_id db = do
  rows ←
      add_row session_key
        (record { token = token; user_id = user_id; expires_at = utcnow +ℤ session_ttl })
        (keep (λ s. not (is_over user_id utcnow s)) db.login_sessions)
  ok (record db { login_sessions = rows })

abbrev pub check_session : Instant → Option LoginSession → Db → Db × Option ℕ
check_session utcnow none db = (db, none)
check_session utcnow (some row) db =
    if ltb_ℤ row.expires_at utcnow
    then (record db { login_sessions = delete_row session_key row.token db.login_sessions }, none)
    else (db, some row.user_id)

unfoldable pub validate_session : Instant → Option Text → Db → Db × Option ℕ
validate_session utcnow none db = (db, none)
validate_session utcnow (some token) db =
    if is_empty token
    then (db, none)
    else check_session utcnow (get_row session_key token db.login_sessions) db

pub destroy_session : Option Text → Db → Db
destroy_session none db = db
destroy_session (some token) db =
    if is_empty token
    then db
    else record db { login_sessions = delete_row session_key token db.login_sessions }

-- `sha256` is `hashlib.sha256(raw.encode()).hexdigest()`; the label comes stripped.
module _ (sha256 : Text → Text) where
  unfoldable pub create_api_token : Text → Instant → ℕ → Text → Db → Result Db
  create_api_token raw utcnow user_id label db = do
    rows ←
        add_row api_token_key
          (record {
            token_hash = sha256 raw;
            user_id = user_id;
            label = label;
            created_at = utcnow;
          })
          db.api_tokens
    ok (record db { api_tokens = rows })

  abbrev pub user_of : Option ApiToken → Option ℕ
  user_of none = none
  user_of (some t) = some t.user_id

  unfoldable pub validate_api_token : Option Text → Db → Option ℕ
  validate_api_token none db = none
  validate_api_token (some raw) db =
      if is_empty raw then none else user_of (get_row api_token_key (sha256 raw) db.api_tokens)

  pub revoke_api_token : Option Text → Db → Db × Bool
  revoke_api_token none db = (db, false)
  revoke_api_token (some raw) db = if is_empty raw then (db, false) else (
    record db { api_tokens = delete_row api_token_key (sha256 raw) db.api_tokens },
    is_some (get_row api_token_key (sha256 raw) db.api_tokens),
  )

-- `_attempts`, `_lockouts` and `_failures`; the times are those of `time.time()`, in microseconds.
pub record Limits : Type 0 where
  pub attempts : List (Text × List Instant)
  pub lockouts : List (Text × Instant)
  pub failures : List (Text × ℕ)

abbrev pub rate_limit : ℕ
rate_limit = 5

abbrev pub rate_window : ℤ
rate_window = pos (300 * 1000000)

abbrev pub lockout_threshold : ℕ
lockout_threshold = 5

abbrev pub lockout_duration : ℤ
lockout_duration = pos (900 * 1000000)

abbrev pub attempts_of : Text → Limits → List Instant
attempts_of key l = or_else (lookup key l.attempts) []

abbrev pub recent : Instant → List Instant → List Instant
recent now times = keep (λ t. ltb_ℤ (now -ℤ t) rate_window) times

unfoldable pub prune : Instant → Text → Limits → Limits
prune now key l = record l { attempts = insert key (recent now (attempts_of key l)) l.attempts }

-- `any`: the keys behind the first that is at the limit are not pruned.
unfoldable pub rate_limited : Instant → List Text → Limits → Limits × Bool
unfolding prune
rate_limited now [] l = (l, false)
rate_limited now (key ∷ keys) l =
    let rest = rate_limited now keys (prune now key l) in
    if leb rate_limit (length (recent now (attempts_of key l)))
    then (prune now key l, true)
    else rest

pub record_failure : Instant → List Text → Limits → Limits
record_failure now [] l = l
record_failure now (key ∷ keys) l =
    record_failure now keys
      (record l { attempts = insert key (attempts_of key l ++ now ∷ []) l.attempts })

abbrev locked_until : Instant → Text → Option Instant → Limits → Limits × Bool
locked_until now username none l = (l, false)
locked_until now username (some until) l =
    if ltb_ℤ until now
    then (record l { lockouts = remove username l.lockouts }, false)
    else (l, true)

pub is_locked : Instant → Text → Limits → Limits × Bool
is_locked now username l = locked_until now username (lookup username l.lockouts) l

abbrev pub failures_of : Text → Limits → ℕ
failures_of username l = or_else (lookup username l.failures) 0

pub record_login_failure : Instant → Text → Limits → Limits
record_login_failure now username l =
    let n = suc (failures_of username l) in
    if leb lockout_threshold n
    then record l {
      failures = insert username 0 (insert username n l.failures);
      lockouts = insert username (now +ℤ lockout_duration) l.lockouts;
    }
    else record l { failures = insert username n l.failures }

pub clear_login_failures : Text → Limits → Limits
clear_login_failures username l = record l {
  failures = remove username l.failures;
  lockouts = remove username l.lockouts;
}

-- What a login calls and this development does not model.
pub record Passwords : Type 0 where
  -- `(username or "").strip()`
  pub strip : Text → Text
  -- `verify_password` and `needs_rehash`
  pub verify : Text → Text → Bool
  pub needs_rehash : Text → Bool
  pub hash : Text → Text
  -- `str(ip)`, of the address or of `None`
  pub shown_ip : Option Text → Text

abbrev pub get_user : Text → Db → Option User
get_user username db = find (λ (u : User). u.username == username) db.users

set_hash : Text → Text → List User → List User
set_hash username hash [] = []
set_hash username hash (u ∷ us) =
    let rest = set_hash username hash us in
    if u.username == username then record u { password_hash = hash } ∷ us else u ∷ rest

module _ (pw : Passwords) where
  abbrev pub login_keys : Text → Option Text → List Text
  login_keys username ip = (codes "ip:" ++ pw.shown_ip ip) ∷ (codes "user:" ++ username) ∷ []

  abbrev refused : Text → ℕ → Limits → Db → Limits × Db × Result Text
  refused message status l db = (l, db, err (action_error message status))

  abbrev failed : Instant → Text → Option Text → Limits → Db → Limits × Db × Result Text
  failed now username ip l db =
      refused (codes "invalid credentials") 401
        (record_login_failure now username (record_failure now (login_keys username ip) l)) db

  abbrev rehashed : Text → Text → Text → Db → Db
  rehashed username password old db =
      if pw.needs_rehash old
      then record db { users = set_hash username (pw.hash password) db.users }
      else db

  -- The rehash is committed before the session is made.
  abbrev opened : Text → Limits → Db → Result Db → Limits × Db × Result Text
  opened token l db (ok after) = (l, after, ok token)
  opened token l db (err e) = (l, db, err e)

  pub check_password :
      Text
      → Instant
      → Instant
      → Text
      → Text
      → Option Text
      → Option User
      → Limits
      → Db
      → Limits × Db × Result Text
  unfolding record_failure record_login_failure clear_login_failures set_hash
  check_password token utcnow now username password ip none l db = failed now username ip l db
  check_password token utcnow now username password ip (some user) l db =
      if not (pw.verify password user.password_hash)
      then failed now username ip l db
      else (let db' = rehashed username password user.password_hash db in
          opened token (clear_login_failures username l) db'
            (create_session token utcnow user.id db'))

  abbrev after_rate :
      Text
      → Instant
      → Instant
      → Text
      → Text
      → Option Text
      → Limits × Bool
      → Db
      → Limits × Db × Result Text
  after_rate token utcnow now username password ip (l, true) db =
      refused (codes "too many attempts") 429 l db
  after_rate token utcnow now username password ip (l, false) db =
      check_password token utcnow now username password ip (get_user username db) l db

  abbrev after_lock :
      Text
      → Instant
      → Instant
      → Text
      → Text
      → Option Text
      → Limits × Bool
      → Db
      → Limits × Db × Result Text
  after_lock token utcnow now username password ip (l, true) db =
      refused (codes "account locked") 423 l db
  after_lock token utcnow now username password ip (l, false) db =
      after_rate token utcnow now username password ip (rate_limited now (login_keys username ip) l)
        db

  pub login :
      Text → Instant → Instant → Text → Text → Option Text → Limits → Db → Limits × Db × Result Text
  unfolding check_password
  login token utcnow now raw_username password ip l db =
      let username = pw.strip raw_username in
      after_lock token utcnow now username password ip (is_locked now username l) db
