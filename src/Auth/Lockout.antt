-- ===== src/Auth/Lockout.antt =====
-- The lockout after failed logins, and what a refusal gives away.
use ripcale_backend.Prelude.{
  ap, ◌∙◌, List, [], ◌∷◌, or_else, suc, ◌<◌, ◌≡◌, ◌≢◌, refl, Bool, true, false, Option, none, some,
  Text, codes, arith, ==_iff, ==_refl, nat_eq, list_eq, lookup, insert, lookup-insert,
}
use ripcale_backend.Prelude.Int.{◌+ℤ◌, ◌≤ℤ◌}
use ripcale_backend.Result.{Result, err, action_error}
use ripcale_backend.Schema.{Instant}
use ripcale_backend.Models.{User, Db}
use ripcale_backend.Auth.{
  Limits, Passwords, get_user, lockout_threshold, lockout_duration, failures_of, is_locked,
  record_login_failure, record_failure, prune, rate_limited, login, login_keys, after_rate,
  after_lock, check_password,
}

-- A name that was locked at `now` is locked until the 15 minutes are over, and afterwards no longer.
is_locked_at :
    (username : Text) (now later : Instant) (l : Limits)
    → lookup username l.lockouts ≡ some (now +ℤ lockout_duration)
    → later ≤ℤ now +ℤ lockout_duration
    → is_locked later username l ≡ (l, true)
unfolding is_locked
is_locked_at username now later l h k = rw h (ground (arith, k))

fifth_failure :
    (now : Instant) (username : Text) (l : Limits)
    → failures_of username l ≡ 4
    → (lookup username (record_login_failure now username l).lockouts
        ≡ some (now +ℤ lockout_duration))
      × (failures_of username (record_login_failure now username l) ≡ 0)
unfolding record_login_failure
fifth_failure now username l four = ground (
  arith,
  four,
  ==_refl username,
  lookup-insert username username (now +ℤ lockout_duration) l.lockouts,
  lookup-insert username username 0 (insert username (suc (failures_of username l)) l.failures),
)

rate_limited_failures :
    (now : Instant) (keys : List Text) (l : Limits)
    → (rate_limited now keys l).0.failures ≡ l.failures
unfolding rate_limited prune
rate_limited_failures now [] l = refl
rate_limited_failures now (key ∷ keys) l =
    ground (arith, rate_limited_failures now keys (prune now key l))

record_failure_failures :
    (now : Instant) (keys : List Text) (l : Limits)
    → (record_failure now keys l).failures ≡ l.failures
unfolding record_failure
record_failure_failures now [] l = refl
record_failure_failures now (key ∷ keys) l = record_failure_failures now keys _

module _ (pw : Passwords) (token : Text) (utcnow now : Instant) (username password : Text)
    (ip : Option Text) where
  -- The limits behind a login that was let through to the password and failed.
  abbrev limits_behind : Limits → Limits
  limits_behind l = record_login_failure now username (
      record_failure now (login_keys pw username ip)
        (rate_limited now (login_keys pw username ip) l).0)

  abbrev Rejects : Limits × Db × Result Text → Limits → Db → Type 0
  Rejects out l db = out ≡ (l, db, err (action_error (codes "invalid credentials") 401))

  checked-Rejects :
      (found : Option User) (l : Limits) (db : Db)
      → ((user : User) → found ≡ some user → pw.verify password user.password_hash ≡ false)
      → Rejects
          (check_password pw token utcnow now username password ip found l db)
          (record_login_failure now username (record_failure now (login_keys pw username ip) l))
          db
  unfolding check_password
  checked-Rejects none l db wrong = refl
  checked-Rejects (some user) l db wrong = rw (wrong user refl) refl

  rated-Rejects :
      (taken : Limits × Bool) (db : Db)
      → taken.1 ≡ false
      → ((user : User)
          → get_user username db ≡ some user
          → pw.verify password user.password_hash ≡ false)
      → Rejects
          (after_rate pw token utcnow now username password ip taken db)
          (record_login_failure now username
            (record_failure now (login_keys pw username ip) taken.0))
          db
  rated-Rejects (l, true) db through wrong = cc
  rated-Rejects (l, false) db through wrong = checked-Rejects (get_user username db) l db wrong

-- A login with an unknown name or a wrong password, let through by the limits, of a name that has
-- four failures, is refused and locks the name: until 15 minutes later every login with it is
-- refused, whatever the password, and changes nothing; and its count is at zero again.
pub fifth_failure_locks :
    (pw : Passwords) (token next : Text) (utcnow now later : Instant)
    (raw_username password other : Text) (ip from : Option Text) (l : Limits) (db : Db)
    → lookup (pw.strip raw_username) l.lockouts ≡ none
    → (rate_limited now (login_keys pw (pw.strip raw_username) ip) l).1 ≡ false
    → failures_of (pw.strip raw_username) l ≡ 4
    → ((user : User)
        → get_user (pw.strip raw_username) db ≡ some user
        → pw.verify password user.password_hash ≡ false)
    → later ≤ℤ now +ℤ lockout_duration
    → let (after, db', answer) = login pw token utcnow now raw_username password ip l db in
      (answer ≡ err (action_error (codes "invalid credentials") 401))
      × (login pw next utcnow later raw_username other from after db'
          ≡ (after, db, err (action_error (codes "account locked") 423)))
      × (failures_of (pw.strip raw_username) after ≡ 0)
fifth_failure_locks pw token next utcnow now later raw_username password other ip from l db unseen
      through four wrong soon =
    let username = pw.strip raw_username in
    let keys = login_keys pw username ip in
    let taken = rate_limited now keys l in
    let before = record_failure now keys taken.0 in
    let same : failures_of username before ≡ 4 =
      ap (λ fs. or_else (lookup username fs) 0)
        (record_failure_failures now keys taken.0 ∙ rate_limited_failures now keys l)
      ∙ four in
    let after = record_login_failure now username before in
    let (locked, again) = fifth_failure now username before same in
    let unlocked : is_locked now username l ≡ (l, false) = unfold is_locked in rw unseen refl in
    let first : login pw token utcnow now raw_username password ip l db
        ≡ (after, db, err (action_error (codes "invalid credentials") 401)) =
      unfold login in
      rw unlocked (rated-Rejects pw token utcnow now username password ip taken db through wrong) in
    rw first
      (refl, unfold login in rw (is_locked_at username now later after locked soon) refl, again)

-- Fewer failures do not lock: the count stays below the threshold whatever the failures.
pub failures_bounded :
    (now : Instant) (username other : Text) (l : Limits)
    → failures_of other l < lockout_threshold
    → (failures_of other (record_login_failure now username l) < lockout_threshold)
      × (username ≢ other
          → failures_of other (record_login_failure now username l) ≡ failures_of other l)
unfolding record_login_failure
failures_bounded now username other l h =
    let n = suc (failures_of username l) in
    ground (
      arith,
      ==_iff username other,
      lookup-insert username other n l.failures,
      lookup-insert username other 0 (insert username n l.failures),
    )

module _ (pw : Passwords) (token : Text) (utcnow now : Instant) (username password : Text)
    (ip : Option Text) where
  IsAlike : Limits × Db × Result Text → Limits × Db × Result Text → Db → Db → Type 0
  IsAlike unknown wrong db db' =
      (unknown.0 ≡ wrong.0) × (unknown.2 ≡ wrong.2) × (unknown.1 ≡ db) × (wrong.1 ≡ db')

  checked-IsAlike :
      (l : Limits) (db db' : Db) (user : User)
      → pw.verify password user.password_hash ≡ false
      → IsAlike
          (check_password pw token utcnow now username password ip none l db)
          (check_password pw token utcnow now username password ip (some user) l db')
          db
          db'
  unfolding IsAlike check_password
  checked-IsAlike l db db' user bad = rw bad (refl, refl, refl, refl)

  rated-IsAlike :
      (taken : Limits × Bool) (db db' : Db) (user : User)
      → get_user username db ≡ none
      → get_user username db' ≡ some user
      → pw.verify password user.password_hash ≡ false
      → IsAlike
          (after_rate pw token utcnow now username password ip taken db)
          (after_rate pw token utcnow now username password ip taken db')
          db
          db'
  rated-IsAlike (l, true) db db' user absent present bad =
      unfold IsAlike in (refl, refl, refl, refl)
  rated-IsAlike (l, false) db db' user absent present bad =
      rw (absent, present) (checked-IsAlike l db db' user bad)

  refused-IsAlike :
      (taken : Limits × Bool) (db db' : Db) (user : User)
      → get_user username db ≡ none
      → get_user username db' ≡ some user
      → pw.verify password user.password_hash ≡ false
      → IsAlike
          (after_lock pw token utcnow now username password ip taken db)
          (after_lock pw token utcnow now username password ip taken db')
          db
          db'
  refused-IsAlike (l, true) db db' user absent present bad =
      unfold IsAlike in (refl, refl, refl, refl)
  refused-IsAlike (l, false) db db' user absent present bad =
      rated-IsAlike (rate_limited now (login_keys pw username ip) l) db db' user absent present bad

-- A login with an unknown name and one with a known name and a wrong password cannot be told apart
-- by the answer or by the limits that they leave, and both leave the database as it was.
pub refusals_alike :
    (pw : Passwords) (token : Text) (utcnow now : Instant) (raw_username password : Text)
    (ip : Option Text) (l : Limits) (db db' : Db) (user : User)
    → get_user (pw.strip raw_username) db ≡ none
    → get_user (pw.strip raw_username) db' ≡ some user
    → pw.verify password user.password_hash ≡ false
    → let unknown = login pw token utcnow now raw_username password ip l db in
      let wrong = login pw token utcnow now raw_username password ip l db' in
      (unknown.0 ≡ wrong.0) × (unknown.2 ≡ wrong.2) × (unknown.1 ≡ db) × (wrong.1 ≡ db')
unfolding login IsAlike
refusals_alike pw token utcnow now raw_username password ip l db db' user absent present bad =
    refused-IsAlike pw token utcnow now (pw.strip raw_username) password ip
      (is_locked now (pw.strip raw_username) l) db db' user absent present bad
