-- ===== src/Auth/Users.antt =====
-- services/auth.py: the management of users. The name comes stripped, and `next_id` is the key that
-- the database gives a new row.
use ripcale_backend.Prelude.{
  ℕ, ◌≡◌, refl, Bool, true, false, ◌||◌, List, [], ◌∷◌, ◌++◌, none, some, Text, codes, arith, ◌==◌,
  ==_refl, nat_eq, list_eq, if◌then◌else◌, find, is_empty, is_some, is_none,
}
use ripcale_backend.Result.{Result, ok, err, action_error}
use ripcale_backend.Schema.{Instant}
use ripcale_backend.Models.{User, Db}
use ripcale_backend.Auth.{Passwords, get_user, set_hash}

pub new_user : (List User → ℕ) → Instant → Text → Text → List User → User
new_user next_id utcnow username hash rows = record {
  id = next_id rows;
  username = username;
  password_hash = hash;
  created_at = utcnow;
}

pub create_user : Passwords → (List User → ℕ) → Instant → Text → Text → Db → Result (Db × Bool)
unfolding new_user
create_user pw next_id utcnow username password db =
    if is_empty username || is_empty password
    then err (action_error (codes "username and password are required") 400)
    else if is_some (get_user username db)
    then ok (db, false)
    else ok (
      record db {
        users = db.users ++ new_user next_id utcnow username (pw.hash password) db.users ∷ [];
      },
      true,
    )

pub change_password : Passwords → Text → Text → Db → Result (Db × Bool)
change_password pw username password db =
    if is_empty password
    then err (action_error (codes "password is required") 400)
    else if is_none (get_user username db)
    then ok (db, false)
    else ok (record db { users = set_hash username (pw.hash password) db.users }, true)

-- The first row of the name.
remove_first : Text → List User → List User
remove_first username [] = []
remove_first username (u ∷ us) =
    let rest = remove_first username us in if u.username == username then us else u ∷ rest

pub remove_user : Text → Db → Db × Bool
unfolding remove_first
remove_user username db =
    if is_none (get_user username db)
    then (db, false)
    else (record db { users = remove_first username db.users }, true)

-- `ensure_admin_user`, with the two settings it reads.
pub ensure_admin_user : (List User → ℕ) → Instant → Text → Text → Db → Db × Bool
unfolding new_user
ensure_admin_user next_id utcnow username hash db =
    if is_empty hash then (db, false) else if is_some (get_user username db) then (db, false) else (
      record db { users = db.users ++ new_user next_id utcnow username hash db.users ∷ [] },
      true,
    )

abbrev has_name : Text → User → Bool
has_name username u = u.username == username

find-append :
    (test : User → Bool) (us : List User) (u : User)
    → find test us ≡ none
    → test u ≡ true
    → find test (us ++ u ∷ []) ≡ some u
unfolding find
find-append test [] u h k = ground arith
find-append test (x ∷ us) u h k = ground (arith, find-append test us u)

find-set_hash :
    (username hash : Text) (us : List User) (u : User)
    → find (has_name username) us ≡ some u
    → find (has_name username) (set_hash username hash us)
      ≡ some (record u { password_hash = hash })
unfolding find set_hash
find-set_hash username hash [] u h = ground arith
find-set_hash username hash (x ∷ us) u h = ground (arith, find-set_hash username hash us u)

is_some_of_find :
    (test : User → Bool) (us : List User) (u : User)
    → test u ≡ true
    → is_some (find test (us ++ u ∷ [])) ≡ true
unfolding find
is_some_of_find test [] u h = ground arith
is_some_of_find test (x ∷ us) u h = ground (arith, is_some_of_find test us u)

-- For a name and a password that are not empty: a name that is taken is not created again, and a
-- changed password is found in place of the old one; where there is no such user, nothing is
-- changed or removed, and a created one is found with the hash of the password.
pub users_by_name :
    (pw : Passwords) (next_id : List User → ℕ) (utcnow : Instant) (c d : ℕ) (n w : Text) (db : Db)
    → ((u : User)
        → get_user (c ∷ n) db ≡ some u
        → (create_user pw next_id utcnow (c ∷ n) (d ∷ w) db ≡ ok (db, false))
          × ((after : Db)
              → change_password pw (c ∷ n) (d ∷ w) db ≡ ok (after, true)
              → get_user (c ∷ n) after ≡ some (record u { password_hash = pw.hash (d ∷ w) })))
      × (get_user (c ∷ n) db ≡ none
          → (change_password pw (c ∷ n) (d ∷ w) db ≡ ok (db, false))
            × (remove_user (c ∷ n) db ≡ (db, false))
            × ((after : Db)
                → create_user pw next_id utcnow (c ∷ n) (d ∷ w) db ≡ ok (after, true)
                → get_user (c ∷ n) after
                  ≡ some (new_user next_id utcnow (c ∷ n) (pw.hash (d ∷ w)) db.users)))
unfolding create_user change_password remove_user
users_by_name pw next_id utcnow c d n w db = (
  (λ u h.
      (rw h refl, λ after e. ground (arith, find-set_hash (c ∷ n) (pw.hash (d ∷ w)) db.users u h))),
  λ h. (
    rw h refl,
    rw h refl,
    λ after e. ground (
      arith,
      find-append (has_name (c ∷ n)) db.users
          (new_user next_id utcnow (c ∷ n) (pw.hash (d ∷ w)) db.users) h (==_refl (c ∷ n)),
    ),
  ),
)

-- The admin of the settings is made once: a second start changes nothing.
pub admin_made_once :
    (next_id : List User → ℕ) (utcnow later : Instant) (username hash : Text) (db : Db)
    → ensure_admin_user next_id later username hash
        (ensure_admin_user next_id utcnow username hash db).0
      ≡ ((ensure_admin_user next_id utcnow username hash db).0, false)
unfolding ensure_admin_user
admin_made_once next_id utcnow later username hash db = ground (
  arith,
  is_some_of_find (has_name username) db.users (new_user next_id utcnow username hash db.users)
      (unfold new_user in ==_refl username),
)
