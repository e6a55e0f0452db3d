-- ===== src/Auth/Sessions.antt =====
-- How long a session and a token are accepted.
use ripcale_backend.Prelude.{
  ℕ, ◌≡◌, ◌≢◌, refl, true, not, [], ◌∷◌, none, some, Text, arith, ◌==◌, ==_iff, ==_refl, nat_eq,
  list_eq, if◌then◌else◌, keep,
}
use ripcale_backend.Prelude.Int.{◌+ℤ◌, ◌≤ℤ◌, ◌<ℤ◌}
use ripcale_backend.Result.{ok, >>=-eq-ok}
use ripcale_backend.Schema.{Instant}
use ripcale_backend.Models.{LoginSession, ApiToken, Db}
use ripcale_backend.Table.{get_row, get_row-add_row, get_row-delete_row, add_row}
use ripcale_backend.Auth.{
  session_key, api_token_key, session_ttl, create_session, validate_session, destroy_session,
  create_api_token, validate_api_token, revoke_api_token, is_over,
}

abbrev made_session : Text → Instant → ℕ → LoginSession
made_session token utcnow user_id = record {
  token = token;
  user_id = user_id;
  expires_at = utcnow +ℤ session_ttl;
}

session_row :
    (token : Text) (utcnow : Instant) (user_id : ℕ) (db db' : Db)
    → create_session token utcnow user_id db ≡ ok db'
    → get_row session_key token db'.login_sessions ≡ some (made_session token utcnow user_id)
unfolding create_session
session_row token utcnow user_id db db' made =
    let old = keep (λ s. not (is_over user_id utcnow s)) db.login_sessions in
    let (rows, added, same) =
      >>=-eq-ok (add_row session_key (made_session token utcnow user_id) old) _ made in
    ground (
      arith,
      get_row-add_row session_key token (made_session token utcnow user_id) old rows added,
      ==_refl token,
    )

-- A session that was made with a token that is not empty is accepted for its user until its 24
-- hours are over, and afterwards not, when it is also deleted; and once it is destroyed it is not
-- accepted at all.
pub session_lifetime :
    (token : Text) (utcnow later : Instant) (user_id : ℕ) (db db' : Db)
    → token ≢ []
    → create_session token utcnow user_id db ≡ ok db'
    → ((later ≤ℤ utcnow +ℤ session_ttl)
        → validate_session later (some token) db' ≡ (db', some user_id))
      × ((utcnow +ℤ session_ttl <ℤ later)
          → ((validate_session later (some token) db').1 ≡ none)
            × (get_row session_key token (validate_session later (some token) db').0.login_sessions
                ≡ none))
      × ((validate_session later (some token) (destroy_session (some token) db')).1 ≡ none)
unfolding validate_session destroy_session
session_lifetime [] utcnow later user_id db db' filled made = absurd (filled refl)
session_lifetime (c ∷ t) utcnow later user_id db db' filled made =
    let row = session_row (c ∷ t) utcnow user_id db db' made in
    let deleted = get_row-delete_row session_key (c ∷ t) (c ∷ t) db'.login_sessions in
    let self = ==_refl (c ∷ t) in
    (
      (λ early. rw row (ground (arith, early))),
      (λ late. rw row (ground (arith, late, deleted, self))),
      ground (arith, deleted, self),
    )

abbrev made_token : (Text → Text) → Text → Instant → ℕ → Text → ApiToken
made_token sha256 raw utcnow user_id label = record {
  token_hash = sha256 raw;
  user_id = user_id;
  label = label;
  created_at = utcnow;
}

api_token_row :
    (sha256 : Text → Text) (raw hash : Text) (utcnow : Instant) (user_id : ℕ) (label : Text)
    (db db' : Db)
    → create_api_token sha256 raw utcnow user_id label db ≡ ok db'
    → get_row api_token_key hash db'.api_tokens ≡ (
        if sha256 raw == hash
        then some (made_token sha256 raw utcnow user_id label)
        else get_row api_token_key hash db.api_tokens)
unfolding create_api_token
api_token_row sha256 raw hash utcnow user_id label db db' made =
    let (rows, added, same) =
      >>=-eq-ok (add_row api_token_key (made_token sha256 raw utcnow user_id label) db.api_tokens) _
        made in
    ground (
      arith,
      get_row-add_row api_token_key hash (made_token sha256 raw utcnow user_id label) db.api_tokens
          rows added,
    )

-- A token that was made, and is not empty, is accepted for its user, and once it is revoked no
-- longer; a token of another hash is accepted or refused as it was before.
pub api_token_lifetime :
    (sha256 : Text → Text) (raw other : Text) (utcnow : Instant) (user_id : ℕ) (label : Text)
    (db db' : Db)
    → raw ≢ []
    → sha256 other ≢ sha256 raw
    → create_api_token sha256 raw utcnow user_id label db ≡ ok db'
    → (validate_api_token sha256 (some raw) db' ≡ some user_id)
      × (validate_api_token sha256 (some other) db' ≡ validate_api_token sha256 (some other) db)
      × ((revoke_api_token sha256 (some raw) db').1 ≡ true)
      × (validate_api_token sha256 (some raw) (revoke_api_token sha256 (some raw) db').0 ≡ none)
unfolding validate_api_token revoke_api_token
api_token_lifetime sha256 [] other utcnow user_id label db db' filled apart made =
    absurd (filled refl)
api_token_lifetime sha256 (c ∷ t) other utcnow user_id label db db' filled apart made =
    let row = api_token_row sha256 (c ∷ t) in
    let self = row (sha256 (c ∷ t)) utcnow user_id label db db' made in
    let kept = row (sha256 other) utcnow user_id label db db' made in
    let deleted =
      get_row-delete_row api_token_key (sha256 (c ∷ t)) (sha256 (c ∷ t)) db'.api_tokens in
    let same = ==_refl (sha256 (c ∷ t)) in
    (
      ground (arith, self, same),
      ground (arith, kept, ==_iff (sha256 (c ∷ t)) (sha256 other), apart),
      ground (arith, self, same),
      ground (arith, deleted, same),
    )
