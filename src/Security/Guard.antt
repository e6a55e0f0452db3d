-- ===== src/Security/Guard.antt =====
-- Whom the guard of the admin endpoints lets through.
use ripcale_backend.Prelude.{
  ℕ, ◌≡◌, refl, ap, sym, ◌∙◌, arith, true, false, [], ◌∷◌, Option, none, some, Text, ◌⊎◌, inl, inr,
  Bool-cases, Option-cases,
}
use ripcale_backend.Prelude.Int.{◌≤ℤ◌}
use ripcale_backend.Schema.{Instant}
use ripcale_backend.Models.{LoginSession, ApiToken, Db}
use ripcale_backend.Table.{get_row}
use ripcale_backend.Auth.{session_key, api_token_key, validate_session, validate_api_token}
use ripcale_backend.Security.{
  Request, World, cookie_value, bearer, is_debug_allowed, session_cookie, or_bearer,
  authenticated_user, status_of, session_guard,
}

-- A session that is not over, under a given token.
abbrev pub SessionAt : Instant → Option Text → Db → Type 0
SessionAt utcnow given db =
    (token : Text) × (row : LoginSession) × (given ≡ some token)
    × (get_row session_key token db.login_sessions ≡ some row)
    × (utcnow ≤ℤ row.expires_at)

session_of_valid :
    (utcnow : Instant) (given : Option Text) (db : Db) (user_id : ℕ)
    → (validate_session utcnow given db).1 ≡ some user_id
    → SessionAt utcnow given db
unfolding validate_session
session_of_valid utcnow none db u h = cc
session_of_valid utcnow (some []) db u h = cc
session_of_valid utcnow (some (c ∷ t)) db u h =
    elim (Option-cases (get_row session_key (c ∷ t) db.login_sessions)) [
      | inl unknown ↦ ground (arith, unknown)
      | inr (row, known) ↦ (c ∷ t, row, refl, known, ground (arith, known))
    ]

-- A token that is stored under the hash of the one that is given.
abbrev pub TokenAt : (Text → Text) → Option Text → Db → Type 0
TokenAt sha256 given db =
    (raw : Text) × (row : ApiToken) × (given ≡ some raw)
    × (get_row api_token_key (sha256 raw) db.api_tokens ≡ some row)

token_of_valid :
    (sha256 : Text → Text) (given : Option Text) (db : Db) (user_id : ℕ)
    → validate_api_token sha256 given db ≡ some user_id
    → TokenAt sha256 given db
unfolding validate_api_token
token_of_valid sha256 none db u h = cc
token_of_valid sha256 (some []) db u h = cc
token_of_valid sha256 (some (c ∷ t)) db u h =
    elim (Option-cases (get_row api_token_key (sha256 (c ∷ t)) db.api_tokens)) [
      | inl unknown ↦ ground (arith, unknown)
      | inr (row, known) ↦ (c ∷ t, row, refl, known)
    ]

-- A session that is deleted takes no token with it.
validate_session-api_tokens :
    (utcnow : Instant) (given : Option Text) (db : Db)
    → (validate_session utcnow given db).0.api_tokens ≡ db.api_tokens
unfolding validate_session
validate_session-api_tokens utcnow none db = refl
validate_session-api_tokens utcnow (some token) db =
    elim (Option-cases (get_row session_key token db.login_sessions)) [
      | inl unknown ↦ ground (arith, unknown)
      | inr (row, known) ↦ ground (arith, known)
    ]

abbrev pub Admits : World → Instant → Request → Db → Type 0
Admits w utcnow request db =
    SessionAt utcnow (cookie_value w request (session_cookie w)) db
    ⊎ TokenAt w.sha256 (bearer w request) db

or_bearer-cases :
    (w : World) (utcnow : Instant) (request : Request) (db : Db) (first : Db × Option ℕ)
    → first.0.api_tokens ≡ db.api_tokens
    → ((user_id : ℕ)
        → first.1 ≡ some user_id
        → SessionAt utcnow (cookie_value w request (session_cookie w)) db)
    → ((status_of w (or_bearer w request first)).1 ≡ some 401)
      ⊎ (((status_of w (or_bearer w request first)).1 ≡ none) × Admits w utcnow request db)
or_bearer-cases w utcnow request db (after, some user_id) same valid =
    inr (refl, inl (valid user_id refl))
or_bearer-cases w utcnow request db (after, none) same valid =
    elim (Option-cases (validate_api_token w.sha256 (bearer w request) after)) [
      | inl unknown ↦ inl (ap (λ o. (status_of w (after, o)).1) unknown)
      | inr (user_id, known) ↦
          let (raw, row, given, stored) =
            token_of_valid w.sha256 (bearer w request) after user_id known in
          let there : get_row api_token_key (w.sha256 raw) db.api_tokens ≡ some row =
            ap (get_row api_token_key (w.sha256 raw)) (sym same) ∙ stored in
          inr (ap (λ o. (status_of w (after, o)).1) known, inr (raw, row, given, there))
    ]

-- The guard lets a request through only from an allowed address, and only with the cookie of a
-- session that is stored and not over, or with a bearer token whose hash is stored. A request from
-- elsewhere is answered by 404 whatever it carries, and nothing is written.
pub session_guard-Admits :
    (w : World) (utcnow : Instant) (request : Request) (db : Db)
    → ((is_debug_allowed w request.ip_addr ≡ false)
        × (session_guard w utcnow request db ≡ (db, some 404)))
      ⊎ ((is_debug_allowed w request.ip_addr ≡ true)
          × ((session_guard w utcnow request db).1 ≡ some 401))
      ⊎ ((is_debug_allowed w request.ip_addr ≡ true)
          × ((session_guard w utcnow request db).1 ≡ none)
          × Admits w utcnow request db)
unfolding session_guard authenticated_user
session_guard-Admits w utcnow request db =
    let cookie = cookie_value w request (session_cookie w) in
    elim (Bool-cases (is_debug_allowed w request.ip_addr)) [
      | inl allowed ↦
          rw allowed
            (elim (or_bearer-cases w utcnow request db (validate_session utcnow cookie db)
              (validate_session-api_tokens utcnow cookie db) (session_of_valid utcnow cookie db)) [
                | inl unknown ↦ inr (inl (refl, unknown))
                | inr (passed, known) ↦ inr (inr (refl, passed, known))
              ])
      | inr elsewhere ↦ rw elsewhere (inl (refl, refl))
    ]
