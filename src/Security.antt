-- ===== src/Security.antt =====
-- security.py: who may call the admin endpoints. Addresses, networks and the answers of the HTTP
-- framework are parameters.
pub mod Guard
use ripcale_backend.Prelude.{
  ℕ, Bool, true, false, ◌&&◌, ◌||◌, not, List, [], ◌∷◌, Option, none, some, Text, codes, ◌==◌,
  nat_eq, list_eq, if◌then◌else◌, is_empty, any, split, before, or_else, removed_prefix,
}
use ripcale_backend.Schema.{Instant}
use ripcale_backend.Models.{Db}
use ripcale_backend.Ssrf.{Address, Network, in_network, v4_network}
use ripcale_backend.Auth.{validate_session, validate_api_token}

-- What the guard reads of a request: the peer and two headers.
pub record Request : Type 0 where
  pub ip_addr : Option Text
  pub cookie : Option Text
  pub authorization : Option Text

pub record World : Type 0 where
  pub debug_allowed_cidrs : Option Text
  pub in_docker : Bool
  -- `str.strip`
  pub strip : Text → Text
  -- `ipaddress.ip_address` and `ip_network(…, strict=False)`, without a value where they raise
  pub ip_address : Text → Option Address
  pub ip_network : Text → Option Network
  pub is_loopback : Address → Bool
  pub sha256 : Text → Text

-- `part.partition("=")`, where there is a separator: what stands behind the first.
unfoldable pub behind : ℕ → Text → Option Text
behind sep [] = none
behind sep (c ∷ s) = let rest = behind sep s in if c == sep then some s else rest

module _ (w : World) where
  abbrev pub or_later : Text → Text → Option Text → Option Text → Option Text
  or_later name part none later = later
  or_later name part (some value) later =
      if w.strip (before b'=' part) == name then some (w.strip value) else later

  unfoldable pub cookie_in : Text → List Text → Option Text
  cookie_in name [] = none
  cookie_in name (part ∷ parts) = or_later name part (behind b'=' part) (cookie_in name parts)

  -- An empty header has no part with a separator.
  unfoldable pub cookie_value : Request → Text → Option Text
  cookie_value request name = cookie_in name (split b';' (or_else request.cookie []))

  abbrev stripped : Option Text → Option Text
  stripped none = none
  stripped (some s) = some (w.strip s)

  unfoldable pub bearer : Request → Option Text
  bearer request = stripped (removed_prefix (codes "Bearer ") (or_else request.authorization []))

  abbrev is_within : Address → Option Network → Bool
  is_within addr none = false
  is_within addr (some net) = in_network addr net

  -- A CIDR that cannot be read grants nothing.
  unfoldable pub grants : Address → Text → Bool
  grants addr raw =
      let cidr = w.strip raw in not (is_empty cidr) && is_within addr (w.ip_network cidr)

  abbrev docker_bridge : Network
  docker_bridge = v4_network 172 16 0 0 12

  abbrev pub allows : Option Address → Bool
  allows none = false
  allows (some addr) =
      w.is_loopback addr
      || (w.in_docker && in_network addr docker_bridge)
      || any (grants addr) (split b',' (or_else w.debug_allowed_cidrs []))

  unfoldable pub is_debug_allowed : Option Text → Bool
  is_debug_allowed none = false
  is_debug_allowed (some ip) = not (is_empty ip) && allows (w.ip_address ip)

  abbrev pub session_cookie : Text
  session_cookie = codes "ripcale_session"

  abbrev pub or_bearer : Request → Db × Option ℕ → Db × Option ℕ
  or_bearer request (db, some user_id) = (db, some user_id)
  or_bearer request (db, none) = (db, validate_api_token w.sha256 (bearer request) db)

  -- The session cookie, or else the bearer token. A session that is over is deleted.
  unfoldable pub authenticated_user : Instant → Request → Db → Db × Option ℕ
  authenticated_user utcnow request db =
      or_bearer request (validate_session utcnow (cookie_value request session_cookie) db)

  abbrev pub status_of : Db × Option ℕ → Db × Option ℕ
  status_of (db, none) = (db, some 401)
  status_of (db, some user_id) = (db, none)

  -- The status of the refusal, if there is one.
  unfoldable pub session_guard : Instant → Request → Db → Db × Option ℕ
  session_guard utcnow request db =
      if is_debug_allowed request.ip_addr
      then status_of (authenticated_user utcnow request db)
      else (db, some 404)

  unfoldable pub debug_guard : Request → Option ℕ
  debug_guard request = if is_debug_allowed request.ip_addr then none else some 404
