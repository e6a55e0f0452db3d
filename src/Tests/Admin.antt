-- ===== src/Tests/Admin.antt =====
-- Runs of the retag, the guarded transport and the wipe.
use mathlib.Core.List.{Memᴰ}
use ripcale_backend.Prelude.{
  ◌≡◌, ◌≢◌, ◌⊎◌, refl, true, false, [], ◌∷◌, none, some, Text, codes, map, arith, ◌*◌,
}
use ripcale_backend.Prelude.Int.{pos, ◌≤ℤ◌, ◌+ℤ◌}
use ripcale_backend.Schema.{Instant}
use ripcale_backend.Models.{Event, Db}
use ripcale_backend.Retag.{retag, tokens}
use ripcale_backend.Retag.Renames.{carries, renamed, retag_renames}
use ripcale_backend.Ssrf.{v4, Request, World}
use ripcale_backend.Wipe.{Instance, wipe_begin, wipe_confirm, wipe_ttl}
use ripcale_backend.Wipe.Challenge.{started, begun, Untouched, Wiped, wipe_is_challenged}
use ripcale_backend.Security
use ripcale_backend.Security.{
  session_guard, is_debug_allowed, authenticated_user, cookie_value, cookie_in, behind, bearer,
}
use ripcale_backend.Security.Guard.{Admits, session_guard-Admits}
use ripcale_backend.Auth.{validate_session, validate_api_token}
use ripcale_backend.Table.{get_row}
use ripcale_backend.Prelude.{list_beq, false, split, before, removed_prefix, any}
use ripcale_backend.Tests.Samples.{row, db_with, empty_db}

abbrev tagged : Event
tagged = record (row (codes "e") false none) { categories = codes "a:x,b:y" }

abbrev db : Db
db = db_with (tagged ∷ [])

ne_head : codes "a:x" ≢ codes "c:z"
ne_head e = ground (arith, e)

retag_renames_example :
    (map (carries (codes "c:z")) (retag (codes "a:x") (some (codes "c:z")) db).0.events
      ≡ map
          (λ (e : Event). renamed (codes "a:x") (codes "c:z") (codes "c:z") (tokens e.categories))
          db.events)
    × (retag (codes "a:x") (some (codes "c:z")) (retag (codes "a:x") (some (codes "c:z")) db).0
        ≡ ((retag (codes "a:x") (some (codes "c:z")) db).0, (0, [])))
retag_renames_example =
    retag_renames (codes "a:x") (codes "c:z") db (codes "c:z")
      (λ e. cc, (λ e. omega arith, (λ e. omega arith, (λ e. omega arith, tt)))) ne_head

-- The public address 1.1.1.1 is written `p`, and the resolver gives it for any other host.
abbrev world : World
world = record {
  ssrf_guard_enabled = true;
  ip_address = λ s. elim s [
    | [] ↦ none
    | ◌∷◌ c rest ↦ elim rest [ [] ↦ some (v4 (c * 0x1010101)) | ◌∷◌ d more ↦ none ]
  ];
  str = λ ip. 1 ∷ [];
  is_global = λ ip. true;
  getaddrinfo = λ host port. some ((1 ∷ []) ∷ []);
}

abbrev request : Request
request = record {
  method = codes "GET";
  url = record {
    scheme = codes "https";
    raw_host = some (codes "example.org");
    port = none;
    rest = codes "/";
  };
  headers = [];
  stream = [];
  extensions = [];
}

abbrev fresh : Instance
fresh = record { db = db; statuses = []; last_ingest = none; pending = [] }

abbrev since : Instance
since = wipe_begin (codes "c") (pos 5) fresh

wipe_is_challenged_example :
    Untouched since (wipe_confirm (λ s. s) (some (codes "c")) (pos 9) since)
    ⊎ ((t : Instant) × Memᴰ {A = Text × Instant} (codes "c", t) ((codes "c", pos 5) ∷ [])
        × (pos 9 ≤ℤ t +ℤ wipe_ttl)
        × Wiped (codes "c") since (wipe_confirm (λ s. s) (some (codes "c")) (pos 9) since))
wipe_is_challenged_example =
    wipe_is_challenged (λ s. s) ((codes "c", pos 5) ∷ []) since (some (codes "c")) (pos 9)
      (begun fresh (codes "c") (pos 5) (started fresh refl))

-- A loopback peer with a bearer token.
abbrev guard_world : Security.World
guard_world = record {
  debug_allowed_cidrs = none;
  in_docker = false;
  strip = λ s. s;
  ip_address = λ s. some (v4 1);
  ip_network = λ s. none;
  is_loopback = λ ip. true;
  sha256 = λ s. s;
}

abbrev call : Security.Request
call = record { ip_addr = some (codes "1"); cookie = none; authorization = some (codes "Bearer t") }

abbrev token_db : Db
token_db = record empty_db {
  api_tokens =
      record { token_hash = codes "t"; user_id = 1; label = codes "l"; created_at = pos 0 } ∷ [];
}

call_passes : (session_guard guard_world (pos 9) call token_db).1 ≡ none
unfolding session_guard is_debug_allowed authenticated_user cookie_value cookie_in behind split
    before bearer removed_prefix validate_session validate_api_token get_row any list_beq
call_passes = refl

session_guard-Admits_example :
    ((is_debug_allowed guard_world call.ip_addr ≡ false)
      × (session_guard guard_world (pos 9) call token_db ≡ (token_db, some 404)))
    ⊎ ((is_debug_allowed guard_world call.ip_addr ≡ true)
        × ((session_guard guard_world (pos 9) call token_db).1 ≡ some 401))
    ⊎ ((is_debug_allowed guard_world call.ip_addr ≡ true)
        × ((session_guard guard_world (pos 9) call token_db).1 ≡ none)
        × Admits guard_world (pos 9) call token_db)
session_guard-Admits_example = session_guard-Admits guard_world (pos 9) call token_db
