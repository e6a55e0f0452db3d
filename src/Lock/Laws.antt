-- ===== src/Lock/Laws.antt =====
-- When the lock is taken, kept and given back, with one process at a time in `acquire`.
use ripcale_backend.Prelude.{◌≡◌, refl, true, false, none, some, arith}
use ripcale_backend.Prelude.Int.{◌+ℤ◌, ◌≤ℤ◌, ◌<ℤ◌, -ℤ_parts, +ℤ_parts}
use ripcale_backend.Schema.{Instant}
use ripcale_backend.Settings.{Settings}
use ripcale_backend.Lock.{LockFile, stale_timeout, release, acquire}

-- A held lock that is not older than the timeout is not taken, and its file stays as it is; an older
-- one is taken, and its file is new.
pub acquire_held :
    (settings : Settings) (now mtime : Instant)
    → ((now ≤ℤ mtime +ℤ stale_timeout settings)
        → acquire settings now (some mtime) ≡ (some mtime, false))
      × ((mtime +ℤ stale_timeout settings <ℤ now)
          → acquire settings now (some mtime) ≡ (some now, true))
unfolding acquire
acquire_held settings now mtime = (
  (λ h. ground (arith, -ℤ_parts now mtime, +ℤ_parts mtime (stale_timeout settings))),
  (λ h. ground (arith, -ℤ_parts now mtime, +ℤ_parts mtime (stale_timeout settings))),
)

pub release-none : (file : LockFile) → release file ≡ none
unfolding release
release-none file = refl

acquire_makes :
    (settings : Settings) (now : Instant) (file held : LockFile)
    → acquire settings now file ≡ (held, true)
    → held ≡ some now
unfolding acquire
acquire_makes settings now none held h = ground arith
acquire_makes settings now (some mtime) held h = ground arith

-- After a successful `acquire` no other succeeds within the timeout, and after `release` the next
-- one does.
pub acquire_excludes :
    (settings : Settings) (now later : Instant) (file held : LockFile)
    → acquire settings now file ≡ (held, true)
    → later ≤ℤ now +ℤ stale_timeout settings
    → (acquire settings later held ≡ (held, false))
      × (acquire settings later (release held) ≡ (some later, true))
acquire_excludes settings now later file held taken soon =
    let made : held ≡ some now = acquire_makes settings now file held taken in
    rw made ((acquire_held settings later now).0 soon, unfold acquire in refl)
