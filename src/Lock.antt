-- ===== src/Lock.antt =====
-- services/lock.py: the ingest lock, a file whose age makes it stale. The file system is the time of
-- the file's last change, or nothing where there is no file.
pub mod Laws
pub mod Race
use ripcale_backend.Prelude.{
  ℕ, zero, suc, ◌*◌, Bool, true, false, Option, none, some, ◌==◌, nat_eq, if◌then◌else◌,
}
use ripcale_backend.Prelude.Int.{ℤ, pos, ◌-ℤ◌, ltb_ℤ}
use ripcale_backend.Schema.{Instant}
use ripcale_backend.Settings.{Settings}

abbrev pub LockFile : Type 0
LockFile = Option Instant

-- `settings.ingest_interval_minutes or 60`
abbrev minutes_or_hour : Option ℕ → ℕ
minutes_or_hour none = 60
minutes_or_hour (some n) = if n == 0 then 60 else n

-- In microseconds.
unfoldable pub stale_timeout : Settings → ℤ
stale_timeout settings = pos (minutes_or_hour settings.ingest_interval_minutes * 60000000)

unfoldable pub release : LockFile → LockFile
release file = none

-- `os.open` with `O_CREAT | O_EXCL`: makes the file, unless it is there.
unfoldable pub create_exclusive : Instant → LockFile → LockFile × Bool
create_exclusive now none = (some now, true)
create_exclusive now (some mtime) = (some mtime, false)

-- The age of a file that is there is known; the race in which it vanishes before `stat` is in
-- `Lock.Race`.
unfoldable pub is_stale : Settings → Instant → LockFile → Bool
unfolding stale_timeout
is_stale settings now none = true
is_stale settings now (some mtime) = ltb_ℤ (stale_timeout settings) (now -ℤ mtime)

-- The recursion of `acquire` ends at its second call, which finds no file where no other process
-- runs; `tries` bounds it, and one more than the first is enough.
abbrev tries_of_acquire : ℕ
tries_of_acquire = 2

acquire_in : ℕ → Settings → Instant → LockFile → LockFile × Bool
unfolding create_exclusive is_stale release
acquire_in zero settings now file = (file, false)
acquire_in (suc tries) settings now file =
    let again = acquire_in tries settings now (release file) in
    let (made, done) = create_exclusive now file in
    if done then (made, true) else if is_stale settings now file then again else (file, false)

unfoldable pub acquire : Settings → Instant → LockFile → LockFile × Bool
unfolding acquire_in
acquire settings now file = acquire_in tries_of_acquire settings now file
