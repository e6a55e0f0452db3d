-- ===== src/Timeutil.antt =====
-- timeutil.py: `to_utc_naive`. The stored times are naive and in UTC.
use ripcale_backend.Prelude.{◌&&◌, codes, if◌then◌else◌}
use ripcale_backend.Prelude.Int.{ℤ, pos, negsuc, ◌-ℤ◌, leb_ℤ}
use ripcale_backend.Result.{Result, ok, err, failure}
use ripcale_backend.Schema.{Instant}
use ripcale_backend.Platform.{Stamp, naive, aware}

-- `datetime.min` and `datetime.max`, in microseconds from the beginning of 1970
abbrev pub min_datetime : ℤ
min_datetime = negsuc 62135596799999999

abbrev pub max_datetime : ℤ
max_datetime = pos 253402300799999999

-- `astimezone` raises `OverflowError` where the time in UTC lies outside the years 1 to 9999.
unfoldable pub to_utc_naive : Stamp → Result Instant
to_utc_naive (naive t) = ok t
to_utc_naive (aware t offset) =
    let utc = t -ℤ offset in
    if leb_ℤ min_datetime utc && leb_ℤ utc max_datetime
    then ok utc
    else err (failure (codes "date value out of range"))
