-- ===== src/Tests/Rules.antt =====
-- Slugs, ids, listings, and `UNTIL` in the forms that services/recurrence.py names.
use ripcale_backend.Prelude.{◌≡◌, refl, codes, []}
use ripcale_backend.Identity.{stable_id}
use ripcale_backend.Identity.Keys.{stable_id_collides}
use ripcale_backend.Tests.Samples.{platform, event}
use ripcale_backend.Recurrence.{normalize_until}

iso_datetime :
    normalize_until (codes "FREQ=DAILY;UNTIL=2024-01-29T00:00:00Z;BYDAY=MO")
    ≡ codes "FREQ=DAILY;UNTIL=20240129T000000;BYDAY=MO"
unfolding normalize_until
iso_datetime = refl

compact_zulu : normalize_until (codes "until=20240129T000000Z") ≡ codes "until=20240129T000000"
unfolding normalize_until
compact_zulu = refl

date_only : normalize_until (codes "UNTIL=2024-01-29") ≡ codes "UNTIL=20240129"
unfolding normalize_until
date_only = refl

stable_id_collides_example :
    stable_id platform (codes "club:east") (event (codes "7") (codes "A"))
    ≡ stable_id platform (codes "club") (event (codes "east:7") (codes "B"))
stable_id_collides_example =
    stable_id_collides platform (codes "club") (codes "ast") (event (codes "7") (codes "A"))
      (event (codes "east:7") (codes "B")) b'7' b'e' [] refl refl refl
