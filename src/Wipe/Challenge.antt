-- ===== src/Wipe/Challenge.antt =====
-- The challenges of a wipe, over the requests of a running server.
use mathlib.Core.List.{Memᴰ}
use ripcale_backend.Prelude.{
  ℕ, ◌≡◌, ◌≢◌, ◌⊎◌, refl, sym, ap, ◌∙◌, arith, List, [], ◌∷◌, Option, none, some, Text, ◌==◌,
  ==_iff, nat_eq, list_eq, is_empty, lookup, remove, lookup-insert, lookup-remove, or_else,
  Bool-cases, length, inl, inr,
}
use ripcale_backend.Prelude.Int.{◌≤ℤ◌, ◌+ℤ◌, ltb_ℤ}
use ripcale_backend.Result.{Result, Error, ok, err}
use ripcale_backend.Schema.{Instant}
use ripcale_backend.Wipe.{Instance, wipe_db, wipe_all, wipe_ttl, wipe_begin, against, wipe_confirm}

-- The instances that a server comes to, with the challenges that it has given out and their times:
-- it starts without any, and between the requests of a wipe anything else may change.
pub data Reached (strip : Text → Text) : List (Text × Instant) → Instance → Type 0 where
  started : (s : Instance) → s.pending ≡ [] → Reached strip [] s
  changed :
      {issued : List (Text × Instant)} (s after : Instance)
      → Reached strip issued s
      → after.pending ≡ s.pending
      → Reached strip issued after
  begun :
      {issued : List (Text × Instant)} (s : Instance) (challenge : Text) (now : Instant)
      → Reached strip issued s
      → Reached strip ((challenge, now) ∷ issued) (wipe_begin challenge now s)
  answered :
      {issued : List (Text × Instant)} (s : Instance) (given : Option Text) (now : Instant)
      → Reached strip issued s
      → Reached strip issued (wipe_confirm strip given now s).0

-- A challenge was given out at the time that its deadline says.
abbrev Issued : List (Text × Instant) → Text → Instant → Type 0
Issued issued challenge deadline =
    (now : Instant) × Memᴰ (challenge, now) issued × (deadline ≡ now +ℤ wipe_ttl)

kept_by_remove :
    (challenge other : Text) (items : List (Text × Instant)) (deadline : Instant)
    → lookup other (remove challenge items) ≡ some deadline
    → lookup other items ≡ some deadline
kept_by_remove challenge other items deadline h =
    ground (arith, lookup-remove challenge other items)

against-pending :
    (challenge other : Text) (now deadline : Instant) (found : Option Instant) (s : Instance)
    → lookup other (against challenge now found s).0.pending ≡ some deadline
    → lookup other s.pending ≡ some deadline
unfolding wipe_all
against-pending challenge other now deadline none s h =
    kept_by_remove challenge other s.pending deadline h
against-pending challenge other now deadline (some until) s h =
    ground (arith, kept_by_remove challenge other s.pending deadline)

wipe_confirm-pending :
    (strip : Text → Text) (given : Option Text) (now : Instant) (s : Instance) (other : Text)
    (deadline : Instant)
    → lookup other (wipe_confirm strip given now s).0.pending ≡ some deadline
    → lookup other s.pending ≡ some deadline
unfolding wipe_confirm
wipe_confirm-pending strip given now s other deadline h =
    let challenge = strip (or_else given []) in
    let found = lookup challenge s.pending in
    ground (arith, against-pending challenge other now deadline found s)

pending-Issued :
    {strip : Text → Text} {issued : List (Text × Instant)} {s : Instance}
    → Reached strip issued s
    → (challenge : Text) (deadline : Instant) → lookup challenge s.pending ≡ some deadline
    → Issued issued challenge deadline
unfolding wipe_begin lookup
pending-Issued (started s none_yet) c d h =
    let e : none ≡ some d = sym (ap (lookup c) none_yet) ∙ h in cc
pending-Issued (changed s after r same) c d h = pending-Issued r c d (ap (lookup c) (sym same) ∙ h)
pending-Issued (begun s challenge now r) c d h = elim (Bool-cases (challenge == c)) [
  | inl mine ↦ (
    now,
    Memᴰ.head (cc ((==_iff challenge c).0 mine)),
    ground (arith, lookup-insert challenge c (now +ℤ wipe_ttl) s.pending),
  )
  | inr other ↦
      let (t, m, e) =
        pending-Issued r c d
          (ground (arith, lookup-insert challenge c (now +ℤ wipe_ttl) s.pending)) in
      (t, Memᴰ.tail m, e)
]
pending-Issued {strip} (answered s given now r) c d h =
    pending-Issued r c d (wipe_confirm-pending strip given now s c d h)

abbrev pub Untouched : Instance → Instance × Result (ℕ × ℕ) → Type 0
Untouched s (after, answer) =
    ((why : Error) × (answer ≡ err why))
    × (after.db ≡ s.db)
    × (after.statuses ≡ s.statuses)
    × (after.last_ingest ≡ s.last_ingest)

abbrev pub Wiped : Text → Instance → Instance × Result (ℕ × ℕ) → Type 0
Wiped challenge s (after, answer) =
    (answer ≡ ok (wipe_db s.db).1)
    × (after.db ≡ (wipe_db s.db).0)
    × (lookup challenge after.pending ≡ none)

against-cases :
    (challenge : Text) (now : Instant) (found : Option Instant) (s : Instance)
    → Untouched s (against challenge now found s)
      ⊎ ((deadline : Instant) × (found ≡ some deadline)
          × (now ≤ℤ deadline)
          × Wiped challenge s (against challenge now found s))
unfolding wipe_all
against-cases challenge now none s = inl ((_, refl), refl, refl, refl)
against-cases challenge now (some deadline) s = elim (Bool-cases (ltb_ℤ deadline now)) [
  | inl late ↦ inl (rw late ((_, refl), refl, refl, refl))
  | inr early ↦ inr (
    deadline,
    refl,
    ground arith,
    rw early (
      refl,
      refl,
      ground (arith, lookup-remove challenge challenge s.pending, ==_iff challenge challenge),
    ),
  )
]

-- On a server that has given out the challenges of a list, a request to confirm is refused and
-- leaves the database and the files as they were, or its challenge was given out at most 60 seconds
-- before, the database is wiped, and the challenge is used up.
pub wipe_is_challenged :
    (strip : Text → Text) (issued : List (Text × Instant)) (s : Instance) (given : Option Text)
    (now : Instant)
    → Reached strip issued s
    → Untouched s (wipe_confirm strip given now s)
      ⊎ ((since : Instant) × Memᴰ (strip (or_else given []), since) issued
          × (now ≤ℤ since +ℤ wipe_ttl)
          × Wiped (strip (or_else given [])) s (wipe_confirm strip given now s))
unfolding wipe_confirm
wipe_is_challenged strip issued s given now r =
    let challenge = strip (or_else given []) in
    elim (Bool-cases (is_empty challenge)) [
      | inl empty ↦ inl (rw empty ((_, refl), refl, refl, refl))
      | inr full ↦ rw full (elim (against-cases challenge now (lookup challenge s.pending) s) [
        | inl refusal ↦ inl refusal
        | inr (deadline, found, early, wiped) ↦
            let (since, m, e) = pending-Issued r challenge deadline found in
            inr (since, m, ground (arith, e), wiped)
      ])
    ]

-- A challenge without blanks around it that is confirmed in its 60 seconds wipes the database.
pub wipe_in_time :
    (strip : Text → Text) (challenge : Text) (now later : Instant) (s : Instance)
    → challenge ≢ []
    → strip challenge ≡ challenge
    → later ≤ℤ now +ℤ wipe_ttl
    → (wipe_confirm strip (some challenge) later (wipe_begin challenge now s)).1
      ≡ ok (length s.db.events, length s.db.sources)
unfolding wipe_confirm wipe_begin wipe_all wipe_db
wipe_in_time strip [] now later s h k early = absurd (h refl)
wipe_in_time strip (c ∷ t) now later s h k early = rw k (
    ground
      (arith, lookup-insert (c ∷ t) (c ∷ t) (now +ℤ wipe_ttl) s.pending, ==_iff (c ∷ t) (c ∷ t)))
