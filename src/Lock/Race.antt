-- ===== src/Lock/Race.antt =====
-- services/lock.py run by several processes: each system call of `acquire` is one step, and the
-- steps of the processes interleave.
use ripcale_backend.Prelude.{
  ℕ, ◌≡◌, ◌≢◌, refl, sym, true, false, ◌⊎◌, inl, inr, none, some, arith, ◌==◌, ==_iff, nat_eq,
  if◌then◌else◌, ◌∙◌,
}
use ripcale_backend.Prelude.Int.{◌≤ℤ◌, ◌+ℤ◌, +ℤ_parts, -ℤ_parts}
use ripcale_backend.Schema.{Instant}
use ripcale_backend.Settings.{Settings}
use ripcale_backend.Lock.{LockFile, stale_timeout, release, create_exclusive, is_stale}

-- Where a process stands: before `os.open`, behind its `FileExistsError`, before the `unlink` of a
-- lock that it takes for stale, and behind `acquire`.
pub data Pc : Type 0 where
  opening examining unlinking holding refused : Pc

pub record State : Type 0 where
  pub file : LockFile
  pub pc : ℕ → Pc

abbrev pub set_pc : ℕ → Pc → (ℕ → Pc) → ℕ → Pc
set_pc i c pc j = if i == j then c else pc j

module _ (settings : Settings) (start : Instant) where
  -- The times from `start` on, for as long as a lock made at `start` is not stale.
  abbrev pub InWindow : Instant → Type 0
  InWindow t = (start ≤ℤ t) × (t ≤ℤ start +ℤ stale_timeout settings)

  -- One system call of process `i` at a time `t` of the window.
  pub data Step (s : State) : State → Type 0 where
    create :
        (i : ℕ) (t : Instant) (made : LockFile)
        → InWindow t
        → s.pc i ≡ opening
        → create_exclusive t s.file ≡ (made, true)
        → Step s (record { file = made; pc = set_pc i holding s.pc })
    exists :
        (i : ℕ) (t : Instant)
        → InWindow t
        → s.pc i ≡ opening
        → create_exclusive t s.file ≡ (s.file, false)
        → Step s (record { file = s.file; pc = set_pc i examining s.pc })
    find_stale :
        (i : ℕ) (t : Instant)
        → InWindow t
        → s.pc i ≡ examining
        → is_stale settings t s.file ≡ true
        → Step s (record { file = s.file; pc = set_pc i unlinking s.pc })
    find_fresh :
        (i : ℕ) (t : Instant)
        → InWindow t
        → s.pc i ≡ examining
        → is_stale settings t s.file ≡ false
        → Step s (record { file = s.file; pc = set_pc i refused s.pc })
    unlink :
        (i : ℕ)
        → s.pc i ≡ unlinking
        → Step s (record { file = release s.file; pc = set_pc i opening s.pc })

  pub data Reach (s : State) : State → Type 0 where
    here : Reach s s
    next : {t u : State} → Reach s t → Step t u → Reach s u

  abbrev pub all_opening : LockFile → State
  all_opening file = record { file = file; pc = λ _. opening }

  pub start-InWindow : InWindow start
  unfolding stale_timeout
  start-InWindow = omega (arith, +ℤ_parts start (stale_timeout settings))

  -- From a lock that is stale at `start` there are steps, all at that time, by which two
  -- processes that found it both come to hold it.
  pub stale_lock_is_taken_twice :
      (mtime : Instant)
      → is_stale settings start (some mtime) ≡ true
      → (s : State) × Reach (all_opening (some mtime)) s × (s.pc 0 ≡ holding) × (s.pc 1 ≡ holding)
  unfolding create_exclusive release
  stale_lock_is_taken_twice mtime stale =
      let w = start-InWindow in
      let r₀ : Reach (all_opening (some mtime)) (all_opening (some mtime)) = here in
      let r₁ = next r₀ (exists 0 start w refl refl) in
      let r₂ = next r₁ (exists 1 start w refl refl) in
      let r₃ = next r₂ (find_stale 0 start w refl stale) in
      let r₄ = next r₃ (find_stale 1 start w refl stale) in
      let r₅ = next r₄ (unlink 0 refl) in
      let r₆ = next r₅ (create 0 start (some start) w refl refl) in
      let r₇ = next r₆ (unlink 1 refl) in
      let r₈ = next r₇ (create 1 start (some start) w refl refl) in (_, r₈, refl, refl)

  -- The lock was made in the window, and only `owner` may hold it; nobody is about to unlink it.
  abbrev pub IsOwned : ℕ → State → Type 0
  IsOwned owner s =
      (m : Instant) × (s.file ≡ some m)
      × (start ≤ℤ m)
      × ((i : ℕ) → s.pc i ≢ unlinking)
      × ((i : ℕ) → s.pc i ≡ holding → i ≡ owner)

  abbrev pub IsSafe : State → Type 0
  IsSafe s = ((s.file ≡ none) × ((i : ℕ) → s.pc i ≡ opening)) ⊎ ((owner : ℕ) × IsOwned owner s)

  fresh-InWindow : (m t : Instant) → start ≤ℤ m → InWindow t → is_stale settings t (some m) ≡ false
  unfolding is_stale
  fresh-InWindow m t h w = ground (arith, -ℤ_parts t m, +ℤ_parts start (stale_timeout settings))

  -- What a process other than the moved one did not become, nobody became.
  set_pc_other : (i : ℕ) (c d : Pc) (pc : ℕ → Pc) (j : ℕ) → c ≢ d → set_pc i c pc j ≡ d → pc j ≡ d
  set_pc_other i c d pc j h e = ground (arith, ==_iff i j)

  set_pc_only : (i : ℕ) (c d : Pc) (pc : ℕ → Pc) (j : ℕ) → pc j ≢ d → set_pc i c pc j ≡ d → i ≡ j
  set_pc_only i c d pc j h e = ground (arith, ==_iff i j)

  opens_not : (pc : ℕ → Pc) → ((i : ℕ) → pc i ≡ opening) → (c : Pc) (j : ℕ) → opening ≢ c → pc j ≢ c
  opens_not pc h c j ne e = ne (sym (h j) ∙ e)

  -- Only `create` and `unlink` could change the holder, and neither is possible while a lock of the
  -- window is there.
  Step-IsSafe : {s t : State} → Step s t → IsSafe s → IsSafe t
  unfolding create_exclusive
  Step-IsSafe {s} (create i t made w pc e) (inl (f, h)) = inr (
    i,
    (
      t,
      ground arith,
      w.0,
      (λ j k.
          opens_not s.pc h unlinking j (λ q. ground arith)
            (set_pc_other i holding unlinking s.pc j (λ q. ground arith) k)),
      λ j k.
          sym (
            set_pc_only i holding holding s.pc j (opens_not s.pc h holding j (λ q. ground arith))
              k),
    ),
  )
  Step-IsSafe {s} (create i t made w pc e) (inr (owner, (m, f, le, u, h))) = ground arith
  Step-IsSafe {s} (exists i t w pc e) (inl (f, h)) = ground arith
  Step-IsSafe {s} (exists i t w pc e) (inr (owner, (m, f, le, u, h))) = inr (
    owner,
    (
      m,
      f,
      le,
      (λ j k. u j (set_pc_other i examining unlinking s.pc j (λ q. ground arith) k)),
      λ j k. h j (set_pc_other i examining holding s.pc j (λ q. ground arith) k),
    ),
  )
  Step-IsSafe {s} (find_stale i t w pc e) (inl (f, h)) = ground (arith, h i)
  Step-IsSafe {s} (find_stale i t w pc e) (inr (owner, (m, f, le, u, h))) =
      ground (arith, fresh-InWindow m t le w)
  Step-IsSafe {s} (find_fresh i t w pc e) (inl (f, h)) = ground (arith, h i)
  Step-IsSafe {s} (find_fresh i t w pc e) (inr (owner, (m, f, le, u, h))) = inr (
    owner,
    (
      m,
      f,
      le,
      (λ j k. u j (set_pc_other i refused unlinking s.pc j (λ q. ground arith) k)),
      λ j k. h j (set_pc_other i refused holding s.pc j (λ q. ground arith) k),
    ),
  )
  Step-IsSafe {s} (unlink i pc) (inl (f, h)) = ground (arith, h i)
  Step-IsSafe {s} (unlink i pc) (inr (owner, (m, f, le, u, h))) = absurd (u i pc)

  Reach-IsSafe : {s t : State} → IsSafe s → Reach s t → IsSafe t
  Reach-IsSafe h here = h
  Reach-IsSafe h (next r st) = Step-IsSafe st (Reach-IsSafe h r)

  -- Without a lock at the start no two processes come to hold it, however their calls of
  -- `acquire` interleave, as long as the steps fall within one timeout of the start and no
  -- holder gives it back.
  pub one_holder :
      (s : State) (i j : ℕ)
      → Reach (all_opening none) s
      → s.pc i ≡ holding
      → s.pc j ≡ holding
      → i ≡ j
  one_holder s i j r hi hj = elim (Reach-IsSafe (inl (refl, λ k. refl)) r) [
    | inl (f, h) ↦ absurd (opens_not s.pc h holding i (λ q. ground arith) hi)
    | inr (owner, (m, f, le, u, h)) ↦ h i hi ∙ sym (h j hj)
  ]
