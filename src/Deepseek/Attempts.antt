-- ===== src/Deepseek/Attempts.antt =====
-- How many requests a chat makes, and what it returns.
use ripcale_backend.Prelude.{
  ℕ, zero, suc, ◌+◌, ◌<◌, ◌≤◌, ◌≡◌, ◌≢◌, ◌⊎◌, refl, ◌∙◌, [], ◌∷◌, Option, none, some, Text, codes,
  arith, ap, Bool-cases, inl, inr, leb, false,
}
use native.Mathlib.Decide.{ℕ_discrete}
use ripcale_backend.Deepseek.{
  Reply, reply, transient, permanent, Outcome, request_error, response, settled, is_retried,
  attempts, chat,
}

-- A failure that may pass: no response, or one of five statuses.
abbrev pub IsTransient : Outcome → Type 0
IsTransient request_error = Unit
IsTransient (response status text) =
    (status ≡ 429) ⊎ (status ≡ 500) ⊎ (status ≡ 502) ⊎ (status ≡ 503) ⊎ (status ≡ 504)

-- What the caller is to get for an outcome that is no such failure: the content, or an exception
-- that is not for retrying where the status is an error or there is no content.
abbrev pub Answers : Outcome → Reply (Option Text) → Type 0
Answers request_error answer = ⊥
Answers (response status (some text)) answer =
    (400 ≤ status → (m : Text) × (answer ≡ permanent m)) × (status < 400 → answer ≡ reply text)
Answers (response status none) answer = (m : Text) × (answer ≡ permanent m)

settled_transient : (o : Outcome) → IsTransient o → settled o ≡ none
unfolding settled
settled_transient request_error h = refl
settled_transient (response status text) h = ground arith

not_retried :
    (status : ℕ) (text : Option (Option Text))
    → (¬ IsTransient (response status text))
    → is_retried status ≡ false
not_retried status text h = ground arith

settled_answer :
    (o : Outcome)
    → (¬ IsTransient o)
    → (answer : Reply (Option Text)) × (settled o ≡ some answer) × Answers o answer
unfolding settled
settled_answer request_error h = absurd (h tt)
settled_answer (response status none) h = elim (Bool-cases (leb 400 status)) [
  | inl failed ↦ rw (not_retried status none h, failed) (_, refl, (_, refl))
  | inr fine ↦ rw (not_retried status none h, fine) (_, refl, (_, refl))
]
settled_answer (response status (some text)) h = elim (Bool-cases (leb 400 status)) [
  | inl failed ↦
      rw (not_retried status (some text) h, failed)
        (_, refl, ((λ l. (_, refl)), (λ l. absurd (ground arith))))
  | inr fine ↦
      rw (not_retried status (some text) h, fine)
        (_, refl, ((λ l. absurd (ground arith)), (λ l. refl)))
]

attempts_goes_on :
    (post : ℕ → Outcome) (k left : ℕ)
    → settled (post k) ≡ none
    → attempts post k (suc left) ≡ attempts post (suc k) left
unfolding attempts
attempts_goes_on post k left h = ground arith

attempts_stops :
    (post : ℕ → Outcome) (k left : ℕ) (answer : Reply (Option Text))
    → settled (post k) ≡ some answer
    → attempts post k (suc left) ≡ (answer, suc k)
unfolding attempts
attempts_stops post k left answer h = ground arith

attempts_first :
    (post : ℕ → Outcome) (k n left : ℕ) (answer : Reply (Option Text))
    → k ≤ n
    → n < k + left
    → ((j : ℕ) → k ≤ j → j < n → settled (post j) ≡ none)
    → settled (post n) ≡ some answer
    → attempts post k left ≡ (answer, suc n)
unfolding attempts
attempts_first post k n zero answer le less before at = absurd (omega arith)
attempts_first post k n (suc left) answer le less before at = elim (ℕ_discrete k n) [
  | yes here ↦ rw here (attempts_stops post n left answer at)
  | no later ↦
      attempts_goes_on post k left (before k (omega arith) (omega arith))
      ∙ (attempts_first post (suc k) n left answer (omega arith) (omega arith)
          (λ j h l. before j (omega arith) l) at)
]

attempts_none :
    (post : ℕ → Outcome) (k left : ℕ)
    → ((j : ℕ) → k ≤ j → j < k + left → settled (post j) ≡ none)
    → attempts post k left ≡ (transient (codes "DeepSeek request failed"), k + left)
unfolding attempts
attempts_none post k zero h =
    ap (λ n. (transient (codes "DeepSeek request failed"), n)) (omega arith)
attempts_none post k (suc left) h =
    attempts_goes_on post k left (h k (omega arith) (omega arith))
    ∙ (attempts_none post (suc k) left (λ j a b. h j (omega arith) (omega arith)))
    ∙ ap (λ n. (transient (codes "DeepSeek request failed"), n)) (omega arith)

-- With a key, a chat whose first requests fail in a way that may pass, and which are less than
-- three, makes one request more, and returns what that one comes to; where the first three fail so,
-- it makes no other and ends with a transient failure.
pub chat_first :
    (key : Text) (post : ℕ → Outcome)
    → key ≢ []
    → ((n : ℕ)
        → n < 3
        → ((j : ℕ) → j < n → IsTransient (post j))
        → (¬ IsTransient (post n))
        → Answers (post n) (chat key post).0 × ((chat key post).1 ≡ suc n))
      × (((j : ℕ) → j < 3 → IsTransient (post j))
          → chat key post ≡ (transient (codes "DeepSeek request failed"), 3))
unfolding chat
chat_first [] post h = absurd (h refl)
chat_first (c ∷ key) post h = (
  λ n less before at.
      let (answer, e, good) = settled_answer (post n) at in
      rw
        (attempts_first post 0 n 3 answer (omega arith) less
          (λ j a b. settled_transient (post j) (before j b)) e)
        (good, refl),
  λ all. attempts_none post 0 3 (λ j a b. settled_transient (post j) (all j b)),
)
