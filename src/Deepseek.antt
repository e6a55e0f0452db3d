-- ===== src/Deepseek.antt =====
-- services/deepseek.py: a chat completion with its retries. What one request comes to is a
-- parameter, by the number of the attempt.
pub mod Attempts
use ripcale_backend.Prelude.{
  ℕ, zero, suc, Bool, ◌||◌, Option, none, some, Text, codes, leb, ◌==◌, nat_eq, if◌then◌else◌,
  is_empty,
}

-- What the caller of `chat`, and of the code around it, gets: a text, `DeepSeekTransient`, or any
-- other exception, with its message.
pub data Reply {ℓ} (A : Type ℓ) : Type ℓ where
  reply : A → Reply A
  transient : Text → Reply A
  permanent : Text → Reply A

-- `httpx.RequestError`, or a response: its status, and what `["choices"][0]["message"]["content"]`
-- of its JSON is: a text or null, and nothing where reading it raises.
pub data Outcome : Type 0 where
  request_error : Outcome
  response : ℕ → Option (Option Text) → Outcome

abbrev pub max_attempts : ℕ
max_attempts = 3

abbrev pub is_retried : ℕ → Bool
is_retried status =
    (status == 429) || (status == 500) || (status == 502) || (status == 503) || (status == 504)

-- A content of null is returned as `None`.
abbrev content : Option (Option Text) → Reply (Option Text)
content none = permanent (codes "no content")
content (some text) = reply text

-- One attempt: `none` where the loop goes on.
unfoldable pub settled : Outcome → Option (Reply (Option Text))
settled request_error = none
settled (response status text) =
    if is_retried status
    then none
    else if leb 400 status
    then some (permanent (codes "DeepSeek"))
    else some (content text)

-- `for attempt in range(_MAX_ATTEMPTS)`, with the number of requests that were made; the messages
-- of the exceptions are cut short.
unfoldable pub attempts : (ℕ → Outcome) → ℕ → ℕ → Reply (Option Text) × ℕ
attempts post attempt zero = (transient (codes "DeepSeek request failed"), attempt)
attempts post attempt (suc left) = elim (settled (post attempt)) [
  | none ↦ attempts post (suc attempt) left
  | some answer ↦ (answer, suc attempt)
]

unfoldable pub chat : Text → (ℕ → Outcome) → Reply (Option Text) × ℕ
chat key post =
    if is_empty key
    then (permanent (codes "RIPCALE_DEEPSEEK_KEY is not set"), 0)
    else attempts post 0 max_attempts
