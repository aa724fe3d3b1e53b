-- ===== src/Http.antt =====
-- Answers to HTTP requests, as the clients of other services read them.
use changelogue.Prelude.{ℕ, Option, none, some, ◌==◌, if◌then◌else◌}
use changelogue.Exec.{Result, ok, err, external}

-- The status and the decoded body of an answer; `none` is a request that fails, or a body that does
-- not decode.
abbrev pub Answer : Type 0 → Type 0
Answer A = Option (ℕ × Option A)

abbrev pub body_or_error : {A : Type 0} → Option A → Result A
body_or_error none = err external
body_or_error (some body) = ok body

-- Any status but 200 is an error.
abbrev pub decoded : {A : Type 0} → Answer A → Result A
decoded none = err external
decoded (some (status, body)) = if status == 200 then body_or_error body else err external
