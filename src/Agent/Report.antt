-- ===== src/Agent/Report.antt =====
-- parseReport of internal/agent/orchestrator.go.
pub mod Fences
use changelogue.Prelude.{
  ℕ, Bool, true, false, ◌&&◌, Option, none, some, List, [], ◌∷◌, Bytes, bytes, if◌then◌else◌,
  is_empty, drop,
}
use changelogue.Text.{cut, has_prefix, trim_space}

-- The text fields of models.SemanticReport, as encoding/json reads them.
pub record SemanticReport : Type 0 where
  pub subject : Bytes
  pub summary : Bytes
  -- the object as json.Marshal writes it
  pub text : Bytes

-- json.Unmarshal into a SemanticReport: a parameter.
abbrev pub ReadReport : Type 0
ReadReport = Bytes → Option SemanticReport

abbrev pub fence : Bytes
fence = bytes "```"

-- `if idx := strings.Index(cleaned, "\n"); idx != -1 { cleaned = cleaned[idx+1:] }`
abbrev past_line : Bytes → Bytes × Option Bytes → Bytes
past_line s (line, none) = s
past_line s (line, some rest) = rest

unfoldable pub drop_line : Bytes → Bytes
unfolding cut
drop_line s = past_line s (cut 10 s)

abbrev before_or : Bool → ℕ → Option Bytes → Option Bytes
before_or here x (some before) = some (x ∷ before)
before_or true x none = some []
before_or false x none = none

-- What stands before the last occurrence of `sep`, by strings.LastIndex.
unfoldable pub before_last : Bytes → Bytes → Option Bytes
unfolding has_prefix
before_last sep [] = if is_empty sep then some [] else none
before_last sep (x ∷ xs) = before_or (has_prefix sep (x ∷ xs)) x (before_last sep xs)

abbrev or_same : Bytes → Option Bytes → Bytes
or_same s none = s
or_same s (some t) = t

unfoldable pub drop_fence : Bytes → Bytes
unfolding before_last
drop_fence s = or_same s (before_last fence s)

unfoldable pub clean : Bytes → Bytes
unfolding trim_space has_prefix drop_line drop_fence
clean text =
    let cleaned = trim_space text in
    if has_prefix fence cleaned then trim_space (drop_fence (drop_line cleaned)) else cleaned

abbrev pub checked : Option SemanticReport → Option SemanticReport
checked none = none
checked (some report) =
    if is_empty report.subject && is_empty report.summary then none else some report

-- `none` is either of its errors.
unfoldable pub parse_report : ReadReport → Bytes → Option SemanticReport
unfolding clean
parse_report read text = checked (read (clean text))
