-- ===== src/Agent/Report/Fences.antt =====
-- parseReport of internal/agent/orchestrator.go on a report in a Markdown code fence.
use mathlib.Core.List.{append_assoc}
use changelogue.Prelude.{
  ◌≡◌, refl, ap, sym, ◌∙◌, Bool, true, false, ◌&&◌, some, [], ◌∷◌, ◌++◌, Bytes, is_empty,
  Bool-cases, inl, inr,
}
use changelogue.Text.{has_prefix, is_space, trim_left, trim_right, trim_space}
use changelogue.Text.Cut.{Lacks, cut-append}
use changelogue.Agent.Report.{
  ReadReport, fence, drop_line, before_last, drop_fence, clean, checked, parse_report,
}

-- The text between an opening fence, with the name of a language, and a closing one.
unfoldable pub fenced : Bytes → Bytes → Bytes
fenced language body = fence ++ (language ++ 10 ∷ (body ++ 10 ∷ fence))

is_empty-append : (s t : Bytes) → is_empty t ≡ false → is_empty (s ++ t) ≡ false
is_empty-append [] t solid = solid
is_empty-append (x ∷ s) t solid = refl

and_false : (b : Bool) → (b && false) ≡ false
and_false true = refl
and_false false = refl

trim_right-append :
    (s t : Bytes) → is_empty t ≡ false → trim_right t ≡ t → trim_right (s ++ t) ≡ s ++ t
unfolding trim_right
trim_right-append [] t solid h = h
trim_right-append (x ∷ s) t solid h =
    rw (trim_right-append s t solid h, is_empty-append s t solid, and_false (is_space x)) refl

trim_right_space : (s : Bytes) → trim_right (s ++ 10 ∷ []) ≡ trim_right s
unfolding trim_right
trim_right_space [] = refl
trim_right_space (x ∷ s) = rw (trim_right_space s) refl

trim_space_space : (s : Bytes) → trim_right (trim_left (s ++ 10 ∷ [])) ≡ trim_right (trim_left s)
unfolding trim_left
trim_space_space [] = refl
trim_space_space (x ∷ s) = elim (Bool-cases (is_space x)) [
  | inl hit ↦ rw (hit) (trim_space_space s)
  | inr miss ↦ rw (miss) (trim_right_space (x ∷ s))
]

before_last-fence : (s : Bytes) → before_last fence (s ++ fence) ≡ some s
unfolding before_last
before_last-fence [] = refl
before_last-fence (x ∷ s) = rw (before_last-fence s) refl

drop_line-fenced :
    (language body : Bytes)
    → Lacks 10 language
    → drop_line (fenced language body) ≡ body ++ 10 ∷ fence
unfolding drop_line fenced
drop_line-fenced language body h =
    rw (cut-append 10 (fence ++ language) (body ++ 10 ∷ fence) (refl, (refl, (refl, h)))) refl

trim_space-fenced :
    (language body : Bytes) → trim_space (fenced language body) ≡ fenced language body
unfolding trim_space trim_left fenced
trim_space-fenced language body =
    trim_right-append fence (language ++ 10 ∷ (body ++ 10 ∷ fence))
      (is_empty-append language (10 ∷ (body ++ 10 ∷ fence)) refl)
      (trim_right-append language (10 ∷ (body ++ 10 ∷ fence)) refl
        (trim_right-append (10 ∷ body) (10 ∷ fence) refl refl))

drop_fence-body : (body : Bytes) → drop_fence (body ++ 10 ∷ fence) ≡ body ++ 10 ∷ []
unfolding drop_fence
drop_fence-body body =
    rw (sym (append_assoc body (10 ∷ []) fence), before_last-fence (body ++ 10 ∷ [])) refl

has_prefix-fenced : (language body : Bytes) → has_prefix fence (fenced language body) ≡ true
unfolding has_prefix fenced
has_prefix-fenced language body = refl

clean-fenced :
    (language body : Bytes) → Lacks 10 language → clean (fenced language body) ≡ trim_space body
unfolding clean trim_space
clean-fenced language body h =
    rw
      (
        trim_space-fenced language body,
        has_prefix-fenced language body,
        drop_line-fenced language body h,
        drop_fence-body body,
      )
      (trim_space_space body)

clean_bare :
    (body : Bytes) → has_prefix fence (trim_space body) ≡ false → clean body ≡ trim_space body
unfolding clean
clean_bare body bare = rw (bare) refl

-- A report that stands in a code fence, with the name of a language or without, is read as the same
-- report without the fence, whatever backquotes it holds itself, where the bare report does not start
-- with a fence of its own.
pub parse_report-fenced :
    (read : ReadReport) (language body : Bytes)
    → Lacks 10 language
    → has_prefix fence (trim_space body) ≡ false
    → parse_report read (fenced language body) ≡ parse_report read body
unfolding parse_report
parse_report-fenced read language body h bare =
    ap (λ text. checked (read text)) (clean-fenced language body h ∙ sym (clean_bare body bare))
