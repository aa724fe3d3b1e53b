-- ===== src/Routing/Rules/Versions.antt =====
-- How parseVersion reads versions of the usual forms, and what the agent rules then decide.
use changelogue.Prelude.{
  ℕ, ◌≤◌, ◌≡◌, false, ◌||◌, ◌&&◌, some, List, [], ◌∷◌, ◌++◌, Bytes, ltb, arith,
}
use mathlib.Core.List.{append-nil}
use changelogue.Text.{trim_prefix, split_n}
use changelogue.Text.Cut.{Lacks, cut-append, cut_lacking, trim_prefix_self, All-imp}
use changelogue.Text.Decimal.{pos, lt_int, decimal, max_int64, decimal-IsDigit, atoi-decimal}
use changelogue.Routing.Rules.{Matcher, AgentRules, parse_version, check_agent_rules}

pub Lacks-decimal : (sep n : ℕ) → sep ≤ 47 → Lacks sep (decimal n)
Lacks-decimal sep n h = All-imp (decimal n) (λ c d. ground arith) (decimal-IsDigit n)

-- "v1.2.3" or "v1.2.3-rc1": `suffix` is empty or starts at a dash.
abbrev pub release_text : ℕ → ℕ → ℕ → Bytes → Bytes
release_text a b c suffix = b'v' ∷ (decimal a ++ b'.' ∷ (decimal b ++ b'.' ∷ (decimal c ++ suffix)))

split-three :
    (a b : ℕ) (third : Bytes)
    → split_n b'.' 3 (trim_prefix b'v' (b'v' ∷ (decimal a ++ b'.' ∷ (decimal b ++ b'.' ∷ third))))
      ≡ decimal a ∷ decimal b ∷ third ∷ []
unfolding split_n
split-three a b third = rw (
  trim_prefix_self b'v' (decimal a ++ b'.' ∷ (decimal b ++ b'.' ∷ third)),
  cut-append b'.' (decimal a) (decimal b ++ b'.' ∷ third) (Lacks-decimal b'.' a (omega arith)),
  cut-append b'.' (decimal b) third (Lacks-decimal b'.' b (omega arith)),
)

-- What may follow the patch number: nothing, or a suffix that starts at a dash.
pub data Suffix : Bytes → Type 0 where
  bare : Suffix []
  dashed : (rest : Bytes) → Suffix (b'-' ∷ rest)

patch_piece :
    (c : ℕ) (suffix : Bytes)
    → Suffix suffix
    → (ps : List Bytes) × (split_n b'-' 2 (decimal c ++ suffix) ≡ decimal c ∷ ps)
unfolding split_n
patch_piece c suffix bare = (
  [],
  rw (append-nil (decimal c), cut_lacking b'-' (decimal c) (Lacks-decimal b'-' c (omega arith))),
)
patch_piece c suffix (dashed rest) =
    (rest ∷ [], rw (cut-append b'-' (decimal c) rest (Lacks-decimal b'-' c (omega arith))))

-- parseVersion reads back the three numbers of `vA.B.C` and of `vA.B.C-suffix`, where each number
-- fits a signed 64-bit integer.
pub parse_version-release_text :
    (a b c : ℕ) (suffix : Bytes)
    → a ≤ max_int64
    → b ≤ max_int64
    → c ≤ max_int64
    → Suffix suffix
    → parse_version (release_text a b c suffix)
      ≡ record { major = pos a; minor = pos b; patch = pos c }
unfolding parse_version
parse_version-release_text a b c suffix ha hb hc s =
    let (ps, e) = patch_piece c suffix s in
    rw (
      split-three a b (decimal c ++ suffix),
      e,
      atoi-decimal a ha,
      atoi-decimal b hb,
      atoi-decimal c hc,
    )

-- For releases `vA.B.C` (with or without a suffix) and rules with neither a pattern nor the security
-- option, an agent run is called for exactly when the major rule is on and the major number grew, or
-- the minor rule is on and the major or the minor number grew.
pub check_agent_rules-release_text :
    (matcher : Matcher) (rules : AgentRules) (a b c a' b' c' : ℕ) (suffix suffix' : Bytes)
    → rules.on_security_patch ≡ false
    → rules.version_pattern ≡ []
    → a ≤ max_int64
    → b ≤ max_int64
    → c ≤ max_int64
    → a' ≤ max_int64
    → b' ≤ max_int64
    → c' ≤ max_int64
    → Suffix suffix
    → Suffix suffix'
    → check_agent_rules matcher
        (some rules)
        (release_text a b c suffix)
        (release_text a' b' c' suffix')
      ≡ ((rules.on_major_release && ltb a' a) || (rules.on_minor_release && (ltb a' a || ltb b' b)))
unfolding check_agent_rules lt_int
check_agent_rules-release_text matcher rules a b c a' b' c' suffix suffix' quiet plain ha hb hc ha'
      hb' hc' s s' =
    rw
      (
        parse_version-release_text a b c suffix ha hb hc s,
        parse_version-release_text a' b' c' suffix' ha' hb' hc' s',
        quiet,
        plain,
      )
      (ground arith)
