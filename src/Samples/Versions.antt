-- ===== src/Samples/Versions.antt =====
-- Versions as the agent rules read them.
use changelogue.Prelude.{◌≡◌, refl, true, false, none, some, [], ◌∷◌, arith}
use changelogue.Text.Decimal.{pos}
use changelogue.Routing.Rules.{Matcher, AgentRules, parse_version, check_agent_rules}
use changelogue.Routing.Rules.Versions.{
  bare, dashed, release_text, parse_version-release_text, check_agent_rules-release_text,
}

parse_version-release_text_example :
    parse_version (release_text 1 20 3 (b'-' ∷ b'r' ∷ b'c' ∷ []))
    ≡ record { major = pos 1; minor = pos 20; patch = pos 3 }
parse_version-release_text_example =
    parse_version-release_text 1 20 3 (b'-' ∷ b'r' ∷ b'c' ∷ []) (omega arith) (omega arith)
      (omega arith) (dashed (b'r' ∷ b'c' ∷ []))

abbrev no_matcher : Matcher
no_matcher pattern text = none

abbrev majors : AgentRules
majors = record {
  on_major_release = true;
  on_minor_release = false;
  on_security_patch = false;
  version_pattern = [];
  wait_for_all_sources = false;
}

check_agent_rules-release_text_example :
    check_agent_rules no_matcher (some majors) (release_text 2 0 0 []) (release_text 1 9 4 [])
    ≡ true
check_agent_rules-release_text_example =
    check_agent_rules-release_text no_matcher majors 2 0 0 1 9 4 [] [] refl refl (omega arith)
      (omega arith) (omega arith) (omega arith) (omega arith) (omega arith) bare bare
