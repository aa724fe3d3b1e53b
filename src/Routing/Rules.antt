-- ===== src/Routing/Rules.antt =====
-- internal/routing/rules.go, and VersionPassesFilter of internal/routing/worker.go.
pub mod Versions
use changelogue.Prelude.{
  ℕ, Bool, true, false, ◌&&◌, ◌||◌, not, Option, none, some, List, [], ◌∷◌, Bytes, bytes, is_empty,
  if◌then◌else◌,
}
use changelogue.Text.{to_lower, trim_prefix, contains_text, split_n}
use changelogue.Text.Decimal.{ℤ, pos, lt_int, atoi}

-- regexp.MatchString: `none` is a pattern that does not compile. The engine is a parameter.
abbrev pub Matcher : Type 0
Matcher = Bytes → Bytes → Option Bool

pub record AgentRules : Type 0 where
  pub on_major_release : Bool
  pub on_minor_release : Bool
  pub on_security_patch : Bool
  pub version_pattern : Bytes
  pub wait_for_all_sources : Bool

-- The zero value of the Go struct.
abbrev pub no_rules : AgentRules
no_rules = record {
  on_major_release = false;
  on_minor_release = false;
  on_security_patch = false;
  version_pattern = [];
  wait_for_all_sources = false;
}

pub record Version : Type 0 where
  pub major : ℤ
  pub minor : ℤ
  pub patch : ℤ

abbrev first_piece : List Bytes → Bytes
first_piece [] = []
first_piece (p ∷ ps) = p

-- `strings.SplitN(parts[2], "-", 2)[0]`
abbrev patch_of : Bytes → ℤ
patch_of third = atoi (first_piece (split_n b'-' 2 third))

-- A component that is not there keeps the zero value.
version_of : List Bytes → Version
version_of [] = record { major = pos 0; minor = pos 0; patch = pos 0 }
version_of (a ∷ []) = record { major = atoi a; minor = pos 0; patch = pos 0 }
version_of (a ∷ b ∷ []) = record { major = atoi a; minor = atoi b; patch = pos 0 }
version_of (a ∷ b ∷ c ∷ _) = record { major = atoi a; minor = atoi b; patch = patch_of c }

pub parse_version : Bytes → Version
unfolding version_of
parse_version v = version_of (split_n b'.' 3 (trim_prefix b'v' v))

abbrev contains_any : Bytes → List Bytes → Bool
contains_any s [] = false
contains_any s (k ∷ ks) = contains_text s k || contains_any s ks

abbrev security_words : List Bytes
security_words = bytes "security" ∷ bytes "cve" ∷ bytes "vuln" ∷ []

pub is_security_patch : Bytes → Bool
is_security_patch version = contains_any (to_lower version) security_words

-- `matched, _ := regexp.MatchString(…)`: a bad pattern does not match.
abbrev pub matched : Option Bool → Bool
matched none = false
matched (some b) = b

unfoldable pub check_agent_rules : Matcher → Option AgentRules → Bytes → Bytes → Bool
check_agent_rules matcher none new_version previous_version = false
check_agent_rules matcher (some rules) new_version previous_version =
    let new = parse_version new_version in
    let old = parse_version previous_version in
    let newer_major = lt_int old.major new.major in
    let newer_minor = lt_int old.minor new.minor in
    if rules.on_major_release && newer_major
    then true
    else if rules.on_minor_release && (newer_major || newer_minor)
    then true
    else if rules.on_security_patch && is_security_patch new_version
    then true
    else not (is_empty rules.version_pattern) && matched (matcher rules.version_pattern new_version)

-- A filter that is nil or empty is no filter.
abbrev pub include_passes : Matcher → Option Bytes → Bytes → Bool
include_passes matcher none version = true
include_passes matcher (some []) version = true
include_passes matcher (some (p ∷ ps)) version = matched (matcher (p ∷ ps) version)

abbrev pub missed : Option Bool → Bool
missed none = false
missed (some hit) = not hit

abbrev pub exclude_passes : Matcher → Option Bytes → Bytes → Bool
exclude_passes matcher none version = true
exclude_passes matcher (some []) version = true
exclude_passes matcher (some (p ∷ ps)) version = missed (matcher (p ∷ ps) version)

unfoldable pub version_passes_filter : Matcher → Bytes → Option Bytes → Option Bytes → Bool
version_passes_filter matcher version include exclude =
    if include_passes matcher include version then exclude_passes matcher exclude version else false
