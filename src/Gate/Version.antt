-- ===== src/Gate/Version.antt =====
-- internal/gate/version.go: one spelling for the version texts of several sources.
use changelogue.Prelude.{ℕ, suc, Option, none, some, List, [], ◌∷◌, Bytes, ◌==◌, if◌then◌else◌}
use changelogue.Text.{to_lower, trim_prefix, replace_all}
use changelogue.Text.Decimal.{decimal}
use changelogue.Models.{VersionMapping}

-- regexp.Compile and FindStringSubmatch: `none` is a pattern that does not compile, `some none` a
-- text that does not match, and a match is the whole match with the groups behind it.
abbrev pub Submatcher : Type 0
Submatcher = Bytes → Bytes → Option (Option (List Bytes))

-- The loop over `matches[1:]`, from group `i` on: "$i" is replaced by the group, one after another.
unfoldable pub fill_template : ℕ → List Bytes → Bytes → Bytes
fill_template i [] result = result
fill_template i (group ∷ groups) result =
    fill_template (suc i) groups (replace_all result (b'$' ∷ decimal i) group)

-- The default: a leading v and then a leading V go, and the rest is put in lower case.
unfoldable pub default_version : Bytes → Bytes
default_version raw = to_lower (trim_prefix b'V' (trim_prefix b'v' raw))

-- An empty result falls back to the default.
abbrev pub or_default : Bytes → Bytes → Bytes
or_default raw [] = default_version raw
or_default raw (c ∷ cs) = c ∷ cs

abbrev pub from_matches : Bytes → Bytes → Option (Option (List Bytes)) → Bytes
from_matches raw template (some (some (whole ∷ group ∷ groups))) =
    or_default raw (fill_template 1 (group ∷ groups) template)
from_matches raw template _ = default_version raw

abbrev pub apply_mapping : Submatcher → Bytes → VersionMapping → Bytes → Bytes
apply_mapping submatch raw m [] = default_version raw
apply_mapping submatch raw m (c ∷ cs) = from_matches raw m.template (submatch (c ∷ cs) raw)

unfoldable pub normalize_version : Submatcher → Bytes → Option VersionMapping → Bytes
normalize_version submatch raw none = default_version raw
normalize_version submatch raw (some m) = apply_mapping submatch raw m m.pattern

-- `mappings[sourceID]`
unfoldable pub find_mapping : ℕ → List (ℕ × VersionMapping) → Option VersionMapping
find_mapping source [] = none
find_mapping source ((s, m) ∷ rest) = if s == source then some m else find_mapping source rest

unfoldable pub normalize_version_for_source :
    Submatcher → Bytes → ℕ → List (ℕ × VersionMapping) → Bytes
normalize_version_for_source submatch raw source mappings =
    normalize_version submatch raw (find_mapping source mappings)
