-- ===== src/Gate/Spelling.antt =====
-- Sources that spell one version differently report it under one key.
use changelogue.Prelude.{ℕ, ◌≡◌, refl, sym, ◌∙◌, false, none, List, [], ◌∷◌, Bytes, ◌==◌, arith}
use changelogue.Text.{to_lower, lower_byte, trim_prefix}
use changelogue.Text.Cut.{trim_prefix_self}
use changelogue.Models.{VersionMapping}
use changelogue.Gate.Version.{
  Submatcher, default_version, find_mapping, normalize_version, normalize_version_for_source,
}

trim_prefix_other : (p c : ℕ) (s : Bytes) → (c == p) ≡ false → trim_prefix p (c ∷ s) ≡ c ∷ s
unfolding trim_prefix
trim_prefix_other p c s h = ground (arith, h)

module _ (c : ℕ) (s : Bytes) (not_v : (c == b'v') ≡ false) (not_upper_v : (c == b'V') ≡ false) where
  default_version-bare : default_version (c ∷ s) ≡ to_lower (c ∷ s)
  unfolding default_version
  default_version-bare =
      rw (trim_prefix_other b'v' c s not_v, trim_prefix_other b'V' c s not_upper_v)

  default_version-v : default_version (b'v' ∷ c ∷ s) ≡ to_lower (c ∷ s)
  unfolding default_version
  default_version-v = rw (trim_prefix_self b'v' (c ∷ s), trim_prefix_other b'V' c s not_upper_v)

  default_version-upper_v : default_version (b'V' ∷ c ∷ s) ≡ to_lower (c ∷ s)
  unfolding default_version
  default_version-upper_v =
      rw (trim_prefix_other b'v' b'V' (c ∷ s) refl, trim_prefix_self b'V' (c ∷ s))

lower_byte_twice : (b : ℕ) → lower_byte (lower_byte b) ≡ lower_byte b
unfolding lower_byte
lower_byte_twice b = ground arith

to_lower_twice : (s : Bytes) → to_lower (to_lower s) ≡ to_lower s
unfolding to_lower
to_lower_twice [] = refl
to_lower_twice (b ∷ bs) = rw (lower_byte_twice b, to_lower_twice bs)

lower_byte-ne-upper_v : (c : ℕ) → (lower_byte c == b'V') ≡ false
unfolding lower_byte
lower_byte-ne-upper_v c = ground arith

lower_byte-ne-v :
    (c : ℕ) → (c == b'v') ≡ false → (c == b'V') ≡ false → (lower_byte c == b'v') ≡ false
unfolding lower_byte
lower_byte-ne-v c not_v not_upper_v = ground arith

default_version-lowered :
    (c : ℕ) (s : Bytes)
    → (c == b'v') ≡ false
    → (c == b'V') ≡ false
    → default_version (b'v' ∷ to_lower (c ∷ s)) ≡ to_lower (c ∷ s)
unfolding to_lower
default_version-lowered c s not_v not_upper_v =
    default_version-v (lower_byte c) (to_lower s) (lower_byte-ne-v c not_v not_upper_v)
      (lower_byte-ne-upper_v c)
    ∙ to_lower_twice (c ∷ s)

-- For a version text that does not itself start with a v or a V, reported by sources without a
-- mapping: the text, the text after a v, the text after a V, and the text in lower case after a v
-- are one version of the gate.
pub spellings_agree :
    (submatch : Submatcher) (mappings : List (ℕ × VersionMapping)) (source other c : ℕ) (s : Bytes)
    → find_mapping source mappings ≡ none
    → find_mapping other mappings ≡ none
    → (c == b'v') ≡ false
    → (c == b'V') ≡ false
    → (normalize_version_for_source submatch (b'v' ∷ c ∷ s) source mappings
        ≡ normalize_version_for_source submatch (c ∷ s) other mappings)
      × (normalize_version_for_source submatch (b'V' ∷ c ∷ s) source mappings
          ≡ normalize_version_for_source submatch (c ∷ s) other mappings)
      × (normalize_version_for_source submatch (b'v' ∷ to_lower (c ∷ s)) source mappings
          ≡ normalize_version_for_source submatch (c ∷ s) other mappings)
unfolding normalize_version_for_source normalize_version
spellings_agree submatch mappings source other c s none_here none_there not_v not_upper_v =
    rw (none_here, none_there)
      (
        default_version-v c s not_v not_upper_v ∙ sym (default_version-bare c s not_v not_upper_v),
        default_version-upper_v c s not_v not_upper_v
            ∙ sym (default_version-bare c s not_v not_upper_v),
        default_version-lowered c s not_v not_upper_v
            ∙ sym (default_version-bare c s not_v not_upper_v),
      )
