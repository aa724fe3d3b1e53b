-- ===== src/Releases/Wanted.antt =====
-- The lists of releases show what the notification worker lets through.
use changelogue.Prelude.{
  ℕ, ◌≡◌, refl, ap, sym, ◌∙◌, Bool, true, false, ◌&&◌, Option, none, some, List, ◌∷◌, Bytes,
  if◌then◌else◌,
}
use changelogue.Models.{Project, Source, Release}
use changelogue.Routing.Rules.{
  Matcher, matched, missed, include_passes, exclude_passes, version_passes_filter,
}
use changelogue.Routing.Store.{join}
use changelogue.Routing.Notify.{is_wanted}
use changelogue.Releases.{included, not_excluded, negate, passes}

-- A filter that is not there, or a pattern that is neither empty nor invalid.
pub data IsUsable (matcher : Matcher) (version : Bytes) : Option Bytes → Type 0 where
  missing : IsUsable matcher version none
  valid :
      (c : ℕ) (p : Bytes) (hit : Bool)
      → matcher (c ∷ p) version ≡ some hit
      → IsUsable matcher version (some (c ∷ p))

module _ (matcher : Matcher) (version : Bytes) where
  included-usable :
      (f : Option Bytes)
      → IsUsable matcher version f
      → included matcher f version ≡ some (include_passes matcher f version)
  included-usable f missing = refl
  included-usable f (valid c p hit e) = e ∙ ap (λ o. some (matched o)) (sym e)

  not_excluded-usable :
      (f : Option Bytes)
      → IsUsable matcher version f
      → not_excluded matcher f version ≡ some (exclude_passes matcher f version)
  not_excluded-usable f missing = refl
  not_excluded-usable f (valid c p hit e) = ap negate e ∙ ap (λ o. some (missed o)) (sym e)

and_as_if : (a b : Bool) → (if a then b else false) ≡ (a && b)
and_as_if true b = refl
and_as_if false b = refl

-- For a source whose version filters are absent, or valid patterns that are not empty, and where
-- PostgreSQL and Go match them alike: a release is in the lists without `include_excluded` exactly
-- when a notification job would let it through.
pub passes-is_wanted :
    (matcher : Matcher) (r : Release) (s : Source) (projects : List Project) (p : Option Project)
    → IsUsable matcher r.version s.version_filter_include
    → IsUsable matcher r.version s.version_filter_exclude
    → passes matcher (record { release = r; source = some s; project = p })
      ≡ some (is_wanted matcher s (join r (some s) projects))
unfolding passes is_wanted version_passes_filter
passes-is_wanted matcher r s projects p include exclude =
    rw
      (
        included-usable matcher r.version s.version_filter_include include,
        not_excluded-usable matcher r.version s.version_filter_exclude exclude,
        and_as_if (include_passes matcher s.version_filter_include r.version)
            (exclude_passes matcher s.version_filter_exclude r.version),
      )
      refl
