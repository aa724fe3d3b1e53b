-- ===== src/Auth/Allowlist.antt =====
-- internal/auth/allowlist.go: who may log in.
pub mod Names
use changelogue.Prelude.{
  Bool, true, false, ◌||◌, not, List, [], ◌∷◌, Bytes, if◌then◌else◌, same, is_empty,
}
use changelogue.Text.{to_lower, split, trim_space}

-- The keys of the two maps.
pub record Allowlist : Type 0 where
  pub users : List Bytes
  pub orgs : List Bytes

-- The loop of NewAllowlist over one comma-separated list.
unfoldable pub entries : List Bytes → List Bytes
unfolding to_lower trim_space
entries [] = []
entries (part ∷ parts) =
    let rest = entries parts in
    let name = trim_space (to_lower part) in if is_empty name then rest else name ∷ rest

unfoldable pub new_allowlist : Bytes → Bytes → Allowlist
unfolding entries split
new_allowlist users orgs = record {
  users = entries (split b',' users);
  orgs = entries (split b',' orgs);
}

abbrev pub has_entries : Allowlist → Bool
has_entries a = not (is_empty a.users) || not (is_empty a.orgs)

unfoldable pub listed : Bytes → List Bytes → Bool
unfolding same
listed name [] = false
listed name (n ∷ ns) = same n name || listed name ns

unfoldable pub any_listed : List Bytes → List Bytes → Bool
unfolding listed to_lower
any_listed [] orgs = false
any_listed (o ∷ os) orgs = listed (to_lower o) orgs || any_listed os orgs

unfoldable pub is_user_allowed : Allowlist → Bytes → List Bytes → Bool
unfolding listed to_lower any_listed
is_user_allowed a login org_logins = listed (to_lower login) a.users || any_listed org_logins a.orgs
