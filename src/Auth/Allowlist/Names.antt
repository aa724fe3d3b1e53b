-- ===== src/Auth/Allowlist/Names.antt =====
-- The lists of names that configure internal/auth/allowlist.go.
use changelogue.Prelude.{
  ◌≡◌, refl, ap, ◌∙◌, Bool, false, ◌&&◌, ◌||◌, not, List, [], ◌∷◌, ◌++◌, Bytes, is_empty, All, same,
  Bool-cases, inl, inr, ==_refl,
}
use changelogue.Text.{to_lower, split, trim_space}
use changelogue.Text.Cut.{Lacks}
use changelogue.Auth.Allowlist.{entries, new_allowlist, listed, any_listed, is_user_allowed}

-- One name, and the others after a comma each.
unfoldable pub comma_list : Bytes → List Bytes → Bytes
comma_list name [] = name
comma_list name (n ∷ ns) = name ++ b',' ∷ comma_list n ns

abbrev key : Bytes → Bytes
key name = trim_space (to_lower name)

-- A name of the list is the login, spaces around it and case aside.
unfoldable pub is_named : Bytes → List Bytes → Bool
is_named login [] = false
is_named login (n ∷ ns) =
    (not (is_empty (key n)) && same (key n) (to_lower login)) || is_named login ns

split_lacking : (sep : _) (a : Bytes) → Lacks sep a → split sep a ≡ a ∷ []
unfolding split
split_lacking sep [] h = refl
split_lacking sep (c ∷ a) h = rw (h.0, split_lacking sep a h.1) refl

split-append :
    (sep : _) (a rest : Bytes) → Lacks sep a → split sep (a ++ sep ∷ rest) ≡ a ∷ split sep rest
unfolding split
split-append sep [] rest h = rw (==_refl sep) refl
split-append sep (c ∷ a) rest h = rw (h.0, split-append sep a rest h.1) refl

split-comma_list :
    (name : Bytes) (names : List Bytes)
    → Lacks b',' name
    → All (Lacks b',') names
    → split b',' (comma_list name names) ≡ name ∷ names
unfolding comma_list
split-comma_list name [] h hs = split_lacking b',' name h
split-comma_list name (n ∷ ns) h hs =
    split-append b',' name (comma_list n ns) h
    ∙ ap (λ parts. name ∷ parts) (split-comma_list n ns hs.0 hs.1)

listed-entries :
    (login : Bytes) (names : List Bytes)
    → listed (to_lower login) (entries names) ≡ is_named login names
unfolding listed entries is_named
listed-entries login [] = refl
listed-entries login (n ∷ ns) = elim (Bool-cases (is_empty (key n))) [
  | inl blank ↦ rw (blank) (listed-entries login ns)
  | inr solid ↦ rw (solid, listed-entries login ns) refl
]

-- One of the user's organisations is a name of the list.
unfoldable pub any_named : List Bytes → List Bytes → Bool
any_named [] names = false
any_named (o ∷ os) names = is_named o names || any_named os names

any_listed-entries :
    (mine names : List Bytes) → any_listed mine (entries names) ≡ any_named mine names
unfolding any_listed any_named
any_listed-entries [] names = refl
any_listed-entries (o ∷ os) names = rw (listed-entries o names, any_listed-entries os names) refl

-- With a comma-separated list of users and one of organisations, a login is let in exactly where it is
-- one of the names of the first list, or one of the user's organisations is one of the second, spaces
-- around a name and case aside; an empty name of a list is nobody's.
pub is_user_allowed-comma_list :
    (name : Bytes) (names : List Bytes) (org : Bytes) (orgs : List Bytes) (login : Bytes)
    (mine : List Bytes)
    → Lacks b',' name
    → All (Lacks b',') names
    → Lacks b',' org
    → All (Lacks b',') orgs
    → is_user_allowed (new_allowlist (comma_list name names) (comma_list org orgs)) login mine
      ≡ (is_named login (name ∷ names) || any_named mine (org ∷ orgs))
unfolding is_user_allowed new_allowlist
is_user_allowed-comma_list name names org orgs login mine h hs k ks =
    rw
      (
        split-comma_list name names h hs,
        split-comma_list org orgs k ks,
        listed-entries login (name ∷ names),
        any_listed-entries mine (org ∷ orgs),
      )
      refl
