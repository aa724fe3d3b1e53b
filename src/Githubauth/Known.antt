-- ===== src/Githubauth/Known.antt =====
-- internal/githubauth/app_provider.go: what is known of the caches, and the token of an installation.
use mathlib.Core.Path.{subst}
use changelogue.Prelude.{
  ℕ, ◌+◌, ◌≡◌, refl, true, Option, none, some, List, [], ◌∷◌, Bytes, ltb, ◌==◌, is_empty, All,
  Bool-cases, inl, inr, ==_iff,
}
use changelogue.Githubauth.{
  TokenError, Reply, got, failed, CachedToken, AppTokenProvider, Remote, jwt, find_token, repo_key,
  token_body, token_answer, ask_token, unless_live, installation_token,
}

-- `Issued id t`: GitHub gave out the token `t` for the installation `id`. `Installed key id`: `id` is the
-- installation of the repository `key`, by GitHub's word or by the configuration.
module _ (Issued : ℕ → CachedToken → Type 0) (Installed : Bytes → ℕ → Type 0) where
  abbrev pub IsGiven : ℕ → Option (ℕ × Option CachedToken) → Type 0
  IsGiven id none = Unit
  IsGiven id (some (status, none)) = Unit
  IsGiven id (some (status, some t)) = Issued id t

  abbrev pub IsNamed : Bytes → Option (ℕ × Option ℕ) → Type 0
  IsNamed key none = Unit
  IsNamed key (some (status, none)) = Unit
  IsNamed key (some (status, some id)) = Installed key id

  -- The tokens that GitHub answers with, it has issued, and the installations that it names are those
  -- of the repositories.
  pub record Answers (remote : Remote) : Type 0 where
    pub issues : (signed : Bytes) (id : ℕ) → IsGiven id (remote.new_token signed id)
    pub names :
        (signed owner repo : Bytes)
        → IsNamed (repo_key owner repo) (remote.installation signed owner repo)

  -- What the caches hold is so; the default installation, if one is set, is every repository's.
  pub record AreKnown (p : AppTokenProvider) : Type 0 where
    pub tokens : All (λ (e : ℕ × CachedToken). Issued e.0 e.1) p.tokens
    pub installations : All (λ (e : Bytes × ℕ). Installed e.0 e.1) p.installations
    pub default :
        ltb 0 p.default_installation_id ≡ true
        → (key : Bytes) → Installed key p.default_installation_id

  -- The text of a token that was issued for the installation, and that this call obtained, or that
  -- lives for over a minute.
  pub data IsUsable (remote : Remote) (now id : ℕ) : Bytes → Type 0 where
    fresh :
        (t : CachedToken) (signed : Bytes) (status : ℕ)
        → Issued id t
        → remote.new_token signed id ≡ some (status, some t)
        → IsUsable remote now id t.token
    cached :
        (t : CachedToken)
        → Issued id t
        → ltb (now + 60) t.expires_at ≡ true
        → IsUsable remote now id t.token

  abbrev pub ServedFor : Remote → ℕ → ℕ → Reply Bytes × AppTokenProvider → Type 0
  ServedFor remote now id (failed e, p) = AreKnown p
  ServedFor remote now id (got token, p) = AreKnown p × IsUsable remote now id token

  body-ServedFor :
      (remote : Remote) (now id : ℕ) (p : AppTokenProvider) (e : Option TokenError)
      (t : CachedToken)
      → AreKnown p
      → Issued id t
      → IsUsable remote now id t.token
      → ServedFor remote now id (token_body id p e (some t))
  body-ServedFor remote now id p (some e) t h i u = h
  body-ServedFor remote now id p none t h i u = elim (Bool-cases (is_empty t.token)) [
    | inl blank ↦ rw (blank) h
    | inr solid ↦
        rw (solid) (
          record { tokens = (i, h.tokens); installations = h.installations; default = h.default },
          u,
        )
  ]

  no_body-ServedFor :
      (remote : Remote) (now id : ℕ) (p : AppTokenProvider) (e : Option TokenError)
      → AreKnown p
      → ServedFor remote now id (token_body id p e none)
  no_body-ServedFor remote now id p (some e) h = h
  no_body-ServedFor remote now id p none h = h

  answer-ServedFor :
      (remote : Remote) (now id : ℕ) (p : AppTokenProvider) (signed : Bytes)
      (o : Option (ℕ × Option CachedToken))
      → AreKnown p
      → IsGiven id o
      → remote.new_token signed id ≡ o
      → ServedFor remote now id (token_answer id p o)
  answer-ServedFor remote now id p signed none h i e = h
  answer-ServedFor remote now id p signed (some (status, none)) h i e =
      no_body-ServedFor remote now id p _ h
  answer-ServedFor remote now id p signed (some (status, some t)) h i e =
      body-ServedFor remote now id p _ t h i (fresh t signed status i e)

  ask-ServedFor :
      (remote : Remote) (now id : ℕ) (p : AppTokenProvider) (o : Option Bytes)
      → Answers remote
      → AreKnown p
      → ServedFor remote now id (ask_token remote id p o)
  ask-ServedFor remote now id p none answers h = h
  ask-ServedFor remote now id p (some signed) answers h =
      answer-ServedFor remote now id p signed (remote.new_token signed id) h
        (answers.issues signed id) refl

  abbrev IsIssued : ℕ → Option CachedToken → Type 0
  IsIssued id none = Unit
  IsIssued id (some t) = Issued id t

  find_token-IsIssued :
      (id : ℕ) (ts : List (ℕ × CachedToken))
      → All (λ (e : ℕ × CachedToken). Issued e.0 e.1) ts
      → IsIssued id (find_token id ts)
  unfolding find_token
  find_token-IsIssued id [] h = tt
  find_token-IsIssued id ((i, t) ∷ ts) h = elim (Bool-cases (i == id)) [
    | inl hit ↦ rw (hit) (subst (λ j. Issued j t) ((==_iff i id).0 hit) h.0)
    | inr miss ↦ rw (miss) (find_token-IsIssued id ts h.1)
  ]

  live-ServedFor :
      (remote : Remote) (now id : ℕ) (p : AppTokenProvider) (o : Option CachedToken)
      → Answers remote
      → AreKnown p
      → IsIssued id o
      → ServedFor remote now id (unless_live remote now id p o)
  live-ServedFor remote now id p none answers h i =
      ask-ServedFor remote now id p (jwt remote now p) answers h
  live-ServedFor remote now id p (some t) answers h i =
      elim (Bool-cases (ltb (now + 60) t.expires_at)) [
        | inl live ↦ rw (live) (h, cached t i live)
        | inr late ↦ rw (late) (ask-ServedFor remote now id p (jwt remote now p) answers h)
      ]

  pub token-ServedFor :
      (remote : Remote) (now id : ℕ) (p : AppTokenProvider)
      → Answers remote
      → AreKnown p
      → ServedFor remote now id (installation_token remote now id p)
  unfolding installation_token
  token-ServedFor remote now id p answers h =
      live-ServedFor remote now id p (find_token id p.tokens) answers h
        (find_token-IsIssued id p.tokens h.tokens)
