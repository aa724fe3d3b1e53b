-- ===== src/Githubauth/Tokens.antt =====
-- The token cache of internal/githubauth/app_provider.go over many calls.
use mathlib.Core.Path.{subst}
use changelogue.Prelude.{
  ℕ, Option, none, some, List, [], ◌∷◌, Bytes, ltb, ◌==◌, All, same, same_iff, Bool-cases, inl, inr,
}
use changelogue.Githubauth.{
  TokenError, Reply, got, failed, CachedToken, AppTokenProvider, Remote, configured, jwt,
  find_installation, repo_key, installation_body, installation_answer, ask_installation,
  unless_known, installation_id_for_repo, installation_token, with_installation, token_for_repo,
}
use changelogue.Githubauth.Known.{IsNamed, Answers, AreKnown, IsUsable, ServedFor, token-ServedFor}

-- One call of TokenForRepo, with the GitHub that it meets.
pub record Call : Type 0 where
  pub remote : Remote
  pub now : ℕ
  pub owner : Bytes
  pub repo : Bytes

abbrev pub serve : Call → AppTokenProvider → Reply Bytes × AppTokenProvider
serve c p = token_for_repo c.remote c.now c.owner c.repo p

unfoldable pub serve_all : List Call → AppTokenProvider → AppTokenProvider
serve_all [] p = p
serve_all (c ∷ cs) p = serve_all cs (serve c p).1

module _ (Issued : ℕ → CachedToken → Type 0) (Installed : Bytes → ℕ → Type 0) where
  -- A token that the repository gets is one of its installation.
  abbrev pub Served : Remote → ℕ → Bytes → Reply Bytes × AppTokenProvider → Type 0
  Served remote now key (failed e, p) = AreKnown Issued Installed p
  Served remote now key (got token, p) =
      AreKnown Issued Installed p
      × (id : ℕ) × Installed key id
      × IsUsable Issued Installed remote now id token

  -- An answer of the look-up of an installation.
  abbrev Located : Bytes → Reply ℕ × AppTokenProvider → Type 0
  Located key (failed e, p) = AreKnown Issued Installed p
  Located key (got id, p) = AreKnown Issued Installed p × Installed key id

  installation_body-Located :
      (key : Bytes) (p : AppTokenProvider) (e : Option TokenError) (id : ℕ)
      → AreKnown Issued Installed p
      → Installed key id
      → Located key (installation_body key p e (some id))
  installation_body-Located key p (some e) id h i = h
  installation_body-Located key p none id h i = elim (Bool-cases (id == 0)) [
    | inl zero_id ↦ rw (zero_id) h
    | inr other_id ↦
        rw (other_id) (
          record { tokens = h.tokens; installations = (i, h.installations); default = h.default },
          i,
        )
  ]

  no_installation-Located :
      (key : Bytes) (p : AppTokenProvider) (e : Option TokenError)
      → AreKnown Issued Installed p
      → Located key (installation_body key p e none)
  no_installation-Located key p (some e) h = h
  no_installation-Located key p none h = h

  installation_answer-Located :
      (key : Bytes) (p : AppTokenProvider) (o : Option (ℕ × Option ℕ))
      → AreKnown Issued Installed p
      → IsNamed Issued Installed key o
      → Located key (installation_answer key p o)
  installation_answer-Located key p none h i = h
  installation_answer-Located key p (some (status, none)) h i = no_installation-Located key p _ h
  installation_answer-Located key p (some (status, some id)) h i =
      installation_body-Located key p _ id h i

  ask_installation-Located :
      (remote : Remote) (owner repo : Bytes) (p : AppTokenProvider) (o : Option Bytes)
      → Answers Issued Installed remote
      → AreKnown Issued Installed p
      → Located (repo_key owner repo) (ask_installation remote owner repo p o)
  ask_installation-Located remote owner repo p none answers h = h
  ask_installation-Located remote owner repo p (some signed) answers h =
      installation_answer-Located (repo_key owner repo) p (remote.installation signed owner repo) h
        (answers.names signed owner repo)

  abbrev IsInstalled : Bytes → Option ℕ → Type 0
  IsInstalled key none = Unit
  IsInstalled key (some id) = Installed key id

  find_installation-IsInstalled :
      (key : Bytes) (rows : List (Bytes × ℕ))
      → All (λ (e : Bytes × ℕ). Installed e.0 e.1) rows
      → IsInstalled key (find_installation key rows)
  unfolding find_installation
  find_installation-IsInstalled key [] h = tt
  find_installation-IsInstalled key ((k, id) ∷ rows) h = elim (Bool-cases (same k key)) [
    | inl hit ↦ rw (hit) (subst (λ j. Installed j id) ((same_iff k key).0 hit) h.0)
    | inr miss ↦ rw (miss) (find_installation-IsInstalled key rows h.1)
  ]

  unless_known-Located :
      (remote : Remote) (now : ℕ) (owner repo : Bytes) (p : AppTokenProvider) (o : Option ℕ)
      → Answers Issued Installed remote
      → AreKnown Issued Installed p
      → IsInstalled (repo_key owner repo) o
      → Located (repo_key owner repo) (unless_known remote now owner repo p o)
  unless_known-Located remote now owner repo p (some id) answers h i = (h, i)
  unless_known-Located remote now owner repo p none answers h i =
      elim (Bool-cases (ltb 0 p.default_installation_id)) [
        | inl has ↦ rw (has) (h, h.default has (repo_key owner repo))
        | inr lacks ↦
            rw (lacks) (ask_installation-Located remote owner repo p (jwt remote now p) answers h)
      ]

  installation-Located :
      (remote : Remote) (now : ℕ) (owner repo : Bytes) (p : AppTokenProvider)
      → Answers Issued Installed remote
      → AreKnown Issued Installed p
      → Located (repo_key owner repo) (installation_id_for_repo remote now owner repo p)
  unfolding installation_id_for_repo
  installation-Located remote now owner repo p answers h =
      unless_known-Located remote now owner repo p
        (find_installation (repo_key owner repo) p.installations) answers h
        (find_installation-IsInstalled (repo_key owner repo) p.installations h.installations)

  ServedFor-Served :
      (remote : Remote) (now id : ℕ) (key : Bytes) (x : Reply Bytes × AppTokenProvider)
      → Installed key id
      → ServedFor Issued Installed remote now id x
      → Served remote now key x
  ServedFor-Served remote now id key (failed e, p) i h = h
  ServedFor-Served remote now id key (got token, p) i h = (h.0, id, i, h.1)

  with_installation-Served :
      (remote : Remote) (now : ℕ) (key : Bytes) (x : Reply ℕ × AppTokenProvider)
      → Answers Issued Installed remote
      → Located key x
      → Served remote now key (with_installation remote now x)
  with_installation-Served remote now key (failed e, p) answers h = h
  with_installation-Served remote now key (got id, p) answers h =
      ServedFor-Served remote now id key (installation_token remote now id p) h.1
        (token-ServedFor Issued Installed remote now id p answers h.0)

  serve-Served :
      (c : Call) (p : AppTokenProvider)
      → Answers Issued Installed c.remote
      → AreKnown Issued Installed p
      → Served c.remote c.now (repo_key c.owner c.repo) (serve c p)
  unfolding token_for_repo
  serve-Served c p answers h = elim (Bool-cases (configured p)) [
    | inl ready ↦ rw (ready) (
        with_installation-Served c.remote c.now (repo_key c.owner c.repo)
          (installation_id_for_repo c.remote c.now c.owner c.repo p) answers
          (installation-Located c.remote c.now c.owner c.repo p answers h))
    | inr unready ↦ rw (unready) h
  ]

  Served-AreKnown :
      (remote : Remote) (now : ℕ) (key : Bytes) (x : Reply Bytes × AppTokenProvider)
      → Served remote now key x
      → AreKnown Issued Installed x.1
  Served-AreKnown remote now key (failed e, p) h = h
  Served-AreKnown remote now key (got token, p) h = h.0

  serve_all-AreKnown :
      (cs : List Call) (p : AppTokenProvider)
      → All (λ (c : Call). Answers Issued Installed c.remote) cs
      → AreKnown Issued Installed p
      → AreKnown Issued Installed (serve_all cs p)
  unfolding serve_all
  serve_all-AreKnown [] p answers h = h
  serve_all-AreKnown (c ∷ cs) p answers h = serve_all-AreKnown cs (serve c p).1 answers.1 (
      Served-AreKnown c.remote c.now (repo_key c.owner c.repo) (serve c p)
        (serve-Served c p answers.0 h))

  -- After any calls from caches that hold issued tokens and the repositories' own installations, whatever
  -- fails in them, a call for a repository gives, where it gives a token, one that GitHub issued for
  -- that repository's installation, and that this call has obtained from it or that is valid for more
  -- than a minute still. A default installation, where one is set, counts as that of every repository.
  pub serve-IsUsable :
      (cs : List Call) (c : Call) (p : AppTokenProvider)
      → All (λ (d : Call). Answers Issued Installed d.remote) cs
      → Answers Issued Installed c.remote
      → AreKnown Issued Installed p
      → Served c.remote c.now (repo_key c.owner c.repo) (serve c (serve_all cs p))
  serve-IsUsable cs c p past answers h =
      serve-Served c (serve_all cs p) answers (serve_all-AreKnown cs p past h)
