-- ===== src/Githubauth.antt =====
-- internal/githubauth/app_provider.go: the tokens of a GitHub App, and the lists that GitHub pages.
pub mod Known
pub mod Tokens
pub mod Lists
use changelogue.Prelude.{
  ℕ, zero, suc, ◌+◌, ◌-◌, ◌*◌, Bool, true, false, ◌&&◌, ◌||◌, not, Option, none, some, List, [],
  ◌∷◌, ◌++◌, Bytes, bytes, ltb, ◌==◌, if◌then◌else◌, is_empty, same,
}
use changelogue.Text.{has_prefix, contains_text, cut, split, trim_space}

pub data TokenError : Type 0 where
  not_configured no_installation unauthorized rate_limited other : TokenError

pub data Reply (A : Type 0) : Type 0 where
  got : A → Reply A
  failed : TokenError → Reply A

pub record CachedToken : Type 0 where
  pub token : Bytes
  pub expires_at : ℕ

-- The two maps behind the mutex, and what the provider is made with.
pub record AppTokenProvider : Type 0 where
  pub app_id : Bytes
  pub has_key : Bool
  pub default_installation_id : ℕ
  pub installations : List (Bytes × ℕ)
  pub tokens : List (ℕ × CachedToken)

-- GitHub and the signature: parameters. `sign` makes a JWT of its two times and the application;
-- an answer is a status and a body, `none` for a call that fails or a body that does not decode. A
-- missing number is 0.
pub record Remote : Type 0 where
  pub sign : ℕ → ℕ → Bytes → Option Bytes
  pub installation : Bytes → Bytes → Bytes → Option (ℕ × Option ℕ)
  pub new_token : Bytes → ℕ → Option (ℕ × Option CachedToken)

abbrev pub configured : AppTokenProvider → Bool
configured p = not (is_empty p.app_id) && p.has_key

-- jwt: from a minute ago, for ten minutes.
abbrev pub jwt : Remote → ℕ → AppTokenProvider → Option Bytes
jwt remote now p = remote.sign (now - 60) (now + 9 * 60) p.app_id

unfoldable pub find_installation : Bytes → List (Bytes × ℕ) → Option ℕ
unfolding same
find_installation key [] = none
find_installation key ((k, id) ∷ rest) = if same k key then some id else find_installation key rest

unfoldable pub find_token : ℕ → List (ℕ × CachedToken) → Option CachedToken
find_token id [] = none
find_token id ((i, t) ∷ rest) = if i == id then some t else find_token id rest

-- `p.tokens[installationID] = …`: the latest entry is the one that a lookup finds.
abbrev pub store_token : ℕ → CachedToken → AppTokenProvider → AppTokenProvider
store_token id t p = record p { tokens = (id, t) ∷ p.tokens }

abbrev pub store_installation : Bytes → ℕ → AppTokenProvider → AppTokenProvider
store_installation key id p = record p { installations = (key, id) ∷ p.installations }

abbrev pub repo_key : Bytes → Bytes → Bytes
repo_key owner repo = owner ++ b'/' ∷ repo

-- The errors of an answer's status: `found` is a status that is right.
abbrev pub refusal : (ℕ → Bool) → ℕ → Option TokenError
refusal found status =
    if status == 403 || status == 401
    then some unauthorized
    else if status == 429
    then some rate_limited
    else if found status
    then none
    else some other

abbrev lookup_refusal : ℕ → Option TokenError
lookup_refusal status =
    if status == 404 then some no_installation else refusal (λ s. s == 200) status

abbrev pub installation_body :
    Bytes → AppTokenProvider → Option TokenError → Option ℕ → Reply ℕ × AppTokenProvider
installation_body key p (some e) body = (failed e, p)
installation_body key p none none = (failed other, p)
installation_body key p none (some id) =
    if id == 0 then (failed no_installation, p) else (got id, store_installation key id p)

abbrev pub installation_answer :
    Bytes → AppTokenProvider → Option (ℕ × Option ℕ) → Reply ℕ × AppTokenProvider
installation_answer key p none = (failed other, p)
installation_answer key p (some (status, body)) =
    installation_body key p (lookup_refusal status) body

abbrev pub ask_installation :
    Remote → Bytes → Bytes → AppTokenProvider → Option Bytes → Reply ℕ × AppTokenProvider
ask_installation remote owner repo p none = (failed other, p)
ask_installation remote owner repo p (some signed) =
    installation_answer (repo_key owner repo) p (remote.installation signed owner repo)

abbrev pub unless_known :
    Remote → ℕ → Bytes → Bytes → AppTokenProvider → Option ℕ → Reply ℕ × AppTokenProvider
unless_known remote now owner repo p (some id) = (got id, p)
unless_known remote now owner repo p none =
    if ltb 0 p.default_installation_id
    then (got p.default_installation_id, p)
    else ask_installation remote owner repo p (jwt remote now p)

unfoldable pub installation_id_for_repo :
    Remote → ℕ → Bytes → Bytes → AppTokenProvider → Reply ℕ × AppTokenProvider
unfolding find_installation
installation_id_for_repo remote now owner repo p =
    unless_known remote now owner repo p (find_installation (repo_key owner repo) p.installations)

abbrev token_refusal : ℕ → Option TokenError
token_refusal status = refusal (λ s. s == 201 || s == 200) status

abbrev pub token_body :
    ℕ → AppTokenProvider → Option TokenError → Option CachedToken → Reply Bytes × AppTokenProvider
token_body id p (some e) body = (failed e, p)
token_body id p none none = (failed other, p)
token_body id p none (some t) =
    if is_empty t.token then (failed other, p) else (got t.token, store_token id t p)

abbrev pub token_answer :
    ℕ → AppTokenProvider → Option (ℕ × Option CachedToken) → Reply Bytes × AppTokenProvider
token_answer id p none = (failed other, p)
token_answer id p (some (status, body)) = token_body id p (token_refusal status) body

abbrev pub ask_token : Remote → ℕ → AppTokenProvider → Option Bytes → Reply Bytes × AppTokenProvider
ask_token remote id p none = (failed other, p)
ask_token remote id p (some signed) = token_answer id p (remote.new_token signed id)

abbrev pub unless_live :
    Remote → ℕ → ℕ → AppTokenProvider → Option CachedToken → Reply Bytes × AppTokenProvider
unless_live remote now id p none = ask_token remote id p (jwt remote now p)
unless_live remote now id p (some t) =
    if ltb (now + 60) t.expires_at
    then (got t.token, p)
    else ask_token remote id p (jwt remote now p)

unfoldable pub installation_token :
    Remote → ℕ → ℕ → AppTokenProvider → Reply Bytes × AppTokenProvider
unfolding find_token
installation_token remote now id p = unless_live remote now id p (find_token id p.tokens)

abbrev pub with_installation :
    Remote → ℕ → Reply ℕ × AppTokenProvider → Reply Bytes × AppTokenProvider
with_installation remote now (failed e, p) = (failed e, p)
with_installation remote now (got id, p) = installation_token remote now id p

-- TokenForRepo
unfoldable pub token_for_repo :
    Remote → ℕ → Bytes → Bytes → AppTokenProvider → Reply Bytes × AppTokenProvider
unfolding installation_id_for_repo installation_token
token_for_repo remote now owner repo p =
    if configured p
    then with_installation remote now (installation_id_for_repo remote now owner repo p)
    else (failed not_configured, p)
