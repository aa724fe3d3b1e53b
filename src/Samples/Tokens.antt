-- ===== src/Samples/Tokens.antt =====
-- A token of a GitHub App that is asked for twice, and a list of two pages.
use changelogue.Prelude.{ℕ, ◌≡◌, refl, true, none, some, List, [], ◌∷◌, Bytes, bytes, arith, same}
use changelogue.Githubauth.{
  Reply, got, CachedToken, AppTokenProvider, Remote, repo_key, find_token, find_installation,
  token_for_repo,
}
use changelogue.Githubauth.Known.{Answers, AreKnown}
use changelogue.Githubauth.Tokens.{Call, serve, serve_all, Served, serve-IsUsable}
use changelogue.Githubauth.Lists.{collect}
use changelogue.Githubauth.Lists.Complete.{Pages, answer_of, all_items, collect-Pages}

-- The token of an installation is named after it.
abbrev hour_token : ℕ → CachedToken
hour_token id = record { token = id ∷ []; expires_at = 4600 }

abbrev remote : Remote
remote = record {
  sign = λ from to app. some app;
  installation = λ signed owner repo. some (200, some 7);
  new_token = λ signed id. some (201, some (hour_token id));
}

abbrev IsHourToken : ℕ → CachedToken → Type 0
IsHourToken id t = t ≡ hour_token id

abbrev IsSeven : Bytes → ℕ → Type 0
IsSeven key id = id ≡ 7

remote-Answers : Answers IsHourToken IsSeven remote
remote-Answers = record { issues = λ signed id. refl; names = λ signed owner repo. refl }

abbrev call_at : ℕ → Call
call_at now = record { remote = remote; now = now; owner = bytes "o"; repo = bytes "r" }

abbrev provider : AppTokenProvider
provider = record {
  app_id = bytes "1";
  has_key = true;
  default_installation_id = 0;
  installations = [];
  tokens = [];
}

provider-AreKnown : AreKnown IsHourToken IsSeven provider
provider-AreKnown = record { tokens = tt; installations = tt; default = ground arith }

serve-IsUsable_example :
    Served IsHourToken IsSeven remote 2000
      (repo_key (bytes "o") (bytes "r"))
      (serve (call_at 2000) (serve_all (call_at 1000 ∷ []) provider))
serve-IsUsable_example =
    serve-IsUsable IsHourToken IsSeven (call_at 1000 ∷ []) (call_at 2000) provider
      (remote-Answers, tt) remote-Answers provider-AreKnown

-- The second call is served from the cache.
served_from_cache : (serve (call_at 2000) (serve_all (call_at 1000 ∷ []) provider)).0 ≡ got (7 ∷ [])
unfolding serve_all token_for_repo find_token find_installation same
served_from_cache = refl

abbrev two_pages : Bytes → Reply (List ℕ × Bytes)
two_pages [] = got ([], [])
two_pages (c ∷ []) = got (1 ∷ 2 ∷ [], b'/' ∷ b'2' ∷ [])
two_pages (c ∷ d ∷ path) = got (3 ∷ [], [])

two_pages-Pages : Pages two_pages (b'/' ∷ []) ((1 ∷ 2 ∷ []) ∷ (3 ∷ []) ∷ []) none
two_pages-Pages =
    Pages.page b'/' [] (1 ∷ 2 ∷ []) (b'/' ∷ b'2' ∷ []) ((3 ∷ []) ∷ []) none refl
      (Pages.page b'/' (b'2' ∷ []) (3 ∷ []) [] [] none refl Pages.over)

collect-Pages_example :
    collect 3 two_pages [] (b'/' ∷ [])
    ≡ some (answer_of two_pages (all_items two_pages ((1 ∷ 2 ∷ []) ∷ (3 ∷ []) ∷ [])) none)
collect-Pages_example =
    collect-Pages two_pages (b'/' ∷ []) ((1 ∷ 2 ∷ []) ∷ (3 ∷ []) ∷ []) none 3 two_pages-Pages
      (omega arith)
