-- ===== src/Githubauth/Lists/Complete.antt =====
-- The page loops of internal/githubauth/app_provider.go end, with every page.
use mathlib.Core.List.{append_assoc, append-nil}
use changelogue.Prelude.{
  ℕ, zero, suc, ◌<◌, ◌≡◌, ◌≢◌, refl, ap, sym, ◌∙◌, Option, none, some, List, [], ◌∷◌, ◌++◌, Bytes,
  length, arith,
}
use changelogue.Githubauth.{TokenError, Reply, got, failed}
use changelogue.Githubauth.Lists.{collect}

module _ {A : Type 0} (get : Bytes → Reply (List A × Bytes)) where
  -- From a path on: the pages in their order, and the error that cuts them short, if any.
  pub data Pages : Bytes → List (List A) → Option TokenError → Type 0 where
    over : Pages [] [] none
    broken :
        (c : ℕ) (path : Bytes) (e : TokenError)
        → get (c ∷ path) ≡ failed e
        → Pages (c ∷ path) [] (some e)
    page :
        (c : ℕ) (path : Bytes) (items : List A) (next : Bytes) (rest : List (List A))
        (e : Option TokenError)
        → get (c ∷ path) ≡ got (items, next)
        → Pages next rest e
        → Pages (c ∷ path) (items ∷ rest) e

  unfoldable pub all_items : List (List A) → List A
  all_items [] = []
  all_items (items ∷ rest) = items ++ all_items rest

  abbrev pub answer_of : List A → Option TokenError → Reply (List A)
  answer_of items none = got items
  answer_of items (some e) = failed e

  no_room : {B : Type 0} {n : ℕ} → n < 0 → B
  no_room {n = n} h = let no : n ≢ n = omega arith in elim (no refl) [ ]

  collect_all :
      (path : Bytes) (pages : List (List A)) (e : Option TokenError) (n : ℕ) (sofar : List A)
      → Pages path pages e
      → length pages < n
      → collect n get sofar path ≡ some (answer_of (sofar ++ all_items pages) e)
  unfolding collect all_items
  collect_all path pages e n sofar over h = ap (λ l. some (got l)) (sym (append-nil sofar))
  collect_all path pages e zero sofar (broken c rest error eq) h = no_room (h)
  collect_all path pages e (suc n) sofar (broken c rest error eq) h = rw (eq) refl
  collect_all path pages e zero sofar (page c rest items next more error eq below) h = no_room (h)
  collect_all path pages e (suc n) sofar (page c rest items next more error eq below) h = rw (eq) (
      collect_all next more error n (sofar ++ items) below (omega arith)
      ∙ ap (λ l. some (answer_of l error)) (append_assoc sofar items (all_items more)))

  -- Where the pages from a path on come to an end, with an error or without, the loop gives every item
  -- of every page once, in order, or that error and no part of the list, in one round more than there
  -- are pages.
  pub collect-Pages :
      (path : Bytes) (pages : List (List A)) (e : Option TokenError) (n : ℕ)
      → Pages path pages e
      → length pages < n
      → collect n get [] path ≡ some (answer_of (all_items pages) e)
  collect-Pages path pages e n chain enough = collect_all path pages e n [] chain enough
