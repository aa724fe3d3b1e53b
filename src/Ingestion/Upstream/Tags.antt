-- ===== src/Ingestion/Upstream/Tags.antt =====
-- internal/ingestion/github.go: releases and tags together, each version once.
use changelogue.Prelude.{
  ◌≡◌, refl, sym, ap, ◌∙◌, Bool, true, false, ◌&&◌, ◌||◌, not, List, [], ◌∷◌, ◌++◌, Bytes, is_empty,
  same, same_iff, Bool-cases, inl, inr, arith,
}
use changelogue.Ingestion.Store.{IngestionResult}
use changelogue.Ingestion.Upstream.{is_in, versions}
use changelogue.Ingestion.Upstream.Github.{
  GhRelease, GhTag, GithubApi, is_published, published, uncovered,
}

-- What upstream lists under a version.
unfoldable pub is_released : Bytes → List GhRelease → Bool
is_released v [] = false
is_released v (rel ∷ rels) = (is_published rel && same rel.tag_name v) || is_released v rels

unfoldable pub is_tagged : Bytes → List GhTag → Bool
is_tagged v [] = false
is_tagged v (t ∷ ts) = (not (is_empty t.name) && same t.name v) || is_tagged v ts

-- No result has a version of `seen`, or that of a result before it.
abbrev pub Fresh : List Bytes → List IngestionResult → Type 0
Fresh seen [] = Unit
Fresh seen (r ∷ rs) = (is_in r.raw_version seen ≡ false) × Fresh (r.raw_version ∷ seen) rs

pub is_in-append :
    (v : Bytes) (xs ys : List Bytes) → is_in v (xs ++ ys) ≡ (is_in v xs || is_in v ys)
unfolding is_in
is_in-append v [] ys = refl
is_in-append v (x ∷ xs) ys = ground (arith, is_in-append v xs ys)

pub versions-append :
    (xs ys : List IngestionResult) → versions (xs ++ ys) ≡ versions xs ++ versions ys
unfolding versions
versions-append [] ys = refl
versions-append (x ∷ xs) ys = ap (λ l. x.raw_version ∷ l) (versions-append xs ys)

module _ (api : GithubApi) (repository : Bytes) where
  pub is_in-published :
      (v : Bytes) (rels : List GhRelease)
      → is_in v (versions (published api repository rels)) ≡ is_released v rels
  unfolding is_in versions published is_released
  is_in-published v [] = refl
  is_in-published v (rel ∷ rels) = elim (Bool-cases (is_published rel)) [
    | inl out ↦ rw (out) (ap (λ b. same rel.tag_name v || b) (is_in-published v rels))
    | inr held ↦ rw (held) (is_in-published v rels)
  ]

  pub uncovered-Fresh :
      (seen : List Bytes) (tags : List GhTag) → Fresh seen (uncovered api repository seen tags)
  unfolding uncovered
  uncovered-Fresh seen [] = tt
  uncovered-Fresh seen (t ∷ ts) = elim (Bool-cases (is_empty t.name || is_in t.name seen)) [
    | inl skipped ↦ rw (skipped) (uncovered-Fresh seen ts)
    | inr taken ↦ rw (taken) (ground arith, uncovered-Fresh (t.name ∷ seen) ts)
  ]

  -- A version is among the seen ones or the tags that are left exactly where it is seen or a tag.
  pub is_in-uncovered :
      (v : Bytes) (seen : List Bytes) (tags : List GhTag)
      → (is_in v seen || is_in v (versions (uncovered api repository seen tags)))
        ≡ (is_in v seen || is_tagged v tags)
  unfolding is_in versions uncovered is_tagged
  is_in-uncovered v seen [] = refl
  is_in-uncovered v seen (t ∷ ts) = elim (Bool-cases (is_empty t.name)) [
    | inl empty ↦ rw (empty) (is_in-uncovered v seen ts)
    | inr named ↦ elim (Bool-cases (is_in t.name seen)) [
      | inl known ↦
          rw (named, known)
            (elim (Bool-cases (same t.name v)) [
              | inl here ↦
                  let there : is_in v seen ≡ true =
                    sym (ap (λ x. is_in x seen) ((same_iff t.name v).0 here)) ∙ known in
                  rw (there) refl
              | inr other ↦ rw (other) (is_in-uncovered v seen ts)
            ])
      | inr new ↦ rw (named, new) (ground (arith, is_in-uncovered v (t.name ∷ seen) ts))
    ]
  ]
