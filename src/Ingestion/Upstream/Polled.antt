-- ===== src/Ingestion/Upstream/Polled.antt =====
-- A poll of a GitHub source, from the upstream lists to the stored releases.
use mathlib.Core.Path.{subst}
use mathlib.Core.List.{append-nil}
use changelogue.Prelude.{
  ℕ, ◌≡◌, refl, sym, ap, ◌∙◌, Bool, false, ◌&&◌, ◌||◌, not, List, [], ◌∷◌, ◌++◌, Bytes, Bool-cases,
  inl, inr, arith,
}
use changelogue.Exec.{Result, ok}
use changelogue.Models.{Source}
use changelogue.Db.{Db, statement}
use changelogue.Ingestion.Atomic.{calm}
use changelogue.Ingestion.Store.{IngestionResult, set_polled, update_source_poll_status}
use changelogue.Ingestion.Service.{store_results, after_fetch, poll_source}
use changelogue.Ingestion.Upstream.{is_in, versions}
use changelogue.Ingestion.Upstream.Github.{
  GhRelease, GhTag, GithubApi, published, uncovered, fetch_releases, fetch_tags, and_tags,
  fetch_github,
}
use changelogue.Ingestion.Upstream.Tags.{
  is_released, is_tagged, Fresh, is_in-append, versions-append, is_in-published, uncovered-Fresh,
  is_in-uncovered,
}
use changelogue.Ingestion.Stored.{Grew, Grew-nothing, process_results-Processed}

-- A version that GitHub lists for the source: a published release, or a tag where tags count.
abbrev pub is_listed : Source → List GhRelease → List GhTag → Bytes → Bool
is_listed s rels tags v = is_released v rels || (not s.releases_only && is_tagged v tags)

-- The results of a poll: the published releases in their order, then the tags, each under a version
-- that nothing before it has.
abbrev pub InOrder : GithubApi → Source → List GhRelease → List IngestionResult → Type 0
InOrder api s rels rs =
    (tagged : List IngestionResult) × (rs ≡ published api s.repository rels ++ tagged)
    × Fresh (versions (published api s.repository rels)) tagged

module _ (api : GithubApi) (s : Source) (rels : List GhRelease) (tags : List GhTag)
    (got_rels : fetch_releases api s.repository ≡ ok rels)
    (got_tags : fetch_tags api s.repository ≡ ok tags) where
  abbrev Fetched : Result (List IngestionResult) → Type 0
  Fetched x =
      (rs : List IngestionResult) × (x ≡ ok rs)
      × InOrder api s rels rs
      × ((v : Bytes) → is_in v (versions rs) ≡ is_listed s rels tags v)

  and_tags-Fetched :
      s.releases_only ≡ false
      → Fetched (and_tags api s.repository (published api s.repository rels) (ok tags))
  and_tags-Fetched both =
      let first = published api s.repository rels in
      let rest = uncovered api s.repository (versions first) tags in
      (
        first ++ rest,
        refl,
        (rest, refl, uncovered-Fresh api s.repository (versions first) tags),
        λ v.
            ap (is_in v) (versions-append first rest)
            ∙ is_in-append v (versions first) (versions rest)
            ∙ is_in-uncovered api s.repository v (versions first) tags
            ∙ rw (is_in-published api s.repository v rels, both) refl,
      )

  fetch_github-Fetched : Fetched (fetch_github api s)
  unfolding fetch_github
  fetch_github-Fetched = elim (Bool-cases s.releases_only) [
    | inl only ↦ (
      published api s.repository rels,
      rw (got_rels, only) refl,
      ([], sym (append-nil (published api s.repository rels)), tt),
      λ v. is_in-published api s.repository v rels ∙ rw (only) (ground arith),
    )
    | inr both ↦ subst Fetched (sym (rw (got_rels, both, got_tags) refl)) (and_tags-Fetched both)
  ]

store_results-Processed :
    (source : ℕ) (rs : List IngestionResult) (db : Db) (v : Bytes)
    → ((store_results source rs (calm db)).0 ≡ ok tt)
      × Grew source v db.releases
          (store_results source rs (calm db)).1.releases
          (is_in v (versions rs))
unfolding is_in versions
store_results-Processed source [] db v = (refl, Grew-nothing source v db.releases)
store_results-Processed source (r ∷ rs) db v =
    let (d, eq, stored) = process_results-Processed source (r ∷ rs) db in
    subst
      (λ (x : Result (Unit {0}) × Db).
        let y : Result (Unit {0}) × Db = (ok tt, x.1) in
        (y.0 ≡ ok tt) × Grew source v db.releases y.1.releases (is_in v (versions (r ∷ rs))))
      (sym eq) (refl, stored v)

-- Where no call fails and GitHub answers with a list of releases and, if tags count, a list of tags: a
-- poll takes up the published releases in their order and then the tags, no tag under a version that
-- came before it; after it the source has exactly the versions that it had and those that GitHub
-- lists; and each listed version that it had no row for has one new row, and no other version has a
-- new row.
pub poll_source-Stores :
    (api : GithubApi) (s : Source) (rels : List GhRelease) (tags : List GhTag) (db : Db)
    → fetch_releases api s.repository ≡ ok rels
    → fetch_tags api s.repository ≡ ok tags
    → ((rs : List IngestionResult) × (fetch_github api s ≡ ok rs) × InOrder api s rels rs)
      × ((poll_source (fetch_github api) s (calm db)).0 ≡ ok tt)
      × ((v : Bytes)
          → Grew s.id v db.releases
              (poll_source (fetch_github api) s (calm db)).1.releases
              (is_listed s rels tags v))
unfolding poll_source update_source_poll_status statement
poll_source-Stores api s rels tags db got_rels got_tags =
    let (rs, eq, order, listed) = fetch_github-Fetched api s rels tags got_rels got_tags in
    let polled : Db = record db { sources = set_polled s.id false db.now db.sources } in
    (
      (rs, eq, order),
      ap (λ x. (after_fetch s.id x (calm db)).0) eq ∙ (store_results-Processed s.id rs polled []).0,
      λ v.
          subst (Grew s.id v db.releases (poll_source (fetch_github api) s (calm db)).1.releases)
            (listed v)
            (subst
              (λ x.
                Grew s.id v db.releases (after_fetch s.id x (calm db)).1.releases
                  (is_in v (versions rs)))
              (sym eq) (store_results-Processed s.id rs polled v).1),
    )
