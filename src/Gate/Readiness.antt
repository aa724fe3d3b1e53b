-- ===== src/Gate/Readiness.antt =====
-- When a version is ready: the sources that have reported it, in whatever order, against the
-- required ones.
use mathlib.Core.List.{append-nil, append_assoc}
use changelogue.Prelude.{
  ℕ, ◌≡◌, ◌↔◌, refl, sym, ◌∙◌, true, false, ◌||◌, List, [], ◌∷◌, ◌++◌, Bytes, ◌==◌, if◌then◌else◌,
  arith, ==_refl, Bool-cases, inl, inr, contains, contains-append, keep, is_empty,
}
use changelogue.Models.{VersionReadiness}
use changelogue.Db.{Db}
use changelogue.Gate.Store.{without, meet_source, new_readiness, is_pending}

without_sound :
    (required met : List ℕ) (x : ℕ)
    → is_empty (without required met) ≡ true
    → contains required x ≡ true
    → contains met x ≡ true
unfolding without keep contains
without_sound [] met x e h = cc
without_sound (r ∷ rs) met x e h = elim (Bool-cases (contains met r)) [
  | inl hit ↦ elim (Bool-cases (r == x)) [
    | inl here ↦ let same_id : r ≡ x = ground arith in rw same_id at hit
    | inr there ↦ without_sound rs met x (rw hit at e) (rw there at h)
  ]
  | inr miss ↦ cc (rw miss at e)
]

without_complete :
    (required met : List ℕ)
    → ((x : ℕ) → contains required x ≡ true → contains met x ≡ true)
    → is_empty (without required met) ≡ true
unfolding without keep contains
without_complete [] met h = refl
without_complete (r ∷ rs) met h =
    let hit = h r (rw (==_refl r)) in rw hit (without_complete rs met (λ x k. h x (ground arith)))

-- A row that waits for `required`: nothing it lists as missing has reported, and the rest has.
record Tracks (required reported : List ℕ) (r : VersionReadiness) : Type 0 where
  waiting : is_pending r.status ≡ true
  met : (x : ℕ) → contains r.sources_met x ≡ contains reported x
  missing : r.sources_missing ≡ without required r.sources_met

-- The row after reports of the sources in `later`, one after another, at the times given with them.
abbrev pub meet_all : List ℕ → List (ℕ × ℕ) → VersionReadiness → VersionReadiness
meet_all required [] r = r
meet_all required ((source, now) ∷ later) r =
    meet_all required later (meet_source source required now r)

abbrev pub sources_of : List (ℕ × ℕ) → List ℕ
sources_of [] = []
sources_of ((source, now) ∷ later) = source ∷ sources_of later

new_readiness-Tracks :
    (p : ℕ) (v : Bytes) (source : ℕ) (required : List ℕ) (hours : ℕ) (db : Db)
    → Tracks required (source ∷ []) (new_readiness p v source required hours db)
unfolding new_readiness
new_readiness-Tracks p v source required hours db = record {
  waiting = refl;
  met = λ x. refl;
  missing = refl;
}

module _ (source now : ℕ) (required : List ℕ) (r : VersionReadiness)
    (waiting : is_pending r.status ≡ true) where
  meet_source-status : is_pending (meet_source source required now r).status ≡ true
  unfolding meet_source
  meet_source-status = ground arith

  -- The sources met, and the sources missing, after a report to a row that waits.
  meet_source-met :
      (meet_source source required now r).sources_met
      ≡ (if contains r.sources_met source then r.sources_met else r.sources_met ++ source ∷ [])
  unfolding meet_source
  meet_source-met = ground arith

  meet_source-missing : (meet_source source required now r).sources_missing ≡ (
      if contains r.sources_met source
      then r.sources_missing
      else without required (r.sources_met ++ source ∷ []))
  unfolding meet_source
  meet_source-missing = ground arith

contains-cons_again :
    (source x : ℕ) (met : List ℕ)
    → contains met source ≡ true
    → contains met x ≡ (contains met x || (source == x || false))
contains-cons_again source x met h = elim (Bool-cases (source == x)) [
  | inl here ↦ let same_id : source ≡ x = ground arith in ground (arith, (rw same_id at h))
  | inr there ↦ rw there (ground arith)
]

module _ (source now : ℕ) (required reported : List ℕ) (r : VersionReadiness)
    (t : Tracks required reported r) where
  meet_source-contains :
      (x : ℕ)
      → contains (meet_source source required now r).sources_met x
        ≡ contains (reported ++ source ∷ []) x
  unfolding contains
  meet_source-contains x = elim (Bool-cases (contains r.sources_met source)) [
    | inl old ↦
        rw
          (
            meet_source-met source now required r t.waiting,
            old,
            contains-append reported (source ∷ []) x,
            ← t.met x,
          )
          (contains-cons_again source x r.sources_met old)
    | inr new ↦ rw (
      meet_source-met source now required r t.waiting,
      new,
      contains-append reported (source ∷ []) x,
      contains-append r.sources_met (source ∷ []) x,
      t.met x,
    )
  ]

  meet_source-Tracks : Tracks required (reported ++ source ∷ []) (meet_source source required now r)
  meet_source-Tracks = record {
    waiting = meet_source-status source now required r t.waiting;
    met = meet_source-contains;
    missing = elim (Bool-cases (contains r.sources_met source)) [
      | inl old ↦
          rw
            (
              meet_source-met source now required r t.waiting,
              meet_source-missing source now required r t.waiting,
              old,
            )
            t.missing
      | inr new ↦ rw (
        meet_source-met source now required r t.waiting,
        meet_source-missing source now required r t.waiting,
        new,
      )
    ];
  }

meet_all-Tracks :
    (required reported : List ℕ) (later : List (ℕ × ℕ)) (r : VersionReadiness)
    → Tracks required reported r
    → Tracks required (reported ++ sources_of later) (meet_all required later r)
meet_all-Tracks required reported [] r t = rw append-nil t
meet_all-Tracks required reported ((source, now) ∷ later) r t =
    rw (← append_assoc reported (source ∷ []) (sources_of later)) (
      meet_all-Tracks required (reported ++ source ∷ []) later (meet_source source required now r)
        (meet_source-Tracks source now required reported r t))

-- A version becomes ready by its reports alone, in whatever order and however often they come: after
-- a first report, which inserts the row, and any later ones, with one list of required sources and
-- the gate still closed, no source is missing exactly when every required source has reported.
pub ready_when_all_reported :
    (p : ℕ) (v : Bytes) (first : ℕ) (required : List ℕ) (hours : ℕ) (db : Db) (later : List (ℕ × ℕ))
    → (is_empty
          (meet_all required later (new_readiness p v first required hours db)).sources_missing
        ≡ true)
      ↔ ((x : ℕ) → contains required x ≡ true → contains (first ∷ sources_of later) x ≡ true)
ready_when_all_reported p v first required hours db later =
    let t =
      meet_all-Tracks required (first ∷ []) later (new_readiness p v first required hours db)
        (new_readiness-Tracks p v first required hours db) in
    let r = meet_all required later (new_readiness p v first required hours db) in
    (
      λ e x h. sym (t.met x) ∙ without_sound required r.sources_met x (rw t.missing at e) h,
      λ h. rw t.missing (without_complete required r.sources_met (λ x k. t.met x ∙ h x k)),
    )
