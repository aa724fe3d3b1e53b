-- ===== src/Gate/Timeout/Left.antt =====
-- The rows that a sweep of internal/gate/timeout_worker.go has still to open.
use mathlib.Core.Path.{subst}
use changelogue.Prelude.{
  ℕ, suc, ◌≤◌, ◌≡◌, refl, sym, ap, ◌∙◌, Bool, true, false, ◌||◌, List, [], ◌∷◌, leb, ◌==◌, arith,
  All, Bool-cases, inl, inr, keep, take, take_all, length, ==_refl,
}
use changelogue.Models.{VersionReadiness, timed_out}
use changelogue.Gate.Store.{
  update_id, is_expired, opened, is_pending, insert_by_timeout, by_timeout,
}

unfoldable pub has_id : ℕ → List VersionReadiness → Bool
has_id i [] = false
has_id i (r ∷ rs) = r.id == i || has_id i rs

-- The rows that are over at the time `now` are among those of `rest`, by identifier.
abbrev pub IsLeft : ℕ → List VersionReadiness → VersionReadiness → Type 0
IsLeft now rest r = is_expired now r ≡ true → has_id r.id rest ≡ true

abbrev pub Left : ℕ → List VersionReadiness → List VersionReadiness → Type 0
Left now rest rows = All (IsLeft now rest) rows

pub Left-update_id :
    (now : ℕ) (rest rest' : List VersionReadiness) (i : ℕ) (f : VersionReadiness → VersionReadiness)
    → ((r : VersionReadiness) → (r.id == i) ≡ true → IsLeft now rest r → IsLeft now rest' (f r))
    → ((r : VersionReadiness) → (r.id == i) ≡ false → IsLeft now rest r → IsLeft now rest' r)
    → (rows : List VersionReadiness) → Left now rest rows
    → Left now rest' (update_id i f rows)
unfolding update_id
Left-update_id now rest rest' i f at away [] h = tt
Left-update_id now rest rest' i f at away (r ∷ rows) h = elim (Bool-cases (r.id == i)) [
  | inl hit ↦ rw (hit) (at r hit h.0, Left-update_id now rest rest' i f at away rows h.1)
  | inr miss ↦ rw (miss) (away r miss h.0, Left-update_id now rest rest' i f at away rows h.1)
]

pub opened-not_expired :
    (now t : ℕ) (r : VersionReadiness) → is_expired now (opened timed_out t r) ≡ false
opened-not_expired now t r = elim (Bool-cases (is_pending r.status)) [
  | inl waiting ↦ rw (waiting) refl
  | inr final ↦ rw (final, final) refl
]

pub clash : {A : Type 0} {b : Bool} → b ≡ false → b ≡ true → A
clash miss hit = cc

pub has_id-rest :
    (i : ℕ) (vr : VersionReadiness) (rest : List VersionReadiness)
    → (i == vr.id) ≡ false
    → has_id i (vr ∷ rest) ≡ true
    → has_id i rest ≡ true
unfolding has_id
has_id-rest i vr rest miss h = let e : (vr.id == i) ≡ false = ground arith in rw e at h

pub open-Left :
    (now t : ℕ) (vr : VersionReadiness) (rest rows : List VersionReadiness)
    → Left now (vr ∷ rest) rows
    → Left now rest (update_id vr.id (opened timed_out t) rows)
open-Left now t vr rest rows h =
    Left-update_id now (vr ∷ rest) rest vr.id (opened timed_out t)
      (λ r hit k over. clash (opened-not_expired now t r) over)
      (λ r miss k over. has_id-rest r.id vr rest miss (k over)) rows h

pub has_id-insert :
    (i : ℕ) (r : VersionReadiness) (rows : List VersionReadiness)
    → has_id i (r ∷ rows) ≡ true
    → has_id i (insert_by_timeout r rows) ≡ true
unfolding has_id insert_by_timeout
has_id-insert i r [] h = h
has_id-insert i r (q ∷ qs) h = elim (Bool-cases (leb r.timeout_at q.timeout_at)) [
  | inl first ↦ rw (first) h
  | inr later ↦ rw (later) (elim (Bool-cases (q.id == i)) [
    | inl hit ↦ rw (hit) refl
    | inr miss ↦ rw (miss) (has_id-insert i r qs (rw (miss) at h))
  ])
]

pub has_id-by_timeout :
    (i : ℕ) (rows : List VersionReadiness)
    → has_id i rows ≡ true
    → has_id i (by_timeout rows) ≡ true
unfolding has_id by_timeout
has_id-by_timeout i [] h = h
has_id-by_timeout i (r ∷ rows) h =
    has_id-insert i r (by_timeout rows) (elim (Bool-cases (r.id == i)) [
      | inl hit ↦ rw (hit) refl
      | inr miss ↦ rw (miss) (has_id-by_timeout i rows (rw (miss) at h))
    ])

pub or_true : (b : Bool) → (b || true) ≡ true
or_true true = refl
or_true false = refl

pub Left-cons :
    (now : ℕ) (q : VersionReadiness) (rest rows : List VersionReadiness)
    → Left now rest rows
    → Left now (q ∷ rest) rows
unfolding has_id
Left-cons now q rest [] h = tt
Left-cons now q rest (r ∷ rows) h =
    (λ over. rw (h.0 over) (or_true (q.id == r.id)), Left-cons now q rest rows h.1)

pub has_id-keep :
    (now : ℕ) (rows : List VersionReadiness) → Left now (keep (is_expired now) rows) rows
unfolding has_id keep
has_id-keep now [] = tt
has_id-keep now (r ∷ rows) = elim (Bool-cases (is_expired now r)) [
  | inl over ↦
      let e : keep (is_expired now) (r ∷ rows) ≡ r ∷ keep (is_expired now) rows = rw (over) refl in
      subst (λ rest. Left now rest (r ∷ rows)) (sym e)
        (
          λ _. rw (==_refl r.id) refl,
          Left-cons now r (keep (is_expired now) rows) rows (has_id-keep now rows),
        )
  | inr early ↦
      let e : keep (is_expired now) (r ∷ rows) ≡ keep (is_expired now) rows = rw (early) refl in
      subst (λ rest. Left now rest (r ∷ rows)) (sym e)
        (λ over. clash early over, has_id-keep now rows)
]

pub length-insert :
    (r : VersionReadiness) (rows : List VersionReadiness)
    → length (insert_by_timeout r rows) ≡ suc (length rows)
unfolding insert_by_timeout
length-insert r [] = refl
length-insert r (q ∷ qs) = ground (arith, length-insert r qs)

pub length-by_timeout : (rows : List VersionReadiness) → length (by_timeout rows) ≡ length rows
unfolding by_timeout
length-by_timeout [] = refl
length-by_timeout (r ∷ rows) =
    length-insert r (by_timeout rows) ∙ ap (λ n. suc n) (length-by_timeout rows)

-- The list of a sweep that is long enough has every row that is over.
pub listed-Left :
    (now : ℕ) (rows : List VersionReadiness)
    → length (keep (is_expired now) rows) ≤ 100
    → Left now (take 100 (by_timeout (keep (is_expired now) rows))) rows
listed-Left now rows few =
    subst (λ rest. Left now rest rows)
      (sym (
        take_all 100 (by_timeout (keep (is_expired now) rows))
          (omega (arith, few, length-by_timeout (keep (is_expired now) rows)))))
      (sorted (keep (is_expired now) rows) rows (has_id-keep now rows))
  where
    sorted : (rest qs : List VersionReadiness) → Left now rest qs → Left now (by_timeout rest) qs
    sorted rest [] h = tt
    sorted rest (q ∷ qs) h = (λ over. has_id-by_timeout q.id rest (h.0 over), sorted rest qs h.1)

pub none-Left :
    (now : ℕ) (rows : List VersionReadiness)
    → Left now [] rows
    → All (λ (r : VersionReadiness). is_expired now r ≡ false) rows
unfolding has_id
none-Left now [] h = tt
none-Left now (r ∷ rows) h = (
  elim (Bool-cases (is_expired now r)) [
    | inl over ↦ clash {b = false} refl (h.0 over)
    | inr early ↦ early
  ],
  none-Left now rows h.1,
)
