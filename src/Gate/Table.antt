-- ===== src/Gate/Table.antt =====
-- The readiness table: identifiers and keys are unique, and an update by identifier is an update of
-- the row with that row's key.
use changelogue.Prelude.{
  ℕ, ◌≤◌, ◌<◌, ◌≡◌, refl, true, false, Option, none, some, List, [], ◌∷◌, Bytes, ◌==◌,
  if◌then◌else◌, same_iff, same_refl, arith, ==_refl, Bool-cases, inl, inr,
}
use mathlib.Core.Path.{subst}
use changelogue.Models.{VersionReadiness}
use changelogue.Gate.Store.{find_id, find_key, has_key, update_id}

-- Newer rows stand first: each identifier is below all those before it, and below `bound`.
abbrev pub IdsBelow : ℕ → List VersionReadiness → Type 0
IdsBelow bound [] = Unit
IdsBelow bound (r ∷ rs) = (r.id < bound) × IdsBelow r.id rs

-- UNIQUE (project_id, version)
abbrev pub UniqueKeys : List VersionReadiness → Type 0
UniqueKeys [] = Unit
UniqueKeys (r ∷ rs) = (find_key r.project_id r.version rs ≡ none) × UniqueKeys rs

-- A change of a row that leaves its identifier and its key.
pub record KeepsKey (f : VersionReadiness → VersionReadiness) : Type 0 where
  pub id : (r : VersionReadiness) → (f r).id ≡ r.id
  pub project : (r : VersionReadiness) → (f r).project_id ≡ r.project_id
  pub version : (r : VersionReadiness) → (f r).version ≡ r.version

pub has_key-eq :
    (p : ℕ) (v : Bytes) (r : VersionReadiness)
    → has_key p v r ≡ true
    → (r.project_id ≡ p) × (r.version ≡ v)
has_key-eq p v r h = (ground arith, (same_iff r.version v).0 (ground arith))

pub find_key-has_key :
    (p : ℕ) (v : Bytes) (rs : List VersionReadiness) (r : VersionReadiness)
    → find_key p v rs ≡ some r
    → has_key p v r ≡ true
unfolding find_key
find_key-has_key p v [] r h = cc
find_key-has_key p v (q ∷ qs) r h = elim (Bool-cases (has_key p v q)) [
  | inl hit ↦ cc (hit, rw hit at h)
  | inr miss ↦ find_key-has_key p v qs r (rw miss at h)
]

pub find_id-eq :
    (i : ℕ) (rs : List VersionReadiness) (r : VersionReadiness) → find_id i rs ≡ some r → r.id ≡ i
unfolding find_id
find_id-eq i [] r h = cc
find_id-eq i (q ∷ qs) r h = ground (arith, find_id-eq i qs r)

pub IdsBelow-weaken : (a b : ℕ) (rs : List VersionReadiness) → a ≤ b → IdsBelow a rs → IdsBelow b rs
IdsBelow-weaken a b [] h k = tt
IdsBelow-weaken a b (r ∷ rs) h k = (omega arith, k.1)

pub find_id-lt :
    (i bound : ℕ) (rs : List VersionReadiness) (r : VersionReadiness)
    → IdsBelow bound rs
    → find_id i rs ≡ some r
    → i < bound
unfolding find_id
find_id-lt i bound [] r k h = cc
find_id-lt i bound (q ∷ qs) r k h = ground (arith, find_id-lt i q.id qs r k.1)

has_own_key : (r : VersionReadiness) → has_key r.project_id r.version r ≡ true
has_own_key r = ground (arith, same_refl r.version)

-- The row that an identifier finds is the row that its key finds.
pub find_key_of_find_id :
    (i : ℕ) (rs : List VersionReadiness) (r : VersionReadiness)
    → UniqueKeys rs
    → find_id i rs ≡ some r
    → find_key r.project_id r.version rs ≡ some r
unfolding find_key find_id
find_key_of_find_id i [] r u h = cc
find_key_of_find_id i (q ∷ qs) r u h = elim (Bool-cases (q.id == i)) [
  | inl hit ↦
      let e : q ≡ r = cc (rw hit at h) in
      subst (λ x. find_key x.project_id x.version (q ∷ qs) ≡ some x) e (rw (has_own_key q))
  | inr miss ↦
      let below = find_key_of_find_id i qs r u.1 (rw miss at h) in
      elim (Bool-cases (has_key r.project_id r.version q)) [
        | inl other ↦
            let (same_project, same_version) = has_key-eq r.project_id r.version q other in
            absurd (cc (same_project, same_version, below, u.0))
        | inr other ↦ rw other below
      ]
]

-- The row that a key finds is the row that its identifier finds.
pub find_id_of_find_key :
    (p : ℕ) (v : Bytes) (bound : ℕ) (rs : List VersionReadiness) (r : VersionReadiness)
    → IdsBelow bound rs
    → find_key p v rs ≡ some r
    → find_id r.id rs ≡ some r
unfolding find_key find_id
find_id_of_find_key p v bound [] r k h = cc
find_id_of_find_key p v bound (q ∷ qs) r k h = elim (Bool-cases (has_key p v q)) [
  | inl hit ↦
      let e : q ≡ r = cc (rw hit at h) in
      subst (λ x. find_id x.id (q ∷ qs) ≡ some x) e (rw (==_refl q.id))
  | inr miss ↦
      let below = find_id_of_find_key p v q.id qs r k.1 (rw miss at h) in
      let older = find_id-lt r.id q.id qs r k.1 below in
      let differs : (q.id == r.id) ≡ false = ground arith in rw differs below
]

module _ (f : VersionReadiness → VersionReadiness) (k : KeepsKey f) (i : ℕ) where
  pub IdsBelow-update_id :
      (bound : ℕ) (rs : List VersionReadiness)
      → IdsBelow bound rs
      → IdsBelow bound (update_id i f rs)
  unfolding update_id
  IdsBelow-update_id bound [] h = tt
  IdsBelow-update_id bound (r ∷ rs) h = elim (Bool-cases (r.id == i)) [
    | inl hit ↦ rw (hit, k.id r) (h.0, IdsBelow-update_id r.id rs h.1)
    | inr miss ↦ rw miss (h.0, IdsBelow-update_id r.id rs h.1)
  ]

  abbrev pub map_row : VersionReadiness → VersionReadiness
  map_row r = if r.id == i then f r else r

  abbrev pub map_found : Option VersionReadiness → Option VersionReadiness
  map_found none = none
  map_found (some r) = some (map_row r)

  has_key-map_row :
      (p : ℕ) (v : Bytes) (r : VersionReadiness) → has_key p v (map_row r) ≡ has_key p v r
  has_key-map_row p v r = elim (Bool-cases (r.id == i)) [
    | inl hit ↦ rw (hit, k.project r, k.version r)
    | inr miss ↦ rw miss
  ]

  pub find_key-update_id :
      (p : ℕ) (v : Bytes) (rs : List VersionReadiness)
      → find_key p v (update_id i f rs) ≡ map_found (find_key p v rs)
  unfolding find_key update_id
  find_key-update_id p v [] = refl
  find_key-update_id p v (r ∷ rs) = elim (Bool-cases (has_key p v r)) [
    | inl hit ↦ rw (has_key-map_row p v r, hit)
    | inr miss ↦ rw (has_key-map_row p v r, miss) (find_key-update_id p v rs)
  ]

  id-map_row : (r : VersionReadiness) → (map_row r).id ≡ r.id
  id-map_row r = elim (Bool-cases (r.id == i)) [ inl hit ↦ rw (hit, k.id r) | inr miss ↦ rw miss ]

  pub find_id-update_id :
      (j : ℕ) (rs : List VersionReadiness) → find_id j (update_id i f rs) ≡ map_found (find_id j rs)
  unfolding find_id update_id
  find_id-update_id j [] = refl
  find_id-update_id j (r ∷ rs) = elim (Bool-cases (r.id == j)) [
    | inl hit ↦ rw (id-map_row r, hit)
    | inr miss ↦ rw (id-map_row r, miss) (find_id-update_id j rs)
  ]

  pub UniqueKeys-update_id :
      (rs : List VersionReadiness) → UniqueKeys rs → UniqueKeys (update_id i f rs)
  unfolding update_id
  UniqueKeys-update_id [] u = tt
  UniqueKeys-update_id (r ∷ rs) u = elim (Bool-cases (r.id == i)) [
    | inl hit ↦ (
      rw (hit, k.project r, k.version r, find_key-update_id r.project_id r.version rs, u.0),
      UniqueKeys-update_id rs u.1,
    )
    | inr miss ↦
        (rw (miss, find_key-update_id r.project_id r.version rs, u.0), UniqueKeys-update_id rs u.1)
  ]
