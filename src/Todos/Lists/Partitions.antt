-- ===== src/Todos/Lists/Partitions.antt =====
-- The newest todo of each partition, before ListTodos sorts them.
use mathlib.Core.Path.{subst}
use changelogue.Prelude.{
  ℕ, ◌≡◌, refl, sym, true, false, Option, none, some, List, [], ◌∷◌, ==_refl, All, Bool-cases, inl,
  inr, arith,
}
use changelogue.Text.Cut.{All-imp}
use changelogue.Todos.Lists.{
  TodoRow, partition_of, same_partition, is_outdone, drop_older, newest_each,
}

-- No two rows of one partition.
abbrev pub OneEach : List TodoRow → Type 0
OneEach [] = Unit
OneEach (row ∷ rows) =
    All (λ (q : TodoRow). same_partition (partition_of q) (partition_of row) ≡ false) rows
    × OneEach rows

same_partition_refl : (a : Option ℕ) → same_partition a a ≡ true
same_partition_refl none = refl
same_partition_refl (some a) = ==_refl a

pub same_partition_swap : (a b : Option ℕ) → same_partition a b ≡ same_partition b a
same_partition_swap none none = refl
same_partition_swap none (some b) = refl
same_partition_swap (some a) none = refl
same_partition_swap (some a) (some b) = ground arith

same_partition_trans :
    (a b c : Option ℕ)
    → same_partition a b ≡ true
    → same_partition a c ≡ true
    → same_partition b c ≡ true
same_partition_trans none none none h k = refl
same_partition_trans none none (some c) h k = cc
same_partition_trans none (some b) c h k = cc
same_partition_trans (some a) none c h k = cc
same_partition_trans (some a) (some b) none h k = cc
same_partition_trans (some a) (some b) (some c) h k = ground arith

drop_older-All :
    (P : TodoRow → Type 0) (row : TodoRow) (rows : List TodoRow)
    → All P rows
    → All P (drop_older row rows)
unfolding drop_older
drop_older-All P row [] h = tt
drop_older-All P row (q ∷ qs) (h, k) =
    elim (Bool-cases (same_partition (partition_of q) (partition_of row))) [
      | inl one ↦ rw (one) (drop_older-All P row qs k)
      | inr other ↦ rw (other) (h, drop_older-All P row qs k)
    ]

drop_older-apart :
    (row : TodoRow) (rows : List TodoRow)
    → All
        (λ (q : TodoRow). same_partition (partition_of q) (partition_of row) ≡ false)
        (drop_older row rows)
unfolding drop_older
drop_older-apart row [] = tt
drop_older-apart row (q ∷ qs) =
    elim (Bool-cases (same_partition (partition_of q) (partition_of row))) [
      | inl one ↦ rw (one) (drop_older-apart row qs)
      | inr other ↦ rw (other) (other, drop_older-apart row qs)
    ]

drop_older-OneEach :
    (row : TodoRow) (rows : List TodoRow) → OneEach rows → OneEach (drop_older row rows)
unfolding drop_older
drop_older-OneEach row [] h = tt
drop_older-OneEach row (q ∷ qs) (h, k) =
    elim (Bool-cases (same_partition (partition_of q) (partition_of row))) [
      | inl one ↦ rw (one) (drop_older-OneEach row qs k)
      | inr other ↦ rw (other) (drop_older-All _ row qs h, drop_older-OneEach row qs k)
    ]

pub newest_each-All :
    (P : TodoRow → Type 0) (rows : List TodoRow) → All P rows → All P (newest_each rows)
unfolding newest_each
newest_each-All P [] h = tt
newest_each-All P (row ∷ rows) (h, k) = elim (Bool-cases (is_outdone row (newest_each rows))) [
  | inl older ↦ rw (older) (newest_each-All P rows k)
  | inr newest ↦ rw (newest) (h, drop_older-All P row (newest_each rows) (newest_each-All P rows k))
]

pub newest_each-OneEach : (rows : List TodoRow) → OneEach (newest_each rows)
unfolding newest_each
newest_each-OneEach [] = tt
newest_each-OneEach (row ∷ rows) = elim (Bool-cases (is_outdone row (newest_each rows))) [
  | inl older ↦ rw (older) (newest_each-OneEach rows)
  | inr newest ↦ rw (newest) (
    drop_older-apart row (newest_each rows),
    drop_older-OneEach row (newest_each rows) (newest_each-OneEach rows),
  )
]

-- A row that is newer than the one of its partition takes over what that one stood for.
is_outdone-drop_older :
    (t row : TodoRow) (rows : List TodoRow)
    → is_outdone row rows ≡ false
    → is_outdone t rows ≡ true
    → is_outdone t (row ∷ drop_older row rows) ≡ true
unfolding is_outdone drop_older
is_outdone-drop_older t row [] h k = cc
is_outdone-drop_older t row (q ∷ qs) h k =
    elim (Bool-cases (same_partition (partition_of q) (partition_of row))) [
      | inl one ↦ rw (one) (elim (Bool-cases (same_partition (partition_of q) (partition_of t))) [
        | inl of_t ↦ ground (
          arith,
          same_partition_trans (partition_of q) (partition_of row) (partition_of t) one of_t,
          is_outdone-drop_older t row qs,
        )
        | inr not_of_t ↦ ground (arith, is_outdone-drop_older t row qs)
      ])
      | inr other ↦ rw (other) (ground (arith, is_outdone-drop_older t row qs))
    ]

pub newest_each-covers :
    (rows : List TodoRow) → All (λ (t : TodoRow). is_outdone t (newest_each rows) ≡ true) rows
unfolding newest_each is_outdone
newest_each-covers [] = tt
newest_each-covers (row ∷ rows) = elim (Bool-cases (is_outdone row (newest_each rows))) [
  | inl older ↦
      let left : newest_each (row ∷ rows) ≡ newest_each rows = rw (older) refl in
      covering left (older, newest_each-covers rows)
  | inr newest ↦
      let left : newest_each (row ∷ rows) ≡ row ∷ drop_older row (newest_each rows) =
        rw (newest) refl in
      covering left (
        ground (arith, same_partition_refl (partition_of row)),
        All-imp rows (λ t h. is_outdone-drop_older t row (newest_each rows) newest h)
            (newest_each-covers rows),
      )
]
  where
    covering :
        {l k : List TodoRow}
        → l ≡ k
        → All (λ (t : TodoRow). is_outdone t k ≡ true) (row ∷ rows)
        → All (λ (t : TodoRow). is_outdone t l ≡ true) (row ∷ rows)
    covering e h = subst (λ l. All (λ (t : TodoRow). is_outdone t l ≡ true) (row ∷ rows)) (sym e) h
