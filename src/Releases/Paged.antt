-- ===== src/Releases/Paged.antt =====
-- A page of the three lists of releases, and the total beside it.
use changelogue.Prelude.{ℕ, ◌≡◌, Bool, true, List, [], ◌∷◌, length, leb, All, if◌then◌else◌}
use changelogue.Db.{Db}
use changelogue.Routing.Store.{date_of}
use changelogue.Releases.{Row}

abbrev pub IsByDate : List Row → Type 0
IsByDate [] = Unit
IsByDate (row ∷ rows) =
    All (λ (q : Row). leb (date_of q.release) (date_of row.release) ≡ true) rows × IsByDate rows

-- What ORDER BY makes of rows: as many, the latest first, and what all of the rows have, all of its
-- rows have.
pub record IsOrderOf (ordered rows : List Row) : Type 0 where
  pub same_length : length ordered ≡ length rows
  pub latest_first : IsByDate ordered
  pub from_rows :
      (test : Row → Bool) → All (λ row. test row ≡ true) rows → All (λ row. test row ≡ true) ordered

-- How many of the rows that are left a page has.
abbrev pub page_size : ℕ → ℕ → ℕ
page_size per left = if leb per left then per else left
