-- ===== src/Todos/Lists/Newest.antt =====
-- The aggregated list of ListTodos: the newest todo of each source.
use changelogue.Prelude.{◌≡◌, true, List, [], ◌∷◌, leb, All}
use changelogue.Db.{Db}
use changelogue.Todos.Lists.{TodoRow, time_of}

abbrev pub NewestFirst : List TodoRow → Type 0
NewestFirst [] = Unit
NewestFirst (row ∷ rows) =
    All (λ (q : TodoRow). leb (time_of q) (time_of row) ≡ true) rows × NewestFirst rows
