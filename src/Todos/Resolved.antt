-- ===== src/Todos/Resolved.antt =====
-- A cascade never changes a todo that is resolved.
use changelogue.Prelude.{
  ℕ, ◌≡◌, refl, ap, ◌∙◌, Bool, true, false, some, List, [], ◌∷◌, ◌==◌, if◌then◌else◌, Bool-cases,
  inl, inr, arith, ==_iff,
}
use changelogue.Exec.{Exec, pure, attempt}
use changelogue.Exec.Rules.{outcome_state}
use changelogue.Models.{Todo, TodoStatus, resolved}
use changelogue.Db.Rows.{or_missing}
use changelogue.Db.{Db, statement}
use changelogue.Db.Preserve.{
  Preserves, statement-Preserves, bind-Preserves, attempt-Preserves, pure-Preserves,
  raise-Preserves,
}
use changelogue.Exec.{not_found}
use changelogue.Todos.{
  find_todo, update_where, cascades, is_pending, is_open, update_todo, cascade_todos, if_cascade,
  acknowledge, resolve, acknowledge_todo, resolve_todo,
}

updated-id :
    (admits : Todo → Bool) (f : Todo → Todo) (u : Todo)
    → ((v : Todo) → (f v).id ≡ v.id)
    → (if admits u then f u else u).id ≡ u.id
updated-id admits f u keeps = elim (Bool-cases (admits u)) [
  | inl hit ↦ rw (hit, keeps u)
  | inr miss ↦ rw miss
]

-- An update that does not admit the row, and keeps the identifiers, leaves the row.
find_todo-update_where :
    (admits : Todo → Bool) (f : Todo → Todo) (j : ℕ) (t : Todo) (ts : List Todo)
    → ((u : Todo) → (f u).id ≡ u.id)
    → admits t ≡ false
    → find_todo j ts ≡ some t
    → find_todo j (update_where admits f ts) ≡ some t
unfolding find_todo update_where
find_todo-update_where admits f j t [] keeps spared h = cc h
find_todo-update_where admits f j t (u ∷ us) keeps spared h = elim (Bool-cases (u.id == j)) [
  | inl hit ↦
      let e : u ≡ t = cc (rw hit at h) in
      let spared_u : admits u ≡ false = ap admits e ∙ spared in rw (spared_u, hit, e)
  | inr miss ↦
      rw (updated-id admits f u keeps, miss)
        (find_todo-update_where admits f j t us keeps spared (rw miss at h))
]

find_todo-id : (j : ℕ) (t : Todo) (ts : List Todo) → find_todo j ts ≡ some t → t.id ≡ j
unfolding find_todo
find_todo-id j t [] h = cc h
find_todo-id j t (u ∷ us) h = elim (Bool-cases (u.id == j)) [
  | inl hit ↦ let e : u ≡ t = cc (rw hit at h) in let at_j : u.id ≡ j = (==_iff u.id j).0 hit in cc
  | inr miss ↦ find_todo-id j t us (rw miss at h)
]

module _ (j : ℕ) (t : Todo) where
  abbrev Stays : Db → Type 0
  Stays db = find_todo j db.todos ≡ some t

  blind : (db : Db) (fs : _) → Stays db → Stays (record db { faults = fs })
  blind db fs h = h

  or_missing-Preserves : (affected : Bool) → Preserves Stays blind (or_missing affected)
  or_missing-Preserves true = pure-Preserves Stays blind tt
  or_missing-Preserves false = raise-Preserves Stays blind (Unit {0}) not_found

  update_todo-Preserves :
      (id : ℕ) (f : ℕ → Todo → Todo)
      → ((now : ℕ) (u : Todo) → (f now u).id ≡ u.id)
      → (id == j) ≡ false
      → Preserves Stays blind (update_todo id f)
  unfolding update_todo
  update_todo-Preserves id f keeps other =
      bind-Preserves Stays blind (statement _) or_missing
        (statement-Preserves Stays blind _ λ db h.
          find_todo-update_where _ (f db.now) j t db.todos (keeps db.now)
            (ground (arith, find_todo-id j t db.todos h)) h)
        (λ affected. or_missing-Preserves affected)

  cascade_todos-Preserves :
      (admits : TodoStatus → Bool) (id : ℕ) (f : ℕ → Todo → Todo)
      → ((now : ℕ) (u : Todo) → (f now u).id ≡ u.id)
      → admits t.status ≡ false
      → Preserves Stays blind (cascade_todos admits id f)
  unfolding cascade_todos cascades
  cascade_todos-Preserves admits id f keeps closed = statement-Preserves Stays blind _ λ db h.
      find_todo-update_where _ (f db.now) j t db.todos (keeps db.now)
        (elim (Bool-cases (t.id == id)) [
          | inl hit ↦ rw hit refl
          | inr miss ↦ rw (miss, closed) refl
        ])
        h

  if_cascade-Preserves :
      (cascade : Bool) (m : Exec Db (Unit {0}))
      → Preserves Stays blind m
      → Preserves Stays blind (if_cascade cascade m)
  if_cascade-Preserves false m h = pure-Preserves Stays blind tt
  if_cascade-Preserves true m h =
      bind-Preserves Stays blind (attempt m) (λ _. pure tt) (attempt-Preserves Stays blind m h)
        (λ _. pure-Preserves Stays blind tt)

  -- Whatever calls fail: acknowledging or resolving a todo, with its older ones or without, leaves
  -- every other todo that is resolved as it was.
  pub resolved_stays :
      (id : ℕ) (cascade : Bool) (db : Db)
      → find_todo j db.todos ≡ some t
      → t.status ≡ resolved
      → (id == j) ≡ false
      → (find_todo j (acknowledge_todo id cascade db).1.todos ≡ some t)
        × (find_todo j (resolve_todo id cascade db).1.todos ≡ some t)
  unfolding acknowledge_todo resolve_todo
  resolved_stays id cascade db found done other = (
    outcome_state Stays (acknowledge_todo id cascade db) (
        bind-Preserves Stays blind (update_todo id acknowledge) _
          (update_todo-Preserves id acknowledge (λ now u. refl) other)
          (λ _.
            if_cascade-Preserves cascade (cascade_todos is_pending id acknowledge)
              (cascade_todos-Preserves is_pending id acknowledge (λ now u. refl) (rw done)))
          db found),
    outcome_state Stays (resolve_todo id cascade db) (
        bind-Preserves Stays blind (update_todo id resolve) _
          (update_todo-Preserves id resolve (λ now u. refl) other)
          (λ _.
            if_cascade-Preserves cascade (cascade_todos is_open id resolve)
              (cascade_todos-Preserves is_open id resolve (λ now u. refl) (rw done)))
          db found),
  )
