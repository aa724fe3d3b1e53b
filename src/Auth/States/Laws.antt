-- ===== src/Auth/States/Laws.antt =====
-- The store of OAuth states stays within its size, and a state is good once and for its time only.
use changelogue.Prelude.{
  ℕ, ◌≤◌, ◌≡◌, refl, Bool, true, false, not, Option, none, some, List, [], ◌∷◌, Bytes, ltb, leb,
  if◌then◌else◌, same, same_refl, same_iff, length, length-keep, keep, All, arith, Bool-cases,
  Option-cases, inl, inr,
}
use changelogue.Auth.Cookie.{hex_encode}
use changelogue.Auth.States.{
  StateStore, find_state, remove_state, sweep, add_state, create, consume,
}

length-remove_state :
    (state : Bytes) (es : List (Bytes × ℕ)) → length (remove_state state es) ≤ length es
unfolding remove_state
length-remove_state state [] = omega arith
length-remove_state state ((k, x) ∷ es) = ground (arith, length-remove_state state es)

find_state-remove_state :
    (state other : Bytes) (es : List (Bytes × ℕ))
    → find_state other (remove_state state es)
      ≡ (if same state other then none else find_state other es)
unfolding find_state remove_state
find_state-remove_state state other [] = ground arith
find_state-remove_state state other ((k, x) ∷ es) = ground (
  arith,
  find_state-remove_state state other es,
  same_iff k state,
  same_iff k other,
  same_iff state other,
)

-- One call on the store, by any client, at any time.
pub data Call : Type 0 where
  create_at : ℕ → Option Bytes → Call
  consume_at : ℕ → Bytes → Call

unfoldable pub call : Call → StateStore → StateStore
call (create_at now random) s = (create now random s).1
call (consume_at now state) s = (consume now state s).1

unfoldable pub calls : List Call → StateStore → StateStore
unfolding call
calls [] s = s
calls (c ∷ cs) s = calls cs (call c s)

pub record IsBounded (s : StateStore) : Type 0 where
  pub within : length s.entries ≤ s.max_size

create-IsBounded :
    (now : ℕ) (random : Option Bytes) (s : StateStore)
    → IsBounded s
    → IsBounded (create now random s).1
unfolding create sweep
create-IsBounded now none s b =
    ground (arith, length-keep (λ (e : Bytes × ℕ). not (ltb e.1 now)) s.entries)
create-IsBounded now (some random) s b =
    let swept = keep (λ (e : Bytes × ℕ). not (ltb e.1 now)) s.entries in
    ground (
      arith,
      length-keep (λ (e : Bytes × ℕ). not (ltb e.1 now)) s.entries,
      length-remove_state (hex_encode random) swept,
    )

consume-IsBounded :
    (now : ℕ) (state : Bytes) (s : StateStore) → IsBounded s → IsBounded (consume now state s).1
unfolding consume
consume-IsBounded now state s b = ground (arith, length-remove_state state s.entries)

-- After any calls, a store that was within its size limit is within it.
pub calls-IsBounded : (cs : List Call) (s : StateStore) → IsBounded s → IsBounded (calls cs s)
unfolding calls call
calls-IsBounded [] s b = b
calls-IsBounded (create_at now random ∷ cs) s b =
    calls-IsBounded cs (create now random s).1 (create-IsBounded now random s b)
calls-IsBounded (consume_at now state ∷ cs) s b =
    calls-IsBounded cs (consume now state s).1 (consume-IsBounded now state s b)

consume-absent :
    (now : ℕ) (state : Bytes) (s : StateStore)
    → find_state state s.entries ≡ none
    → (consume now state s).0 ≡ false
unfolding consume
consume-absent now state s h = rw h

consume-removes :
    (now : ℕ) (state : Bytes) (s : StateStore)
    → find_state state (consume now state s).1.entries ≡ none
unfolding consume
consume-removes now state s = elim (Option-cases (find_state state s.entries)) [
  | inl missing ↦ rw (missing, missing)
  | inr (e, found) ↦ rw (found, find_state-remove_state state state s.entries, same_refl state)
]

none_either : (b : Bool) → ◌≡◌ {A = Option ℕ} (if b then none else none) none
none_either true = refl
none_either false = refl

consume-keeps_absent :
    (now : ℕ) (state other : Bytes) (s : StateStore)
    → find_state state s.entries ≡ none
    → find_state state (consume now other s).1.entries ≡ none
unfolding consume
consume-keeps_absent now state other s h = elim (Option-cases (find_state other s.entries)) [
  | inl missing ↦ rw (missing, h)
  | inr (e, found) ↦
      rw (found, find_state-remove_state other state s.entries, h, none_either (same other state))
]

sweep-keeps_absent :
    (now : ℕ) (state : Bytes) (es : List (Bytes × ℕ))
    → find_state state es ≡ none
    → find_state state (sweep now es) ≡ none
unfolding sweep keep find_state
sweep-keeps_absent now state [] h = refl
sweep-keeps_absent now state ((k, x) ∷ es) h = ground (arith, sweep-keeps_absent now state es)

-- The random state that a call makes, if it makes one, is not this one.
unfoldable pub Spares : Bytes → Call → Type 0
Spares state (create_at now none) = Unit
Spares state (create_at now (some random)) = same (hex_encode random) state ≡ false
Spares state (consume_at now other) = Unit

add_state-keeps_absent :
    (now : ℕ) (state : Bytes) (random : Option Bytes) (s : StateStore)
    → Spares state (create_at now random)
    → find_state state s.entries ≡ none
    → find_state state (add_state now s random).1.entries ≡ none
unfolding Spares find_state
add_state-keeps_absent now state none s spared h = h
add_state-keeps_absent now state (some random) s spared h =
    rw (spared, find_state-remove_state (hex_encode random) state s.entries, spared, h)

create-keeps_absent :
    (now : ℕ) (state : Bytes) (random : Option Bytes) (s : StateStore)
    → Spares state (create_at now random)
    → find_state state s.entries ≡ none
    → find_state state (create now random s).1.entries ≡ none
unfolding create Spares
create-keeps_absent now state random s spared h =
    let swept = record s { entries = sweep now s.entries } in
    let absent = sweep-keeps_absent now state s.entries h in
    elim (Bool-cases (leb s.max_size (length swept.entries))) [
      | inl full ↦ rw (full, absent)
      | inr room ↦ rw (room, add_state-keeps_absent now state random swept spared absent)
    ]

calls-keeps_absent :
    (cs : List Call) (state : Bytes) (s : StateStore)
    → All (Spares state) cs
    → find_state state s.entries ≡ none
    → find_state state (calls cs s).entries ≡ none
unfolding calls call
calls-keeps_absent [] state s spared h = h
calls-keeps_absent (create_at now random ∷ cs) state s spared h =
    calls-keeps_absent cs state (create now random s).1 spared.1
      (create-keeps_absent now state random s spared.0 h)
calls-keeps_absent (consume_at now other ∷ cs) state s spared h =
    calls-keeps_absent cs state (consume now other s).1 spared.1
      (consume-keeps_absent now state other s h)

-- Once a callback has consumed a state, every later callback with it is refused: at any time, and
-- after any calls in between, unless one of these draws the same random state again.
pub consumed_once :
    (now later : ℕ) (state : Bytes) (cs : List Call) (s : StateStore)
    → All (Spares state) cs
    → (consume later state (calls cs (consume now state s).1)).0 ≡ false
consumed_once now later state cs s spared =
    consume-absent later state (calls cs (consume now state s).1)
      (calls-keeps_absent cs state (consume now state s).1 spared (consume-removes now state s))
