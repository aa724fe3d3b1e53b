-- ===== src/Auth/States.antt =====
-- internal/auth/state.go: the OAuth state parameters that wait for their callback.
pub mod Laws
use changelogue.Prelude.{
  ℕ, ◌+◌, Bool, true, false, not, Option, none, some, List, [], ◌∷◌, Bytes, ltb, leb, ◌==◌,
  if◌then◌else◌, same, length, keep,
}
use changelogue.Auth.Cookie.{hex_encode}

-- `entries` maps a state to the time at which it expires. A mutex makes each operation atomic.
pub record StateStore : Type 0 where
  pub entries : List (Bytes × ℕ)
  pub max_size : ℕ
  pub ttl : ℕ

-- NewStateStore
abbrev pub new_state_store : ℕ → ℕ → StateStore
new_state_store max_size ttl = record { entries = []; max_size = max_size; ttl = ttl }

unfoldable pub find_state : Bytes → List (Bytes × ℕ) → Option ℕ
find_state state [] = none
find_state state ((k, expires) ∷ es) = if same k state then some expires else find_state state es

-- `delete(entries, state)`
unfoldable pub remove_state : Bytes → List (Bytes × ℕ) → List (Bytes × ℕ)
remove_state state [] = []
remove_state state ((k, expires) ∷ es) =
    let rest = remove_state state es in if same k state then rest else (k, expires) ∷ rest

-- `now.After(v.expiresAt)` entries go.
unfoldable pub sweep : ℕ → List (Bytes × ℕ) → List (Bytes × ℕ)
unfolding keep
sweep now entries = keep (λ e. not (ltb e.1 now)) entries

abbrev pub add_state : ℕ → StateStore → Option Bytes → Bytes × StateStore
add_state now s none = ([], s)
add_state now s (some random) =
    let state = hex_encode random in
    (state, record s { entries = (state, now + s.ttl) ∷ remove_state state s.entries })

-- Create: `random` is what the random source gives, `none` its error. The empty text is a refusal.
unfoldable pub create : ℕ → Option Bytes → StateStore → Bytes × StateStore
unfolding sweep remove_state
create now random s =
    let swept = record s { entries = sweep now s.entries } in
    if leb s.max_size (length swept.entries) then ([], swept) else add_state now swept random

abbrev pub consume_found : ℕ → Bytes → StateStore → Option ℕ → Bool × StateStore
consume_found now state s none = (false, s)
consume_found now state s (some expires) =
    (ltb now expires, record s { entries = remove_state state s.entries })

-- Consume
unfoldable pub consume : ℕ → Bytes → StateStore → Bool × StateStore
unfolding find_state remove_state
consume now state s = consume_found now state s (find_state state s.entries)
