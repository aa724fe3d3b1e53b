-- ===== src/Auth/Cookie.antt =====
-- SignSessionCookie and ParseSessionCookie of internal/auth/session.go.
pub mod Laws
use changelogue.Prelude.{
  ℕ, ◌+◌, ◌-◌, ◌/◌, ◌%◌, Bool, true, false, Option, none, some, List, [], ◌∷◌, ◌++◌, Bytes, ltb,
  ◌==◌, if◌then◌else◌, same,
}

-- encoding/hex
unfoldable pub hex_digit : ℕ → ℕ
hex_digit n = if ltb n 10 then b'0' + n else b'a' + (n - 10)

unfoldable pub hex_encode : Bytes → Bytes
unfolding hex_digit
hex_encode [] = []
hex_encode (b ∷ bs) = hex_digit (b / 16 % 16) ∷ hex_digit (b % 16) ∷ hex_encode bs

-- HMAC-SHA256 of a message under a key: a parameter, of which nothing is assumed.
abbrev pub Mac : Type 0
Mac = Bytes → Bytes → Bytes

unfoldable pub sign_session_cookie : Mac → Bytes → Bytes → Bytes
unfolding hex_encode
sign_session_cookie mac session secret = session ++ b'.' ∷ hex_encode (mac secret session)

-- strings.LastIndex at one byte, with what stands before it and after it.
abbrev before_or : ℕ → ℕ → Bytes → Option (Bytes × Bytes) → Option (Bytes × Bytes)
before_or sep x xs none = if x == sep then some ([], xs) else none
before_or sep x xs (some (before, after)) = some (x ∷ before, after)

unfoldable pub cut_last : ℕ → Bytes → Option (Bytes × Bytes)
cut_last sep [] = none
cut_last sep (x ∷ xs) = before_or sep x xs (cut_last sep xs)

abbrev pub verified : Mac → Bytes → Option (Bytes × Bytes) → Option Bytes
verified mac secret none = none
verified mac secret (some (session, sig)) =
    if same sig (hex_encode (mac secret session)) then some session else none

-- ParseSessionCookie: `none` is either of its errors.
unfoldable pub parse_session_cookie : Mac → Bytes → Bytes → Option Bytes
unfolding cut_last hex_encode
parse_session_cookie mac cookie secret = verified mac secret (cut_last b'.' cookie)
