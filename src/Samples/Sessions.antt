-- ===== src/Samples/Sessions.antt =====
-- A store of OAuth states with room for two, and a signed session.
use changelogue.Prelude.{
  ◌≡◌, ◌↔◌, refl, false, none, some, List, [], ◌∷◌, Bytes, same, All, length, arith,
}
use changelogue.Auth.Cookie.{Mac, sign_session_cookie, parse_session_cookie, hex_encode, hex_digit}
use changelogue.Auth.Cookie.Laws.{parse_iff_signed}
use changelogue.Auth.States.{StateStore, consume}
use changelogue.Auth.States.Laws.{
  Call, create_at, consume_at, calls, IsBounded, Spares, calls-IsBounded, consumed_once,
}

abbrev pub first_state : Bytes
first_state = b'6' ∷ b'1' ∷ []

abbrev pub stored : StateStore
stored = record { entries = (first_state, 700) ∷ []; max_size = 2; ttl = 600 }

stored-IsBounded : IsBounded stored
stored-IsBounded = record { within = omega arith }

abbrev busy : List Call
busy =
    create_at 110 (some (b'b' ∷ []))
    ∷ create_at 120 none
    ∷ consume_at 130 (b'6' ∷ [])
    ∷ create_at 140 (some (b'c' ∷ []))
    ∷ []

calls-IsBounded_example : IsBounded (calls busy stored)
calls-IsBounded_example = calls-IsBounded busy stored stored-IsBounded

busy-Spares : All (Spares first_state) busy
unfolding Spares hex_encode hex_digit same
busy-Spares = (refl, (tt, (tt, (refl, tt))))

consumed_once_example :
    (consume 150 first_state (calls busy (consume 105 first_state stored).1)).0 ≡ false
consumed_once_example = consumed_once 105 150 first_state busy stored busy-Spares

-- A message authentication code that is short enough to read.
abbrev pub short_mac : Mac
short_mac secret message = length message ∷ length secret ∷ []

parse_iff_signed_example :
    (parse_session_cookie short_mac
        (b's' ∷ b'.' ∷ b'0' ∷ b'1' ∷ b'0' ∷ b'2' ∷ [])
        (b'k' ∷ b'y' ∷ [])
      ≡ some (b's' ∷ []))
    ↔ ((b's' ∷ b'.' ∷ b'0' ∷ b'1' ∷ b'0' ∷ b'2' ∷ [])
        ≡ sign_session_cookie short_mac (b's' ∷ []) (b'k' ∷ b'y' ∷ []))
parse_iff_signed_example =
    parse_iff_signed short_mac (b'k' ∷ b'y' ∷ []) (b's' ∷ [])
      (b's' ∷ b'.' ∷ b'0' ∷ b'1' ∷ b'0' ∷ b'2' ∷ [])
