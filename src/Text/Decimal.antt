-- ===== src/Text/Decimal.antt =====
-- strconv.Itoa, strconv.Atoi and `%d`: decimal numerals of 64-bit integers.
use changelogue.Prelude.{
  ℕ, zero, suc, ◌+◌, ◌-◌, ◌*◌, ◌/◌, ◌%◌, ◌≤◌, ◌<◌, ◌≡◌, ◌≢◌, refl, Bool, true, false, ◌&&◌, Option,
  none, some, [], ◌∷◌, Bytes, ltb, leb, ◌==◌, if◌then◌else◌, Bool-cases, inl, inr, arith, All,
}

-- `negsuc n` is -(n + 1).
pub data ℤ : Type 0 where
  pos : ℕ → ℤ
  negsuc : ℕ → ℤ

-- a < b
unfoldable pub lt_int : ℤ → ℤ → Bool
lt_int (pos a) (pos b) = ltb a b
lt_int (pos a) (negsuc b) = false
lt_int (negsuc a) (pos b) = true
lt_int (negsuc a) (negsuc b) = ltb b a

-- The digits of `n`, before `rest`. Division by ten falls below `n`, so fuel over `n` is enough.
decimal_from : ℕ → ℕ → Bytes → Bytes
decimal_from zero n rest = rest
decimal_from (suc fuel) n rest =
    let digit = b'0' + n % 10 in
    let longer = decimal_from fuel (n / 10) (digit ∷ rest) in
    if n / 10 == 0 then digit ∷ rest else longer

unfoldable pub decimal : ℕ → Bytes
unfolding decimal_from
decimal n = decimal_from (suc n) n []

abbrev pub max_uint64 : ℕ
max_uint64 = 18446744073709551615

abbrev pub max_int64 : ℕ
max_int64 = 9223372036854775807

-- The loop of strconv.ParseUint: `none` is a syntax error, and a value out of range is returned as
-- the greatest one, as soon as it is passed.
unfoldable pub parse_uint_from : ℕ → Bytes → Option ℕ
parse_uint_from n [] = some n
parse_uint_from n (c ∷ rest) =
    let next = n * 10 + (c - b'0') in
    let more = parse_uint_from next rest in
    if leb b'0' c && leb c b'9'
    then (if ltb max_uint64 next then some max_uint64 else more)
    else none

unfoldable pub parse_uint : Bytes → Option ℕ
unfolding parse_uint_from
parse_uint [] = none
parse_uint (c ∷ rest) = parse_uint_from 0 (c ∷ rest)

-- The value that Atoi returns beside its error: 0 for a syntax error, the nearest 64-bit integer
-- for a value out of range.
abbrev clamp_pos : Option ℕ → ℤ
clamp_pos none = pos 0
clamp_pos (some n) = if ltb max_int64 n then pos max_int64 else pos n

abbrev clamp_neg : Option ℕ → ℤ
clamp_neg none = pos 0
clamp_neg (some n) =
    if ltb max_int64 n then negsuc max_int64 else (if n == 0 then pos 0 else negsuc (n - 1))

unfoldable pub atoi : Bytes → ℤ
unfolding parse_uint
atoi [] = pos 0
atoi (c ∷ rest) =
    if c == b'-'
    then clamp_neg (parse_uint rest)
    else if c == b'+'
    then clamp_pos (parse_uint rest)
    else clamp_pos (parse_uint (c ∷ rest))

abbrev pub IsDigit : ℕ → Type 0
IsDigit c = (b'0' ≤ c) × (c ≤ b'9')

decimal_from-IsDigit :
    (fuel n : ℕ) (rest : Bytes) → All IsDigit rest → All IsDigit (decimal_from fuel n rest)
unfolding decimal_from
decimal_from-IsDigit zero n rest h = h
decimal_from-IsDigit (suc fuel) n rest h = elim (Bool-cases (n / 10 == 0)) [
  | inl last ↦ rw last (omega arith, h)
  | inr more ↦
      rw more (decimal_from-IsDigit fuel (n / 10) ((b'0' + n % 10) ∷ rest) (omega arith, h))
]

pub decimal-IsDigit : (n : ℕ) → All IsDigit (decimal n)
unfolding decimal
decimal-IsDigit n = decimal_from-IsDigit (suc n) n [] tt

-- Reading what was printed goes on from the number with `n` in it.
parse_uint_from-decimal_from :
    (fuel n : ℕ) (rest : Bytes)
    → n < fuel
    → n ≤ max_uint64
    → parse_uint_from 0 (decimal_from fuel n rest) ≡ parse_uint_from n rest
unfolding decimal_from parse_uint_from
parse_uint_from-decimal_from zero n rest h k = absurd (omega arith)
parse_uint_from-decimal_from (suc fuel) n rest h k = elim (Bool-cases (n / 10 == 0)) [
  | inl last ↦ rw last (ground arith)
  | inr more ↦
      rw
        (
          more,
          parse_uint_from-decimal_from fuel (n / 10) ((b'0' + n % 10) ∷ rest) (ground arith)
              (omega arith),
        )
        (ground arith)
]

decimal_from-ne-nil : (fuel n c : ℕ) (rest : Bytes) → decimal_from fuel n (c ∷ rest) ≢ []
unfolding decimal_from
decimal_from-ne-nil zero n c rest h = cc
decimal_from-ne-nil (suc fuel) n c rest h = elim (Bool-cases (n / 10 == 0)) [
  | inl last ↦ cc (rw last at h)
  | inr more ↦ decimal_from-ne-nil fuel (n / 10) (b'0' + n % 10) (c ∷ rest) (rw more at h)
]

pub decimal-ne-nil : (n : ℕ) → decimal n ≢ []
unfolding decimal decimal_from
decimal-ne-nil n h = elim (Bool-cases (n / 10 == 0)) [
  | inl last ↦ cc (rw last at h)
  | inr more ↦ decimal_from-ne-nil n (n / 10) (b'0' + n % 10) [] (rw more at h)
]

atoi_of_digits : (s : Bytes) → All IsDigit s → s ≢ [] → atoi s ≡ clamp_pos (parse_uint_from 0 s)
unfolding atoi
atoi_of_digits [] d h = absurd (h refl)
atoi_of_digits (c ∷ rest) d h = ground arith

-- Atoi reads back every 63-bit number that was printed.
pub atoi-decimal : (n : ℕ) → n ≤ max_int64 → atoi (decimal n) ≡ pos n
unfolding decimal parse_uint_from
atoi-decimal n h =
    rw
      (
        atoi_of_digits (decimal n) (decimal-IsDigit n) (decimal-ne-nil n),
        parse_uint_from-decimal_from (suc n) n [] (omega arith) (omega arith),
      )
      (ground arith)
