-- ===== src/Text.antt =====
-- The functions of Go's `strings` and `strconv` packages that the code calls, over bytes.
-- Case and white space are those of ASCII: bytes over 127 are left alone.
pub mod Decimal
pub mod Cut
pub mod Affix
use changelogue.Prelude.{
  ℕ, zero, suc, ◌+◌, ◌-◌, ◌*◌, ◌^◌, Bool, true, false, ◌&&◌, ◌||◌, not, Option, none, some, List,
  [], ◌∷◌, ◌++◌, map, Bytes, ltb, leb, ◌==◌, if◌then◌else◌, length, same, is_empty,
}

abbrev pub is_digit : ℕ → Bool
is_digit c = leb b'0' c && leb c b'9'

unfoldable pub lower_byte : ℕ → ℕ
lower_byte c = if leb b'A' c && leb c b'Z' then c + 32 else c

-- strings.ToLower
unfoldable pub to_lower : Bytes → Bytes
unfolding lower_byte
to_lower s = map lower_byte s

-- strings.HasPrefix
unfoldable pub has_prefix : Bytes → Bytes → Bool
has_prefix [] s = true
has_prefix (p ∷ ps) [] = false
has_prefix (p ∷ ps) (x ∷ xs) = p == x && has_prefix ps xs

-- strings.TrimPrefix with a prefix of one byte
unfoldable pub trim_prefix : ℕ → Bytes → Bytes
trim_prefix p [] = []
trim_prefix p (x ∷ xs) = if x == p then xs else x ∷ xs

-- strings.Contains
unfoldable pub contains_text : Bytes → Bytes → Bool
unfolding has_prefix
contains_text [] sub = is_empty sub
contains_text (x ∷ xs) sub = has_prefix sub (x ∷ xs) || contains_text xs sub

-- strings.Cut at one byte: what stands before its first occurrence, and what stands after.
unfoldable pub cut : ℕ → Bytes → Bytes × Option Bytes
cut sep [] = ([], none)
cut sep (x ∷ xs) =
    let (before, after) = cut sep xs in if x == sep then ([], some xs) else (x ∷ before, after)

-- strings.SplitN with a separator of one byte
abbrev pub split_rest : (Bytes → List Bytes) → Bytes × Option Bytes → List Bytes
split_rest again (before, none) = before ∷ []
split_rest again (before, some rest) = before ∷ again rest

unfoldable pub split_n : ℕ → ℕ → Bytes → List Bytes
unfolding cut
split_n sep zero s = []
split_n sep (suc zero) s = s ∷ []
split_n sep (suc (suc n)) s = split_rest (split_n sep (suc n)) (cut sep s)

-- strings.Split with a separator of one byte
abbrev add_to_first : ℕ → List Bytes → List Bytes
add_to_first x [] = (x ∷ []) ∷ []
add_to_first x (p ∷ ps) = (x ∷ p) ∷ ps

unfoldable pub split : ℕ → Bytes → List Bytes
split sep [] = [] ∷ []
split sep (x ∷ xs) = let rest = split sep xs in if x == sep then [] ∷ rest else add_to_first x rest

abbrev pub is_space : ℕ → Bool
is_space c = c == 32 || (leb 9 c && leb c 13)

unfoldable pub trim_left : Bytes → Bytes
trim_left [] = []
trim_left (x ∷ xs) = let rest = trim_left xs in if is_space x then rest else x ∷ xs

unfoldable pub trim_right : Bytes → Bytes
trim_right [] = []
trim_right (x ∷ xs) =
    let rest = trim_right xs in if is_space x && is_empty rest then [] else x ∷ rest

-- strings.TrimSpace
unfoldable pub trim_space : Bytes → Bytes
unfolding trim_left trim_right
trim_space s = trim_right (trim_left s)

-- strings.ReplaceAll for a non-empty `old`. `skip` counts the bytes of a match still to be passed.
unfoldable pub replace_from : Bytes → Bytes → ℕ → Bytes → Bytes
unfolding has_prefix
replace_from old new skip [] = []
replace_from old new (suc skip) (x ∷ xs) = replace_from old new skip xs
replace_from old new zero (x ∷ xs) =
    let found = new ++ replace_from old new (length old - 1) xs in
    let kept = x ∷ replace_from old new 0 xs in if has_prefix old (x ∷ xs) then found else kept

unfoldable pub replace_all : Bytes → Bytes → Bytes → Bytes
unfolding replace_from
replace_all s old new = replace_from old new 0 s
