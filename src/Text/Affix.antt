-- ===== src/Text/Affix.antt =====
-- strings.TrimPrefix and strings.TrimSuffix with a text, and filepath.Base.
use changelogue.Prelude.{
  ℕ, ◌-◌, Bool, false, List, [], ◌∷◌, Bytes, ◌==◌, leb, if◌then◌else◌, is_empty, length, drop, take,
  same,
}
use changelogue.Text.{has_prefix, split}

unfoldable pub trim_prefix_text : Bytes → Bytes → Bytes
unfolding has_prefix
trim_prefix_text p s = if has_prefix p s then drop (length p) s else s

-- strings.HasSuffix
unfoldable pub has_suffix : Bytes → Bytes → Bool
unfolding same
has_suffix p s = if leb (length p) (length s) then same (drop (length s - length p) s) p else false

unfoldable pub trim_suffix_text : Bytes → Bytes → Bytes
unfolding has_suffix
trim_suffix_text p s = if has_suffix p s then take (length s - length p) s else s

-- strings.TrimRight with one byte
unfoldable pub trim_right_byte : ℕ → Bytes → Bytes
trim_right_byte c [] = []
trim_right_byte c (x ∷ xs) =
    let rest = trim_right_byte c xs in
    if is_empty rest then if x == c then [] else x ∷ [] else x ∷ rest

abbrev last_part : List Bytes → Bytes
last_part [] = []
last_part (p ∷ []) = p
last_part (p ∷ q ∷ ps) = last_part (q ∷ ps)

abbrev or_slash : Bytes → Bytes
or_slash [] = b'/' ∷ []
or_slash (c ∷ rest) = last_part (split b'/' (c ∷ rest))

-- filepath.Base on Unix
unfoldable pub base_name : Bytes → Bytes
unfolding trim_right_byte split
base_name [] = b'.' ∷ []
base_name (c ∷ path) = or_slash (trim_right_byte b'/' (c ∷ path))

-- strings.Trim with one byte
unfoldable pub trim_left_byte : ℕ → Bytes → Bytes
trim_left_byte c [] = []
trim_left_byte c (x ∷ xs) = let rest = trim_left_byte c xs in if x == c then rest else x ∷ xs

unfoldable pub trim_byte : ℕ → Bytes → Bytes
unfolding trim_left_byte trim_right_byte
trim_byte c s = trim_right_byte c (trim_left_byte c s)
