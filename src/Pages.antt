-- ===== src/Pages.antt =====
-- Pagination: ParsePagination of internal/api/response.go, and LIMIT and OFFSET as the stores of
-- internal/api/pgstore.go compute them.
pub mod Cover
use changelogue.Prelude.{
  ℕ, ◌+◌, ◌-◌, ◌*◌, ◌%◌, Bool, ◌&&◌, Option, none, some, List, [], ◌∷◌, Bytes, ltb, leb, ◌==◌,
  if◌then◌else◌, take, drop,
}
use changelogue.Text.Decimal.{max_uint64, max_int64, parse_uint}

-- `strconv.Atoi(v)` where it gives no error and a positive number, at most `limit`.
abbrev within : ℕ → Option ℕ → Option ℕ
within limit none = none
within limit (some n) = if ltb 0 n && leb n limit then some n else none

unfoldable pub positive : ℕ → Bytes → Option ℕ
unfolding parse_uint
positive limit [] = none
positive limit (c ∷ rest) =
    if c == b'+' then within limit (parse_uint rest) else within limit (parse_uint (c ∷ rest))

abbrev or_else : ℕ → Option ℕ → ℕ
or_else n none = n
or_else n (some m) = m

pub record Pagination : Type 0 where
  pub page : ℕ
  pub per_page : ℕ

-- ParsePagination, of the texts of the two parameters; a parameter that is not there is empty.
unfoldable pub parse_pagination : Bytes → Bytes → Pagination
unfolding positive
parse_pagination page per_page = record {
  page = or_else 1 (positive max_int64 page);
  per_page = or_else 25 (positive 100 per_page);
}

-- `(page - 1) * perPage` on a 64-bit integer, as its bits; 2 ^ 63 and above stand for negative numbers.
unfoldable pub offset_of : Pagination → ℕ
offset_of p = (p.page - 1) * p.per_page % (max_uint64 + 1)

-- `LIMIT $n OFFSET $m`: PostgreSQL refuses a negative offset.
unfoldable pub window {ℓ} : {A : Type ℓ} → Pagination → List A → Option (List A)
unfolding offset_of
window p rows =
    if ltb max_int64 (offset_of p) then none else some (take p.per_page (drop (offset_of p) rows))
