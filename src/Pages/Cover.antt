-- ===== src/Pages/Cover.antt =====
-- The window of a page of a list.
use changelogue.Prelude.{
  ℕ, ◌+◌, ◌-◌, ◌*◌, ◌≤◌, ◌≡◌, refl, false, some, List, ltb, take, drop, arith,
}
use changelogue.Text.Decimal.{max_int64}
use changelogue.Pages.{Pagination, offset_of, window}

-- Page `k`, from 0 on.
abbrev pub page_at : ℕ → ℕ → Pagination
page_at k per = record { page = k + 1; per_page = per }

offset_of-page_at : (k per : ℕ) → k * per ≤ max_int64 → offset_of (page_at k per) ≡ k * per
unfolding offset_of
offset_of-page_at k per h = let e : k + 1 - 1 ≡ k = omega arith in rw e (omega arith)

pub window-page_at {ℓ} :
    {A : Type ℓ} (k per : ℕ) (rows : List A)
    → k * per ≤ max_int64
    → window (page_at k per) rows ≡ some (take per (drop (k * per) rows))
unfolding window
window-page_at k per rows h =
    let e : ltb max_int64 (k * per) ≡ false = ground arith in rw (offset_of-page_at k per h, e) refl
