-- ===== src/Text/Cut.antt =====
-- Cutting and splitting at a separator that one part does not hold.
use changelogue.Prelude.{
  ℕ, ◌≡◌, refl, false, none, some, List, [], ◌∷◌, ◌++◌, Bytes, ◌==◌, arith, All,
}
use changelogue.Text.{cut, trim_prefix}

-- No byte of the text is `sep`.
abbrev pub Lacks : ℕ → Bytes → Type 0
Lacks sep = All (λ c. (c == sep) ≡ false)

pub cut-append :
    (sep : ℕ) (a rest : Bytes) → Lacks sep a → cut sep (a ++ sep ∷ rest) ≡ (a, some rest)
unfolding cut
cut-append sep [] rest h = ground arith
cut-append sep (c ∷ a) rest h = ground (arith, cut-append sep a rest h.1)

pub cut_lacking : (sep : ℕ) (a : Bytes) → Lacks sep a → cut sep a ≡ (a, none)
unfolding cut
cut_lacking sep [] h = refl
cut_lacking sep (c ∷ a) h = ground (arith, cut_lacking sep a h.1)

pub trim_prefix_self : (p : ℕ) (s : Bytes) → trim_prefix p (p ∷ s) ≡ s
unfolding trim_prefix
trim_prefix_self p s = ground arith

pub All-imp {ℓ κ ι} :
    {A : Type ℓ} {P : A → Type κ} {Q : A → Type ι} (xs : List A)
    → ((x : A) → P x → Q x)
    → All P xs
    → All Q xs
All-imp [] f h = tt
All-imp (x ∷ xs) f h = (f x h.0, All-imp xs f h.1)
