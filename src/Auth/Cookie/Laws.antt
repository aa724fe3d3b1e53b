-- ===== src/Auth/Cookie/Laws.antt =====
-- The session cookie: exactly the signed session identifiers are accepted.
use mathlib.Core.Path.{subst}
use changelogue.Prelude.{
  ℕ, ◌/◌, ◌%◌, ==_refl, ==_iff, ◌≡◌, ◌↔◌, refl, ap, ◌∙◌, false, none, some, [], ◌∷◌, ◌++◌, Bytes,
  ◌==◌, same, same_refl, same_iff, arith, Bool-cases, Option-cases, inl, inr,
}
use changelogue.Text.Cut.{Lacks}
use changelogue.Auth.Cookie.{
  hex_digit, hex_encode, Mac, sign_session_cookie, before_or, cut_last, verified,
  parse_session_cookie,
}

hex_digit-ne-dot : (n : ℕ) → (hex_digit n == b'.') ≡ false
unfolding hex_digit
hex_digit-ne-dot n = ground arith

hex_encode-Lacks : (bs : Bytes) → Lacks b'.' (hex_encode bs)
unfolding hex_encode
hex_encode-Lacks [] = tt
hex_encode-Lacks (b ∷ bs) =
    (hex_digit-ne-dot (b / 16 % 16), (hex_digit-ne-dot (b % 16), hex_encode-Lacks bs))

cut_last_lacking : (sep : ℕ) (b : Bytes) → Lacks sep b → cut_last sep b ≡ none
unfolding cut_last
cut_last_lacking sep [] h = refl
cut_last_lacking sep (x ∷ xs) h = rw (cut_last_lacking sep xs h.1, h.0)

cut_last-append : (sep : ℕ) (a b : Bytes) → Lacks sep b → cut_last sep (a ++ sep ∷ b) ≡ some (a, b)
unfolding cut_last
cut_last-append sep [] b h = rw (cut_last_lacking sep b h, ==_refl sep)
cut_last-append sep (x ∷ a) b h = rw (cut_last-append sep a b h)

before_or_here :
    (sep x : ℕ) (xs a b : Bytes) → before_or sep x xs none ≡ some (a, b) → x ∷ xs ≡ a ++ sep ∷ b
before_or_here sep x xs a b h = elim (Bool-cases (x == sep)) [
  | inl hit ↦
      let e : ◌≡◌ {A = Bytes × Bytes} ([], xs) (a, b) = cc (rw hit at h) in
      let at_a : [] ≡ a = ap (λ (p : Bytes × Bytes). p.0) e in
      let at_b : xs ≡ b = ap (λ (p : Bytes × Bytes). p.1) e in
      let same_x : x ≡ sep = (==_iff x sep).0 hit in
      cc (at_b, same_x, subst (λ l. sep ∷ b ≡ l ++ sep ∷ b) at_a refl)
  | inr miss ↦ cc (rw miss at h)
]

before_or_later :
    (sep x : ℕ) (xs a b c d : Bytes)
    → xs ≡ c ++ sep ∷ d
    → before_or sep x xs (some (c, d)) ≡ some (a, b)
    → x ∷ xs ≡ a ++ sep ∷ b
before_or_later sep x xs a b c d cut h =
    let e : (x ∷ c, d) ≡ (a, b) = cc h in
    let at_a : x ∷ c ≡ a = ap (λ (p : Bytes × Bytes). p.0) e in
    let at_b : d ≡ b = ap (λ (p : Bytes × Bytes). p.1) e in
    subst (λ l. x ∷ xs ≡ l ++ sep ∷ b) at_a
      (subst (λ l. x ∷ xs ≡ x ∷ c ++ sep ∷ l) at_b (ap (λ l. x ∷ l) cut))

cut_last_sound : (sep : ℕ) (s a b : Bytes) → cut_last sep s ≡ some (a, b) → s ≡ a ++ sep ∷ b
unfolding cut_last
cut_last_sound sep [] a b h = cc h
cut_last_sound sep (x ∷ xs) a b h = elim (Option-cases (cut_last sep xs)) [
  | inl missing ↦ before_or_here sep x xs a b (rw missing at h)
  | inr ((c, d), found) ↦
      before_or_later sep x xs a b c d (cut_last_sound sep xs c d found) (rw found at h)
]

verified_signed :
    (mac : Mac) (secret session s sig : Bytes)
    → verified mac secret (some (s, sig)) ≡ some session
    → s ++ b'.' ∷ sig ≡ sign_session_cookie mac session secret
unfolding sign_session_cookie
verified_signed mac secret session s sig h =
    elim (Bool-cases (same sig (hex_encode (mac secret s)))) [
      | inl hit ↦
          let e : s ≡ session = cc (rw hit at h) in
          let sig_is : sig ≡ hex_encode (mac secret s) =
            (same_iff sig (hex_encode (mac secret s))).0 hit in
          rw (sig_is, e)
      | inr miss ↦ cc (rw miss at h)
    ]

accepted_signed :
    (mac : Mac) (secret session cookie : Bytes)
    → parse_session_cookie mac cookie secret ≡ some session
    → cookie ≡ sign_session_cookie mac session secret
unfolding parse_session_cookie
accepted_signed mac secret session cookie h = elim (Option-cases (cut_last b'.' cookie)) [
  | inl missing ↦ cc (rw missing at h)
  | inr ((s, sig), found) ↦
      cut_last_sound b'.' cookie s sig found
      ∙ verified_signed mac secret session s sig (rw found at h)
]

signed_accepted :
    (mac : Mac) (secret session : Bytes)
    → parse_session_cookie mac (sign_session_cookie mac session secret) secret ≡ some session
unfolding parse_session_cookie sign_session_cookie
signed_accepted mac secret session = rw (
  cut_last-append b'.' session (hex_encode (mac secret session))
      (hex_encode-Lacks (mac secret session)),
  same_refl (hex_encode (mac secret session)),
)

-- Every cookie that was signed is accepted, with its session; and a cookie that is accepted is the
-- one that signing its session gives. So with the secret, the accepted cookies of a session are one.
pub parse_iff_signed :
    (mac : Mac) (secret session cookie : Bytes)
    → (parse_session_cookie mac cookie secret ≡ some session)
      ↔ (cookie ≡ sign_session_cookie mac session secret)
parse_iff_signed mac secret session cookie = (
  accepted_signed mac secret session cookie,
  λ e. ap (λ c. parse_session_cookie mac c secret) e ∙ signed_accepted mac secret session,
)
