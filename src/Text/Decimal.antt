-- ===== src/Text/Decimal.antt =====
-- The digits of a number read back as it.
use good_mitm.Prelude.{
  all, ℕ, zero, suc, ◌≡◌, refl, sym, ◌∙◌, ap, ◌+◌, ◌-◌, ◌*◌, ◌/◌, ◌%◌, ◌<◌, ltb, leb, Bool, true,
  Bool-cases, inl, inr, ◌&&◌, Option, none, some, [], ◌∷◌, if◌then◌else◌, arith,
}
use mathlib.Core.Path.{subst}
use good_mitm.Text.{Text, digits_from, to_decimal}

abbrev pub is_digit : ℕ → Bool
is_digit c = leb b'0' c && leb c b'9'

-- The number that the digits go on with, from the one that was read before them.
unfoldable pub read_digits : ℕ → Text → Option ℕ
read_digits n [] = some n
read_digits n (c ∷ s) =
    let rest = read_digits (10 * n + (c - b'0')) s in if is_digit c then rest else none

-- The number that a text of digits names.
unfoldable pub read_decimal : Text → Option ℕ
unfolding read_digits
read_decimal [] = none
read_decimal (c ∷ s) = read_digits 0 (c ∷ s)

read_digits-digit :
    (n d : ℕ) (s : Text) → d < 10 → read_digits n ((b'0' + d) ∷ s) ≡ read_digits (10 * n + d) s
unfolding read_digits
read_digits-digit n d s h =
    let digit : is_digit (b'0' + d) ≡ true = ground arith in
    let value : 10 * n + (b'0' + d - b'0') ≡ 10 * n + d = omega arith in rw (digit, value) refl

digits_from_lem :
    (fuel n : ℕ) (out : Text)
    → n < fuel
    → read_digits 0 (digits_from fuel n out) ≡ read_digits n out
unfolding digits_from
digits_from_lem zero n out h = absurd (omega (arith, h))
digits_from_lem (suc fuel) n out h = elim (Bool-cases (ltb n 10)) [
  | inl low ↦
      let small : n < 10 = ground arith in
      rw (low, digits_from)
        (read_digits-digit 0 n out small ∙ ap (λ m. read_digits m out) (omega arith))
  | inr high ↦
      let smaller : n / 10 < fuel = ground arith in
      let last : n % 10 < 10 = omega arith in
      let whole : 10 * (n / 10) + n % 10 ≡ n = omega arith in
      rw (high, digits_from)
        (digits_from_lem fuel (n / 10) ((b'0' + n % 10) ∷ out) smaller
          ∙ read_digits-digit (n / 10) (n % 10) out last
          ∙ ap (λ m. read_digits m out) whole)
]

read_decimal_of_cons :
    (s : Text) → ((c : ℕ) × (t : Text) × (s ≡ c ∷ t)) → read_decimal s ≡ read_digits 0 s
unfolding read_decimal
read_decimal_of_cons s (c, t, e) = subst (λ u. read_decimal u ≡ read_digits 0 u) (sym e) refl

digits_from-cons :
    (fuel n c : ℕ) (out : Text) → (d : ℕ) × (s : Text) × (digits_from fuel n (c ∷ out) ≡ d ∷ s)
unfolding digits_from
digits_from-cons zero n c out = (c, out, refl)
digits_from-cons (suc fuel) n c out = elim (Bool-cases (ltb n 10)) [
  | inl low ↦ (b'0' + n, c ∷ out, rw (low, digits_from) refl)
  | inr high ↦
      let (d, s, e) = digits_from-cons fuel (n / 10) (b'0' + n % 10) (c ∷ out) in
      (d, s, rw (high, digits_from) e)
]

to_decimal-cons : (n : ℕ) → (d : ℕ) × (s : Text) × (to_decimal n ≡ d ∷ s)
unfolding to_decimal digits_from
to_decimal-cons n = elim (Bool-cases (ltb n 10)) [
  | inl low ↦ (b'0' + n, [], rw (low, digits_from) refl)
  | inr high ↦
      let (d, s, e) = digits_from-cons n (n / 10) (b'0' + n % 10) [] in
      (d, s, rw (high, digits_from) e)
]

-- The decimal text of a number reads back as the number.
pub read_decimal-to_decimal : (n : ℕ) → read_decimal (to_decimal n) ≡ some n
unfolding to_decimal read_digits
read_decimal-to_decimal n =
    read_decimal_of_cons (to_decimal n) (to_decimal-cons n)
    ∙ digits_from_lem (suc n) n [] (omega arith)

all-digits_from :
    (p : ℕ → Bool)
    → ((d : ℕ) → d < 10 → p (b'0' + d) ≡ true)
    → (fuel n : ℕ) (out : Text) → all p out ≡ true
    → all p (digits_from fuel n out) ≡ true
unfolding digits_from
all-digits_from p h zero n out k = k
all-digits_from p h (suc fuel) n out k = elim (Bool-cases (ltb n 10)) [
  | inl low ↦
      let small : n < 10 = ground arith in let digit = h n small in rw (low, digits_from, digit) k
  | inr high ↦
      let small : n % 10 < 10 = omega arith in
      let digit = h (n % 10) small in
      let with_digit : all p ((b'0' + n % 10) ∷ out) ≡ true = rw digit k in
      rw (high, digits_from) (all-digits_from p h fuel (n / 10) ((b'0' + n % 10) ∷ out) with_digit)
]

-- What holds of the digits holds of all bytes of the decimal text of a number.
pub all-to_decimal :
    (p : ℕ → Bool)
    → ((d : ℕ) → d < 10 → p (b'0' + d) ≡ true)
    → (n : ℕ) → all p (to_decimal n) ≡ true
unfolding to_decimal
all-to_decimal p h n = all-digits_from p h (suc n) n [] refl
