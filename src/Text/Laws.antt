-- ===== src/Text/Laws.antt =====
-- What the tests on texts say, as statements about the pieces of a text.
use good_mitm.Prelude.{
  ℕ, ◌≡◌, refl, ap, ◌↔◌, true, [], ◌∷◌, ◌++◌, map, arith, inl, inr, ◌∙◌, Bool-cases, all,
}
use good_mitm.Text.{Text, eq, starts_with, ends_with, contains, is_ascii, lower_byte, to_lowercase}

pub eq_sound : (s t : Text) → eq s t ≡ true → s ≡ t
unfolding eq
eq_sound [] [] h = refl
eq_sound [] (_ ∷ _) h = cc
eq_sound (_ ∷ _) [] h = cc
eq_sound (c ∷ s) (d ∷ t) h = ground (arith, eq_sound s t)

pub eq_refl : (s : Text) → eq s s ≡ true
unfolding eq
eq_refl [] = refl
eq_refl (c ∷ s) = ground (arith, eq_refl s)

pub eq_iff : (s t : Text) → (eq s t ≡ true) ↔ (s ≡ t)
eq_iff s t = (eq_sound s t, λ e. rw (← e) (eq_refl s))

-- `t` begins `s`.
abbrev pub IsPrefix : Text → Text → Type 0
IsPrefix t s = (u : Text) × (s ≡ t ++ u)

abbrev pub IsSuffix : Text → Text → Type 0
IsSuffix t s = (u : Text) × (s ≡ u ++ t)

abbrev pub IsInfix : Text → Text → Type 0
IsInfix t s = (u : Text) × (v : Text) × (s ≡ u ++ (t ++ v))

pub starts_with_sound : (s t : Text) → starts_with s t ≡ true → IsPrefix t s
unfolding starts_with
starts_with_sound [] [] h = ([], refl)
starts_with_sound (c ∷ s) [] h = (c ∷ s, refl)
starts_with_sound [] (_ ∷ _) h = cc
starts_with_sound (c ∷ s) (d ∷ t) h =
    let (u, e) = starts_with_sound s t (ground arith) in (u, ground arith)

pub starts_with-append : (t u : Text) → starts_with (t ++ u) t ≡ true
unfolding starts_with
starts_with-append [] [] = refl
starts_with-append [] (_ ∷ _) = refl
starts_with-append (c ∷ t) u = ground (arith, starts_with-append t u)

pub starts_with_iff : (s t : Text) → (starts_with s t ≡ true) ↔ IsPrefix t s
starts_with_iff s t = (starts_with_sound s t, λ (u, e). rw e (starts_with-append t u))

pub ends_with_sound : (s t : Text) → ends_with s t ≡ true → IsSuffix t s
unfolding ends_with
ends_with_sound [] t h = ([], eq_sound [] t h)
ends_with_sound (c ∷ s) t h = elim (Bool-cases (eq (c ∷ s) t)) [
  | inl same ↦ ([], eq_sound (c ∷ s) t same)
  | inr other ↦ let (u, e) = ends_with_sound s t (rw other at h) in (c ∷ u, ap (λ r. c ∷ r) e)
]

pub ends_with-append : (u t : Text) → ends_with (u ++ t) t ≡ true
unfolding ends_with
ends_with-append [] [] = refl
ends_with-append [] (c ∷ t) = ground (arith, eq_refl (c ∷ t))
ends_with-append (c ∷ u) t = ground (arith, ends_with-append u t)

pub ends_with_iff : (s t : Text) → (ends_with s t ≡ true) ↔ IsSuffix t s
ends_with_iff s t = (ends_with_sound s t, λ (u, e). rw e (ends_with-append u t))

pub contains_sound : (s t : Text) → contains s t ≡ true → IsInfix t s
unfolding contains
contains_sound [] t h = let (v, e) = starts_with_sound [] t h in ([], v, e)
contains_sound (c ∷ s) t h = elim (Bool-cases (starts_with (c ∷ s) t)) [
  | inl here ↦ let (v, e) = starts_with_sound (c ∷ s) t here in ([], v, e)
  | inr later ↦ let (u, v, e) = contains_sound s t (rw later at h) in (c ∷ u, v, ap (λ r. c ∷ r) e)
]

contains_of_starts_with : (s t : Text) → starts_with s t ≡ true → contains s t ≡ true
unfolding contains
contains_of_starts_with [] t h = h
contains_of_starts_with (c ∷ s) t h = rw h

pub contains-append : (u t v : Text) → contains (u ++ (t ++ v)) t ≡ true
unfolding contains
contains-append [] t v = contains_of_starts_with (t ++ v) t (starts_with-append t v)
contains-append (c ∷ u) t v = ground (arith, contains-append u t v)

pub contains_iff : (s t : Text) → (contains s t ≡ true) ↔ IsInfix t s
contains_iff s t = (contains_sound s t, λ (u, v, e). rw e (contains-append u t v))

-- In ASCII.
abbrev pub IsAscii : Text → Type 0
IsAscii s = all is_ascii s ≡ true

lower_byte_idem : (c : ℕ) → lower_byte (lower_byte c) ≡ lower_byte c
lower_byte_idem c = ground arith

map-lower_byte_idem : (s : Text) → map lower_byte (map lower_byte s) ≡ map lower_byte s
map-lower_byte_idem [] = refl
map-lower_byte_idem (c ∷ s) = cc (lower_byte_idem c, map-lower_byte_idem s)

lower_byte-is_ascii : (c : ℕ) → is_ascii (lower_byte c) ≡ is_ascii c
lower_byte-is_ascii c = ground arith

all-map-lower_byte : (s : Text) → all is_ascii (map lower_byte s) ≡ all is_ascii s
all-map-lower_byte [] = refl
all-map-lower_byte (c ∷ s) = rw (lower_byte-is_ascii c, all-map-lower_byte s)

pub to_lowercase_ascii :
    (unicode : Text → Text) (s : Text) → IsAscii s → to_lowercase unicode s ≡ map lower_byte s
unfolding to_lowercase
to_lowercase_ascii unicode s h = rw h

pub to_lowercase_idem :
    (unicode : Text → Text) (s : Text)
    → IsAscii s
    → to_lowercase unicode (to_lowercase unicode s) ≡ to_lowercase unicode s
to_lowercase_idem unicode s h = rw (to_lowercase_ascii unicode s h) (
    to_lowercase_ascii unicode (map lower_byte s) (all-map-lower_byte s ∙ h)
    ∙ map-lower_byte_idem s)
