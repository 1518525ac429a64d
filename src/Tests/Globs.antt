-- ===== src/Tests/Globs.antt =====
-- A matcher of globs that meets the laws of `WildMatch`.
use good_mitm.Prelude.{
  ℕ, ◌≡◌, refl, Bool, true, false, not, ◌||◌, ◌&&◌, Bool-cases, inl, inr, [], ◌∷◌, ◌++◌, arith,
  ◌==◌, if◌then◌else◌, all,
}
use good_mitm.Text.{Text}
use good_mitm.Env.Laws.{Glob, end, same, star}

unfoldable pub some_suffix : (Text → Bool) → Text → Bool
some_suffix f [] = f []
some_suffix f (c ∷ s) = f (c ∷ s) || some_suffix f s

unfoldable pub glob : Text → Text → Bool
unfolding some_suffix
glob [] [] = true
glob [] (_ ∷ _) = false
glob (p ∷ ps) [] = if p == b'*' then some_suffix (glob ps) [] else false
glob (p ∷ ps) (c ∷ s) =
    if p == b'*' then some_suffix (glob ps) (c ∷ s) else (p == c || p == b'?') && glob ps s

some_suffix_here : (f : Text → Bool) (s : Text) → f s ≡ true → some_suffix f s ≡ true
unfolding some_suffix
some_suffix_here f [] h = h
some_suffix_here f (c ∷ s) h = rw h

some_suffix-append : (f : Text → Bool) (u s : Text) → f s ≡ true → some_suffix f (u ++ s) ≡ true
unfolding some_suffix
some_suffix-append f [] s h = some_suffix_here f s h
some_suffix-append f (c ∷ u) s h = ground (arith, some_suffix-append f u s h)

glob-star : (p s : Text) → some_suffix (glob p) s ≡ true → glob (b'*' ∷ p) s ≡ true
unfolding glob
glob-star p [] h = h
glob-star p (c ∷ s) h = h

glob-same : (c : ℕ) (p s : Text) → glob p s ≡ true → glob (c ∷ p) (c ∷ s) ≡ true
unfolding glob some_suffix
glob-same c p s h = elim (Bool-cases (c == b'*')) [
  | inl is_star ↦ rw is_star (ground (arith, some_suffix_here (glob p) s h))
  | inr other ↦ ground arith
]

pub glob_complete : {p s : Text} → Glob p s → glob p s ≡ true
unfolding glob
glob_complete end = refl
glob_complete (same {p} {s} c g) = glob-same c p s (glob_complete g)
glob_complete (star {p} {s} u g) =
    glob-star p (u ++ s) (some_suffix-append (glob p) u s (glob_complete g))

pub glob_plain :
    (p s : Text)
    → all (λ c. not (c == b'*')) p ≡ true
    → all (λ c. not (c == b'?')) p ≡ true
    → glob p s ≡ true
    → p ≡ s
unfolding glob
glob_plain [] [] n q h = refl
glob_plain [] (_ ∷ _) n q h = cc
glob_plain (p ∷ ps) [] n q h = ground arith
glob_plain (p ∷ ps) (c ∷ s) n q h = ground (arith, glob_plain ps s)
