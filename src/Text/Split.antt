-- ===== src/Text/Split.antt =====
-- Splitting undoes joining.
use good_mitm.Prelude.{
  ◌≡◌, refl, sym, ◌∙◌, ap, ◌==◌, false, List, [], ◌∷◌, ◌++◌, append-nil, append_assoc, All,
}
use good_mitm.Text.{Text, codes, starts_with, split_from, split, join}

-- No byte of the text is a semicolon.
abbrev pub IsPlain : Text → Type 0
IsPlain = All (λ c. (c == b';') ≡ false)

split_from-plain :
    (cur p s : Text)
    → IsPlain p
    → split_from (codes "; ") 0 cur (p ++ s) ≡ split_from (codes "; ") 0 (cur ++ p) s
unfolding split_from starts_with
split_from-plain cur [] s h = rw append-nil refl
split_from-plain cur (c ∷ p) s (other, h) =
    rw (other, split_from)
      (split_from-plain (cur ++ (c ∷ [])) p s h
        ∙ ap (λ t. split_from (codes "; ") 0 t s) (append_assoc cur (c ∷ []) p))

split_from-separator :
    (cur s : Text)
    → split_from (codes "; ") 0 cur (codes "; " ++ s) ≡ cur ∷ split_from (codes "; ") 0 [] s
unfolding split_from starts_with
split_from-separator cur s = refl

split_from-join :
    (x : Text) (xs : List Text)
    → All IsPlain (x ∷ xs)
    → split_from (codes "; ") 0 [] (join (codes "; ") (x ∷ xs)) ≡ x ∷ xs
unfolding join split_from
split_from-join x [] (p, _) =
    ap (split_from (codes "; ") 0 []) (sym (append-nil x)) ∙ split_from-plain [] x [] p
split_from-join x (y ∷ ys) (p, h) =
    ap (split_from (codes "; ") 0 []) (append_assoc x (codes "; ") (join (codes "; ") (y ∷ ys)))
    ∙ split_from-plain [] x (codes "; " ++ join (codes "; ") (y ∷ ys)) p
    ∙ split_from-separator x (join (codes "; ") (y ∷ ys))
    ∙ ap (λ r. x ∷ r) (split_from-join y ys h)

-- Texts without semicolons that are joined by `; ` are what splitting at it gives, if there are any.
pub split-join :
    (x : Text) (xs : List Text)
    → All IsPlain (x ∷ xs)
    → split (codes "; ") (join (codes "; ") (x ∷ xs)) ≡ x ∷ xs
unfolding split
split-join x xs h = split_from-join x xs h
