-- ===== src/Text/Replace.antt =====
-- `str::replace` against a relation that reads a text from the left.
use good_mitm.Prelude.{
  ℕ, zero, suc, ◌-◌, ◌≡◌, refl, sym, ◌∙◌, Bool-cases, inl, inr, false, [], ◌∷◌, ◌++◌, arith, length,
}
use good_mitm.Text.{Text, starts_with, replace_from, replace}
use good_mitm.Text.Laws.{starts_with_sound}

-- Each occurrence of `from`, from the left and without overlaps, is `to` in the second text, and
-- every byte at which no occurrence begins is kept.
pub data Replaced (from to : Text) : Text → Text → Type 0 where
  done : Replaced from to [] []
  hit : {s t : Text} → Replaced from to s t → Replaced from to (from ++ s) (to ++ t)
  miss :
      {s t : Text} (c : ℕ)
      → starts_with (c ∷ s) from ≡ false
      → Replaced from to s t
      → Replaced from to (c ∷ s) (c ∷ t)

module _ (d : ℕ) (from to : Text) where
  abbrev pattern : Text
  pattern = d ∷ from

  replace_from-Replaced :
      (skip : ℕ) (s v u : Text)
      → s ≡ v ++ u
      → skip ≡ length v
      → Replaced pattern to u (replace_from pattern to skip s)
  unfolding replace_from
  replace_from-Replaced skip [] [] [] e n = done
  replace_from-Replaced skip [] [] (x ∷ u) e n = cc
  replace_from-Replaced skip [] (x ∷ v) u e n = cc
  replace_from-Replaced zero (c ∷ s) (x ∷ v) u e n = cc
  replace_from-Replaced (suc skip) (c ∷ s) [] u e n = cc
  replace_from-Replaced (suc skip) (c ∷ s) (x ∷ v) u e n =
      replace_from-Replaced skip s v u (cc) (cc)
  replace_from-Replaced zero (c ∷ s) [] u e n = elim (Bool-cases (starts_with (c ∷ s) pattern)) [
    | inl found ↦
        let (w, e') = starts_with_sound (c ∷ s) pattern found in
        let whole : u ≡ pattern ++ w = sym e ∙ e' in
        rw (found, whole)
          (hit (replace_from-Replaced (length pattern - 1) s from w (cc e') (omega arith)))
    | inr other ↦ rw (← e, other) (miss c other (replace_from-Replaced zero s [] s refl refl))
  ]

  -- `replace` of a text that is not empty does what the relation says.
  pub replace-Replaced : (s : Text) → Replaced pattern to s (replace s pattern to)
  unfolding replace
  replace-Replaced s = replace_from-Replaced 0 s [] s refl refl
