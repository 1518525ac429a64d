-- ===== src/TextModify/Replacing.antt =====
-- What `exec_action` gives for each way to write a change of a text.
use good_mitm.Prelude.{ℕ, ◌≡◌, Option, refl, some, ◌∷◌}
use good_mitm.Text.{Text}
use good_mitm.Text.Replace.{Replaced, replace-Replaced}
use good_mitm.Env.{Env}
use good_mitm.Io.{pure}
use good_mitm.TextModify.{complex, exec_action}

module _ (E : Env) where
  -- With an `origin` that is not empty, each of its occurrences in the text, from the left, is
  -- replaced by `new` and all else is kept, also if an expression is given.
  pub exec_action-Replaced :
      (c : ℕ) (from new : Text) (re : Option Text) (text : Text)
      → (result : Text) × (exec_action E
            (complex (record { origin = some (c ∷ from); re = re; new = new }))
            text
          ≡ pure result)
        × Replaced (c ∷ from) new text result
  unfolding exec_action
  exec_action-Replaced c from new re text = (_, refl, replace-Replaced c from new text)
