-- ===== src/Modify/Bodies.antt =====
-- A change of the text of a body, seen by who reads the new body.
use good_mitm.Prelude.{ℕ, ◌≡◌, refl, true, Option, some, List, ◌∷◌}
use good_mitm.Text.{Text, from_utf8}
use good_mitm.Text.Replace.{Replaced}
use good_mitm.Env.{Env, ok}
use good_mitm.Env.Laws.{BodyLaws}
use good_mitm.Io.{Response, pure}
use good_mitm.TextModify.{complex}
use good_mitm.TextModify.Replacing.{exec_action-Replaced}
use good_mitm.Modify.{
  Modify, body_text, is_text, modify_res, modify_res_body, read_res, modify_bytes,
}

-- The change of a body by a text to replace, which is not empty.
abbrev pub replacing : ℕ → Text → Text → Option Text → Modify
replacing c from new re =
    body_text (complex (record { origin = some (c ∷ from); re = re; new = new }))

module _ (E : Env) (c : ℕ) (from new : Text) (re : Option Text) where
  pub modify_res-body_from :
      (res : Response E) (content : List ℕ) (text : Text)
      → is_text E res.headers ≡ true
      → E.to_bytes res.body ≡ ok content
      → from_utf8 content ≡ some text
      → (result : Text) × (modify_res E (replacing c from new re) res
          ≡ pure (record res { body = E.body_from result }))
        × Replaced (c ∷ from) new text result
  unfolding modify_res
  modify_res-body_from res content text kind reads utf8 =
      let (result, made, replaced) = exec_action-Replaced E c from new re text in
      (result, rw (kind, reads, modify_res_body, read_res, modify_bytes, utf8, made) refl, replaced)

module _ (E : Env) (laws : BodyLaws E) (c : ℕ) (from new : Text) (re : Option Text) where
  -- If the headers of a response say that it is a text, and its body reads as UTF-8, then a
  -- change of its body with an `origin` that is not empty returns the response with a new body,
  -- and whoever reads that body finds the text with every occurrence of the `origin` replaced.
  modify_res-Replaced :
      (res : Response E) (content : List ℕ) (text : Text)
      → is_text E res.headers ≡ true
      → E.to_bytes res.body ≡ ok content
      → from_utf8 content ≡ some text
      → (body : E.Body) × (result : Text) × (modify_res E (replacing c from new re) res
          ≡ pure (record res { body = body }))
        × (E.to_bytes body ≡ ok result)
        × Replaced (c ∷ from) new text result
  modify_res-Replaced res content text kind reads utf8 =
      let (result, made, replaced) =
        modify_res-body_from E c from new re res content text kind reads utf8 in
      (E.body_from result, result, made, laws.to_bytes-body_from result, replaced)
