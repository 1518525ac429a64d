-- ===== src/Mitm/Lengths.antt =====
-- The length that the proxy writes on a response is the length of its body.
use good_mitm.Prelude.{ℕ, ◌≡◌, ◌∙◌, ap, some, List, ◌∷◌, head?, length}
use mathlib.Core.Path.{subst}
use good_mitm.Text.{Text, to_decimal}
use good_mitm.Text.Decimal.{read_decimal, read_decimal-to_decimal}
use good_mitm.Env.{Env, content_length}
use good_mitm.Env.Laws.{HeadersLaws, BodyLaws}
use good_mitm.Io.{Response}
use good_mitm.Io.Ensures.{Ensures, Ensures-at, Ensures-of}
use good_mitm.Mitm.{finish_response}
use good_mitm.Mitm.Headers.{LengthFixed, finish_response-Finished}

module _ (E : Env) (laws : HeadersLaws E) where
  -- The first `Content-Length` is a value that is written as a decimal text of the number.
  abbrev pub Announces : ℕ → Response E → Type 0
  Announces n out =
      (v : E.HeaderValue) × (t : Text) × (E.headers_get (E.standard content_length) out.headers
        ≡ some v)
      × (E.value_from_str t ≡ some v)
      × (read_decimal t ≡ some n)

  -- If a response has a `Content-Length`, its body was made of bytes, and finishing it does not
  -- panic, then its `Content-Length` is a decimal text that reads back as the number of the
  -- bytes. It rests on the documented behaviour of headers and bodies.
  pub finish_response-Announces :
      (res : Response E) (bytes : List ℕ) (old : E.HeaderValue) (rest : List E.HeaderValue)
      → BodyLaws E
      → res.body ≡ E.body_from bytes
      → E.headers_get_all (E.standard content_length) res.headers ≡ old ∷ rest
      → Ensures (Announces (length bytes)) (finish_response E res)
  finish_response-Announces res bytes old rest bodies made has =
      Ensures-of _ (finish_response E res) (λ out is.
        let finished =
          Ensures-at _ (finish_response E res) is (finish_response-Finished E laws res) in
        let (v, written, values) =
          subst
            (λ before.
              LengthFixed E laws (E.body_size_hint_lower res.body) before
                (E.headers_get_all (E.standard content_length) out.headers))
            has finished.length_fixed in
        let size : E.body_size_hint_lower res.body ≡ length bytes =
          ap E.body_size_hint_lower made ∙ bodies.size_hint-body_from bytes in
        (
          v,
          to_decimal (E.body_size_hint_lower res.body),
          laws.get-get_all (E.standard content_length) out.headers ∙ ap head? values,
          written,
          read_decimal-to_decimal (E.body_size_hint_lower res.body) ∙ ap some size,
        ))
