-- ===== src/Mitm/Rewriting.antt =====
-- A rule that changes the text of responses, from the server to the client.
use good_mitm.Prelude.{ℕ, ◌≡◌, refl, sym, ◌∙◌, ap, true, false, Option, some, List, [], ◌∷◌, length}
use mathlib.Core.Path.{subst}
use good_mitm.Text.{Text, codes, starts_with, from_utf8}
use good_mitm.Text.Replace.{Replaced}
use good_mitm.Env.{Env, ok, content_length}
use good_mitm.Env.Laws.{HeadersLaws, BodyLaws, ValueLaws}
use good_mitm.Io.{Request, Response, Event, pure, done}
use good_mitm.Io.Ensures.{Ensures}
use good_mitm.Modify.{is_text}
use good_mitm.Rule.{Rule}
use good_mitm.Handler.{RuleHandlerCtx, match_rules, rule_http_handler, without_accept_encoding}
use good_mitm.Handler.Replacing.{
  ReplacesOnly, ctx_with, handle_request-passes, handle_response-Replaced,
}
use good_mitm.Mitm.{MitmProxy, absolute_uri, strip_request, finish_response, process_request}
use good_mitm.Mitm.Headers.{finish_response-Finished}
use good_mitm.Mitm.Forwarding.{process_request-exchange}
use good_mitm.Mitm.Lengths.{Announces, finish_response-Announces}
use good_mitm.Mitm.Answering.{finish_response-pure}
use good_mitm.Mitm.WithRules.{ruled}

-- The documented behaviour of headers, bodies and header values.
pub record MessageLaws (E : Env) : Type 0 where
  pub headers : HeadersLaws E
  pub bodies : BodyLaws E
  pub values : ValueLaws E

module _ (E : Env) (laws : MessageLaws E) (c : ℕ) (from new : Text) (re : Option Text) where
  -- The client gets a response whose body reads as the text with all occurrences replaced, and that
  -- announces the length of that text.
  pub record Rewritten (text : Text) (out : Response E) : Type 0 where
    pub result : Text
    pub reads : E.to_bytes out.body ≡ ok result
    pub replaced : Replaced (c ∷ from) new text result
    pub announced : Announces E laws.headers (length result) out

  finish_response-Rewritten :
      (res out : Response E) (result text : Text) (old : E.HeaderValue) (more : List E.HeaderValue)
      → E.headers_get_all (E.standard content_length) res.headers ≡ old ∷ more
      → Replaced (c ∷ from) new text result
      → finish_response E (record res { body = E.body_from result }) ≡ pure out
      → Rewritten text out
  finish_response-Rewritten res out result text old more has replaced is =
      let changed = record res { body = E.body_from result } in
      let finished = subst (Ensures _) is (finish_response-Finished E laws.headers changed) in
      record {
        result = result;
        reads =
            ap (λ r. E.to_bytes r.body) (sym finished.rest) ∙ laws.bodies.to_bytes-body_from result;
        replaced = replaced;
        announced =
            subst (Ensures (Announces E laws.headers (length result))) is (
              finish_response-Announces E laws.headers changed result old more laws.bodies refl
                has);
      }

  module _ (rules : List Rule) (self : MitmProxy E RuleHandlerCtx) (scheme : E.Scheme)
      (req req' : Request E) where
    -- If the one rule that applies to a request replaces a text, which is not empty, in the
    -- bodies of responses, and the server answers with a response that its headers say is a text,
    -- that reads as UTF-8, and that has a `Content-Length`, then the client gets a response whose
    -- body reads as that text with every occurrence replaced, and whose `Content-Length` is the
    -- length of the new text; if the request does not ask for the certificate, and its URI can be
    -- completed. It rests on the documented behaviour of headers, header values and bodies.
    pub rules-Rewritten :
        (rule : Rule) (res : Response E) (content : List ℕ) (text : Text) (old : E.HeaderValue)
        (more : List E.HeaderValue)
        → ReplacesOnly E c from new re rule
        → starts_with (E.uri_path req.uri) (codes "/mitm/cert") ≡ false
        → absolute_uri E scheme req ≡ pure req'
        → match_rules E rules (without_accept_encoding E req') ≡ pure (rule ∷ [])
        → self.client (strip_request E (without_accept_encoding E req')) ≡ ok res
        → is_text E res.headers ≡ true
        → E.to_bytes res.body ≡ ok content
        → from_utf8 content ≡ some text
        → E.headers_get_all (E.standard content_length) res.headers ≡ old ∷ more
        → (log : List (Event E)) × (out : Response E) × (process_request E
              (ruled E rules self)
              scheme
              req
            ≡ (log, done (ok out)))
          × Rewritten text out
    unfolding rule_http_handler
    rules-Rewritten rule res content text old more only path absolute first got kind reads utf8
          has =
        let passes = handle_request-passes E c from new re rules rule only req' first in
        let (log, result, handled, replaced) =
          handle_response-Replaced E c from new re rules rule only req' res content text kind reads
            utf8 in
        let changed = record res { body = E.body_from result } in
        let (out, finished) = finish_response-pure E laws.values changed in
        (
          _,
          out,
          process_request-exchange E (ruled E rules self) scheme req req'
              (without_accept_encoding E req') (ctx_with E c from new re rules rule only req') []
              log res changed out path absolute passes got handled finished,
          finish_response-Rewritten res out result text old more has replaced finished,
        )
