-- ===== src/Mitm/WithRules.antt =====
-- The proxy with the handler of rules, as the program puts them together in src/main.rs.
use good_mitm.Prelude.{◌≡◌, false, List, [], ◌∷◌, ◌++◌, All}
use good_mitm.Text.{codes, starts_with}
use good_mitm.Env.{Env, ok}
use good_mitm.Env.Laws.{HeadersLaws}
use good_mitm.Io.{Request, Response, info, sent, pure, done}
use good_mitm.Io.Ensures.{Emits}
use good_mitm.HttpHandler.{new_context}
use good_mitm.Modify.{bad_gateway}
use good_mitm.Rule.{Rule, Action, reject, empty_response}
use good_mitm.Handler.{RuleHandlerCtx, match_rules, rule_http_handler, without_accept_encoding}
use good_mitm.Handler.Quiet.{handle_request-OnlyLogs, handle_response-OnlyLogs}
use good_mitm.Handler.Transparent.{Misses, handle_request-Misses, handle_request-reject}
use good_mitm.Mitm.{MitmProxy, absolute_uri, strip_request, finish_response, process_request}
use good_mitm.Mitm.Forwarding.{
  IsQuiet, SendsStripped, process_request-SendsStripped, process_request-answered,
  process_request-exchange,
}

module _ (E : Env) (rules : List Rule) where
  pub rule_http_handler-IsQuiet : IsQuiet E RuleHandlerCtx (rule_http_handler E rules)
  unfolding rule_http_handler
  rule_http_handler-IsQuiet = record {
    requests = handle_request-OnlyLogs E rules;
    responses = handle_response-OnlyLogs E;
  }

  -- The proxy that runs the rules.
  abbrev pub ruled : MitmProxy E RuleHandlerCtx → MitmProxy E RuleHandlerCtx
  ruled self = record self { http_handler = rule_http_handler E rules }

  -- Whatever the rules are, each request that the proxy sends while it processes a request has no
  -- `Host`, `Accept-Encoding` and `Content-Length`, and processing a request starts no task.
  rules-SendsStripped :
      (laws : HeadersLaws E) (self : MitmProxy E RuleHandlerCtx) (scheme : E.Scheme)
      (req : Request E)
      → Emits (SendsStripped E laws) (process_request E (ruled self) scheme req)
  rules-SendsStripped laws self scheme req =
      process_request-SendsStripped E laws (ruled self) rule_http_handler-IsQuiet scheme req

  module _ (self : MitmProxy E RuleHandlerCtx) (scheme : E.Scheme) (req req' : Request E) where
    -- If a request does not ask for the certificate, its URI can be completed, and the first
    -- rule that applies to it begins with a rejection, then the client gets a 502 with an empty
    -- body, the rejection is logged, and nothing is sent to the server.
    pub rules-reject :
        (rule : Rule) (matched : List Rule) (actions : List Action)
        → starts_with (E.uri_path req.uri) (codes "/mitm/cert") ≡ false
        → absolute_uri E scheme req ≡ pure req'
        → match_rules E rules (without_accept_encoding E req') ≡ pure (rule ∷ matched)
        → rule.actions ≡ reject ∷ actions
        → process_request E (ruled self) scheme req ≡ (
          info (codes "[Reject] " ++ E.uri_to_string req'.uri) ∷ [],
          done (ok (empty_response E bad_gateway)),
        )
    unfolding rule_http_handler
    rules-reject rule matched actions path absolute first begins =
        let ctx = new_context E RuleHandlerCtx (record { rules = [] }) in
        let (ctx', rejected) =
          handle_request-reject E rules ctx req' rule matched actions first begins in
        process_request-answered E (ruled self) scheme req req' ctx' _ _ path absolute rejected

    -- If a request does not ask for the certificate, its URI can be completed, no filter of any
    -- rule matches it, the server answers and the answer can be finished, then the server gets
    -- the request without its `Host`, `Accept-Encoding` and `Content-Length`, the client gets
    -- the server's response, finished and otherwise unchanged, and nothing is logged.
    pub rules-pass :
        (res out : Response E)
        → starts_with (E.uri_path req.uri) (codes "/mitm/cert") ≡ false
        → absolute_uri E scheme req ≡ pure req'
        → All (Misses E (without_accept_encoding E req')) rules
        → self.client (strip_request E (without_accept_encoding E req')) ≡ ok res
        → finish_response E res ≡ pure out
        → process_request E (ruled self) scheme req
          ≡ (sent (strip_request E (without_accept_encoding E req')) ∷ [], done (ok out))
    unfolding rule_http_handler
    rules-pass res out path absolute miss got finished =
        let (ctx', passed, untouched) = handle_request-Misses E rules req' miss in
        process_request-exchange E (ruled self) scheme req req' _ ctx' [] [] res res out path
          absolute passed got (untouched res) finished
