-- ===== src/Mitm/CalmRules.antt =====
-- The proxy answers every request, with rules that do not panic.
use good_mitm.Prelude.{All, List, []}
use good_mitm.Env.{Env}
use good_mitm.Env.Laws.{ValueLaws}
use good_mitm.Io.{Request}
use good_mitm.Io.Ensures.{Returns, Ensures-at, Ensures-of}
use good_mitm.HttpHandler.{new_context}
use good_mitm.Rule.{Rule}
use good_mitm.Rule.Calm.{CalmRule}
use good_mitm.Handler.{RuleHandlerCtx, handle_request, rule_http_handler}
use good_mitm.Handler.Calm.{handle_request-Halts, handle_response-Halts}
use good_mitm.Handler.Contexts.{handle_request-Ran, handle_request-InContext}
use good_mitm.Mitm.{MitmProxy, absolute_uri, process_request, proxy_req}
use good_mitm.Mitm.Answering.{IsCalm, proxy_req-Returns}
use good_mitm.Mitm.WithRules.{ruled}

module _ (E : Env) (rules : List Rule) (calm : All (CalmRule E) rules) where
  pub rule_http_handler-IsCalm : IsCalm E RuleHandlerCtx (rule_http_handler E rules)
  unfolding rule_http_handler
  rule_http_handler-IsCalm =
      let start = new_context E RuleHandlerCtx (record { rules = [] }) in
      record {
        requests = λ req. handle_request-Halts E rules start req calm;
        responses = λ req. Ensures-of _ (handle_request E rules start req) (λ handled is res.
            let (matched, _, ran) =
              Ensures-at _ (handle_request E rules start req) is
                (handle_request-Ran E rules start req) in
            let recorded =
              Ensures-at _ (handle_request E rules start req) is
                (handle_request-InContext E (CalmRule E) rules start req calm tt) in
            handle_response-Halts E handled.0 res (req.uri, ran.same_uri) recorded);
      }

  -- If no regular expression of the rules, no change and no script can fail, and the URI of a
  -- request can be completed, then the proxy with the rules does not panic on it: it answers, or
  -- hands on the error of its client, over HTTP and under TLS alike. It rests on the documented
  -- behaviour of header values.
  pub rules-Returns :
      (self : MitmProxy E RuleHandlerCtx) (req : Request E)
      → ValueLaws E
      → ((scheme : E.Scheme) → Returns (absolute_uri E scheme req))
      → Returns (proxy_req E (ruled E rules self) req)
        × Returns (process_request E (ruled E rules self) E.scheme_https req)
  rules-Returns self req laws absolute =
      proxy_req-Returns E laws (ruled E rules self) rule_http_handler-IsCalm req absolute
