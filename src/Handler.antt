-- ===== src/Handler.antt =====
-- crates/rule/src/handler.rs
pub mod Quiet
pub mod Matched
pub mod Contexts
pub mod Transparent
pub mod Bounds
pub mod Calm
pub mod Replacing
use good_mitm.Prelude.{
  ℕ, Bool, true, false, not, ◌||◌, Option, none, some, List, [], ◌∷◌, ◌++◌, if◌then◌else◌, is_empty,
  unwrap_or,
}
use good_mitm.Text.{Text, codes}
use good_mitm.Env.{Env, accept_encoding, content_type}
use good_mitm.Io.{Io, Event, Request, Response, info, pure, tell, unwrap, ◌>>=◌, ◌>>◌}
use good_mitm.Filter.{Filter, is_match_req}
use good_mitm.HttpHandler.{HttpContext, HttpHandler, RequestOrResponse, request, response}
use good_mitm.Rule.{Rule, do_req, do_res}

-- The rules that apply to a request.
pub record RuleHandlerCtx : Type 0 where
  pub rules : List Rule

module _ (E : Env) where
  abbrev pub Ctx : Type 0
  Ctx = HttpContext E RuleHandlerCtx

  -- The loop over the filters of a rule, which pushes the rule once for each that matches.
  match_filters : Rule → List Filter → Request E → Io E (List Rule)
  match_filters rule [] req = pure []
  match_filters rule (filter ∷ more) req = do
    hit ← is_match_req E filter req
    rest ← match_filters rule more req
    pure (if hit then rule ∷ rest else rest)

  unfoldable pub match_rules : List Rule → Request E → Io E (List Rule)
  unfolding match_filters
  match_rules [] req = pure []
  match_rules (rule ∷ rules) req = do
    here ← match_filters rule rule.filters req
    rest ← match_rules rules req
    pure (here ++ rest)

  abbrev push_rule : Rule → Ctx → Ctx
  push_rule rule ctx = record ctx {
    custom_data = record { rules = ctx.custom_data.rules ++ (rule ∷ []) };
  }

  -- The loop of `handle_request` over the matched rules.
  run_rules : List Rule → Ctx → Request E → Io E (Ctx × RequestOrResponse E)
  run_rules [] ctx req = pure (ctx, request req)
  run_rules (rule ∷ rules) ctx req = do
    let ctx' = push_rule rule ctx
    done_req ← do_req E rule req
    elim done_req.1 [
      | request r ↦ run_rules rules ctx' r
      | response res ↦ pure (ctx', response res)
    ]

  abbrev pub without_accept_encoding : Request E → Request E
  without_accept_encoding req = record req {
    headers = E.headers_remove (E.standard accept_encoding) req.headers;
  }

  unfoldable pub handle_request : List Rule → Ctx → Request E → Io E (Ctx × RequestOrResponse E)
  unfolding match_rules run_rules
  handle_request all_rules ctx req = do
    let req' = without_accept_encoding req
    rules ← match_rules all_rules req'
    run_rules rules
        (record ctx {
          uri = some req.uri;
          should_modify_response = not (is_empty rules) || ctx.should_modify_response;
        })
        req'

  -- The loop of `handle_response`.
  run_responses : List Rule → Response E → Io E (Response E)
  run_responses [] res = pure res
  run_responses (rule ∷ rules) res = do res' ← do_res E rule res; run_responses rules res'

  -- The line that `handle_response` logs.
  response_line : E.Uri → Response E → Event E
  response_line uri res =
      let content = elim (E.headers_get (E.standard content_type) res.headers) as (λ _. Text) [
        | some value ↦ unwrap_or [] (E.value_to_str value)
        | none ↦ codes "unknown"
      ] in
      info (
        codes "[Response] "
        ++ (E.status_to_string res.status
            ++ (codes " " ++ (unwrap_or [] (E.uri_host uri) ++ (codes " " ++ content)))))

  unfoldable pub handle_response : Ctx → Response E → Io E (Response E)
  unfolding run_responses response_line
  handle_response ctx res =
      if not ctx.should_modify_response || is_empty ctx.custom_data.rules then pure res else do
        uri ← unwrap ctx.uri
        tell (response_line uri res)
        run_responses ctx.custom_data.rules res

  -- The implementation of the trait for `RuleHttpHandler::new(rules)`.
  unfoldable pub rule_http_handler : List Rule → HttpHandler E RuleHandlerCtx
  unfolding handle_request handle_response
  rule_http_handler rules = record {
    default_data = record { rules = [] };
    handle_request = handle_request rules;
    handle_response = handle_response;
  }
