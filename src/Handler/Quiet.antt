-- ===== src/Handler/Quiet.antt =====
-- The handler of rules sends nothing and starts nothing.
use good_mitm.Prelude.{not, ◌||◌, Bool-cases, inl, inr, List, [], ◌∷◌, is_empty}
use good_mitm.Env.{Env}
use good_mitm.Io.{Io, Request, Response, unwrap, pure}
use good_mitm.Io.Local.{OnlyLogs, OnlyLogs-bind, OnlyLogs-unwrap}
use good_mitm.Filter.{Filter, is_match_req}
use good_mitm.Filter.Quiet.{is_match_req-OnlyLogs}
use good_mitm.HttpHandler.{RequestOrResponse, request, response}
use good_mitm.Rule.{Rule, do_req, do_res}
use good_mitm.Rule.Quiet.{do_req-OnlyLogs, do_res-OnlyLogs}
use good_mitm.Handler.{
  Ctx, match_filters, match_rules, push_rule, run_rules, without_accept_encoding, handle_request,
  run_responses, response_line, handle_response,
}

module _ (E : Env) where
  match_filters-OnlyLogs :
      (rule : Rule) (filters : List Filter) (req : Request E)
      → OnlyLogs (match_filters E rule filters req)
  unfolding match_filters
  match_filters-OnlyLogs rule [] req = tt
  match_filters-OnlyLogs rule (f ∷ more) req =
      let rest = match_filters-OnlyLogs rule more req in
      OnlyLogs-bind (is_match_req E f req) _ (is_match_req-OnlyLogs E f req)
        (λ hit. OnlyLogs-bind (match_filters E rule more req) _ rest (λ _. tt))

  match_rules-OnlyLogs : (rules : List Rule) (req : Request E) → OnlyLogs (match_rules E rules req)
  unfolding match_rules
  match_rules-OnlyLogs [] req = tt
  match_rules-OnlyLogs (rule ∷ rules) req =
      let rest = match_rules-OnlyLogs rules req in
      OnlyLogs-bind (match_filters E rule rule.filters req) _
        (match_filters-OnlyLogs rule rule.filters req)
        (λ here. OnlyLogs-bind (match_rules E rules req) _ rest (λ _. tt))

  run_rules-OnlyLogs :
      (rules : List Rule) (ctx : Ctx E) (req : Request E) → OnlyLogs (run_rules E rules ctx req)
  unfolding run_rules
  run_rules-OnlyLogs [] ctx req = tt
  run_rules-OnlyLogs (rule ∷ rules) ctx req =
      let rest = run_rules-OnlyLogs rules (push_rule E rule ctx) in
      OnlyLogs-bind (do_req E rule req) _ (do_req-OnlyLogs E rule req)
        (λ d. answered (push_rule E rule ctx) (run_rules E rules (push_rule E rule ctx)) rest d.1)
    where
      answered :
          (ctx' : Ctx E) (go_on : Request E → Io E (Ctx E × RequestOrResponse E))
          → ((r : Request E) → OnlyLogs (go_on r))
          → (x : RequestOrResponse E)
          → OnlyLogs (elim x as (λ _. Io E (Ctx E × RequestOrResponse E)) [
            | request r ↦ go_on r
            | response res ↦ pure (ctx', response res)
          ])
      answered ctx' go_on h (request r) = h r
      answered ctx' go_on h (response res) = tt

  pub handle_request-OnlyLogs :
      (rules : List Rule) (ctx : Ctx E) (req : Request E)
      → OnlyLogs (handle_request E rules ctx req)
  unfolding handle_request
  handle_request-OnlyLogs rules ctx req =
      let req' = without_accept_encoding E req in
      OnlyLogs-bind (match_rules E rules req') _ (match_rules-OnlyLogs rules req')
        (λ matched. run_rules-OnlyLogs matched _ req')

  run_responses-OnlyLogs :
      (rules : List Rule) (res : Response E) → OnlyLogs (run_responses E rules res)
  unfolding run_responses
  run_responses-OnlyLogs [] res = tt
  run_responses-OnlyLogs (rule ∷ rules) res =
      let rest = run_responses-OnlyLogs rules in
      OnlyLogs-bind (do_res E rule res) _ (do_res-OnlyLogs E rule res) rest

  pub handle_response-OnlyLogs :
      (ctx : Ctx E) (res : Response E) → OnlyLogs (handle_response E ctx res)
  unfolding handle_response response_line
  handle_response-OnlyLogs ctx res =
      elim (Bool-cases (not ctx.should_modify_response || is_empty ctx.custom_data.rules)) [
        | inl skip ↦ rw (skip, handle_response) tt
        | inr run ↦
            rw (run, handle_response)
              (OnlyLogs-bind (unwrap ctx.uri) _ (OnlyLogs-unwrap E ctx.uri)
                (λ uri. (tt, run_responses-OnlyLogs ctx.custom_data.rules res)))
      ]
