-- ===== src/Handler/Calm.antt =====
-- The handler does not panic with rules that do not.
use good_mitm.Prelude.{◌≡◌, All, Bool-cases, inl, inr, not, ◌||◌, some, List, [], ◌∷◌, is_empty}
use good_mitm.Env.{Env}
use good_mitm.Io.{Io, Request, Response, pure, unwrap}
use good_mitm.Io.Ensures.{Ensures-at}
use good_mitm.Io.Halting.{Halts, Halts-bind, Halts-unwrap}
use good_mitm.Filter.{Filter, is_match_req}
use good_mitm.HttpHandler.{RequestOrResponse, request, response}
use good_mitm.Rule.{Rule, do_req, do_res}
use good_mitm.Rule.Calm.{CalmFilter, CalmRule, is_match_req-Halts, do_req-Halts}
use good_mitm.Rule.Calm.Responses.{do_res-Halts}
use good_mitm.Handler.{
  Ctx, push_rule, match_filters, match_rules, run_rules, run_responses, handle_request,
  handle_response, without_accept_encoding,
}
use good_mitm.Handler.Matched.{match_rules-All}
use good_mitm.Handler.Contexts.{noted}

module _ (E : Env) where
  match_filters-Halts :
      (rule : Rule) (filters : List Filter) (req : Request E)
      → All (CalmFilter E) filters
      → Halts (match_filters E rule filters req)
  unfolding match_filters
  match_filters-Halts rule [] req h = tt
  match_filters-Halts rule (f ∷ more) req (hf, h) =
      Halts-bind (is_match_req E f req) _ (is_match_req-Halts E f req hf) (λ hit _.
        Halts-bind (match_filters E rule more req) _ (match_filters-Halts rule more req h)
          (λ _ _. tt))

  match_rules-Halts :
      (rules : List Rule) (req : Request E)
      → All (CalmRule E) rules
      → Halts (match_rules E rules req)
  unfolding match_rules
  match_rules-Halts [] req h = tt
  match_rules-Halts (rule ∷ rules) req (hr, h) =
      Halts-bind (match_filters E rule rule.filters req) _
        (match_filters-Halts rule rule.filters req hr.0)
        (λ here _.
          Halts-bind (match_rules E rules req) _ (match_rules-Halts rules req h) (λ _ _. tt))

  run_rules-Halts :
      (rules : List Rule) (ctx : Ctx E) (req : Request E)
      → All (CalmRule E) rules
      → Halts (run_rules E rules ctx req)
  unfolding run_rules
  run_rules-Halts [] ctx req h = tt
  run_rules-Halts (rule ∷ rules) ctx req (hr, h) =
      Halts-bind (do_req E rule req) _ (do_req-Halts E rule req hr)
        (λ (r, out) _. after (λ r. run_rules-Halts rules (push_rule E rule ctx) r h) out)
    where
      after :
          ((r : Request E) → Halts (run_rules E rules (push_rule E rule ctx) r))
          → (out : RequestOrResponse E)
          → Halts (elim out as (λ _. Io E (Ctx E × RequestOrResponse E)) [
            | request r ↦ run_rules E rules (push_rule E rule ctx) r
            | response res ↦ pure (push_rule E rule ctx, response res)
          ])
      after ih (request r) = ih r
      after ih (response res) = tt

  pub handle_request-Halts :
      (rules : List Rule) (ctx : Ctx E) (req : Request E)
      → All (CalmRule E) rules
      → Halts (handle_request E rules ctx req)
  unfolding handle_request
  handle_request-Halts rules ctx req h =
      let req' = without_accept_encoding E req in
      Halts-bind (match_rules E rules req') _ (match_rules-Halts rules req' h) (λ matched made.
        run_rules-Halts matched (noted E matched ctx req) req' (
          Ensures-at (All (CalmRule E)) (match_rules E rules req') made
            (match_rules-All E (CalmRule E) req' rules h)))

  run_responses-Halts :
      (rules : List Rule) (res : Response E)
      → All (CalmRule E) rules
      → Halts (run_responses E rules res)
  unfolding run_responses
  run_responses-Halts [] res h = tt
  run_responses-Halts (rule ∷ rules) res (hr, h) =
      Halts-bind (do_res E rule res) _ (do_res-Halts E rule res hr)
        (λ res' _. run_responses-Halts rules res' h)

  pub handle_response-Halts :
      (ctx : Ctx E) (res : Response E)
      → ((uri : E.Uri) × (ctx.uri ≡ some uri))
      → All (CalmRule E) ctx.custom_data.rules
      → Halts (handle_response E ctx res)
  unfolding handle_response
  handle_response-Halts ctx res uri h =
      elim (Bool-cases (not ctx.should_modify_response || is_empty ctx.custom_data.rules)) [
        | inl leave ↦ rw (leave, handle_response) tt
        | inr change ↦
            rw (change, handle_response)
              (Halts-bind (unwrap ctx.uri) _ (Halts-unwrap E ctx.uri uri)
                (λ u _. run_responses-Halts ctx.custom_data.rules res h))
      ]
