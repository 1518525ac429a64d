-- ===== src/Handler/Transparent.antt =====
-- Requests to which no rule applies, and requests that the first rule answers.
use good_mitm.Prelude.{◌≡◌, refl, true, false, some, List, [], ◌∷◌, ◌++◌, All}
use good_mitm.Text.{codes}
use good_mitm.Env.{Env}
use good_mitm.Io.{Request, Response, info, pure, done}
use good_mitm.Filter.{Filter, is_match_req}
use good_mitm.HttpHandler.{new_context, request, response}
use good_mitm.Modify.{bad_gateway}
use good_mitm.Rule.{Rule, Action, reject, do_req, req_action, empty_response}
use good_mitm.Handler.{
  RuleHandlerCtx, Ctx, match_filters, match_rules, handle_request, handle_response,
  without_accept_encoding, push_rule,
}

module _ (E : Env) where
  module _ (req : Request E) where
    -- No filter of the rule matches the request.
    abbrev pub Misses : Rule → Type 0
    Misses rule = All (λ f. is_match_req E f req ≡ pure false) rule.filters

    match_filters-Misses :
        (rule : Rule) (filters : List Filter)
        → All (λ f. is_match_req E f req ≡ pure false) filters
        → match_filters E rule filters req ≡ pure []
    unfolding match_filters
    match_filters-Misses rule [] h = refl
    match_filters-Misses rule (f ∷ more) (miss, h) = rw (miss, match_filters-Misses rule more h)

    match_rules-Misses : (rules : List Rule) → All Misses rules → match_rules E rules req ≡ pure []
    unfolding match_rules
    match_rules-Misses [] h = refl
    match_rules-Misses (rule ∷ rules) (miss, h) =
        rw (match_filters-Misses rule rule.filters miss, match_rules-Misses rules h)

  -- If no filter of any rule matches a request, it goes on with its `Accept-Encoding` removed and
  -- nothing else changed, nothing is logged, and the response to it is handed back untouched.
  pub handle_request-Misses :
      (rules : List Rule) (req : Request E)
      → All (Misses (without_accept_encoding E req)) rules
      → (ctx : Ctx E) × (handle_request E rules
            (new_context E RuleHandlerCtx (record { rules = [] }))
            req
          ≡ pure (ctx, request (without_accept_encoding E req)))
        × ((res : Response E) → handle_response E ctx res ≡ pure res)
  unfolding handle_request handle_response
  handle_request-Misses rules req h = (
    record (new_context E RuleHandlerCtx (record { rules = [] })) { uri = some req.uri },
    rw (match_rules-Misses (without_accept_encoding E req) rules h),
    λ res. refl,
  )

  -- If the first rule that applies begins with a rejection, the request is answered by a 502 with an
  -- empty body, and the only line logged is that of the rejection.
  pub handle_request-reject :
      (rules : List Rule) (ctx : Ctx E) (req : Request E) (rule : Rule) (matched : List Rule)
      (actions : List Action)
      → match_rules E rules (without_accept_encoding E req) ≡ pure (rule ∷ matched)
      → rule.actions ≡ reject ∷ actions
      → (ctx' : Ctx E) × (handle_request E rules ctx req ≡ (
        info (codes "[Reject] " ++ E.uri_to_string req.uri) ∷ [],
        done (ctx', response (empty_response E bad_gateway)),
      ))
  unfolding handle_request do_req req_action
  handle_request-reject rules ctx req rule matched actions first begins = (
    push_rule E rule (record ctx { uri = some req.uri; should_modify_response = true }),
    simp (first, begins),
  )
