-- ===== src/Handler/Replacing.antt =====
-- The handler with one rule that applies, which replaces a text in responses.
use good_mitm.Prelude.{ℕ, ◌≡◌, refl, true, some, Option, List, [], ◌∷◌, ◌++◌, unwrap_or}
use good_mitm.Text.{Text, codes, from_utf8}
use good_mitm.Text.Replace.{Replaced}
use good_mitm.Env.{Env, ok}
use good_mitm.Io.{Request, Response, Event, info, pure, done}
use good_mitm.HttpHandler.{new_context, request}
use good_mitm.Modify.{is_text, modify_res}
use good_mitm.Modify.Bodies.{replacing, modify_res-body_from}
use good_mitm.Rule.{
  Rule, modify_response, do_req, req_loop, req_action, do_res, res_loop, res_action,
}
use good_mitm.Handler.{
  RuleHandlerCtx, Ctx, match_rules, handle_request, handle_response, without_accept_encoding,
  push_rule, run_rules, run_responses, response_line,
}

module _ (E : Env) (c : ℕ) (from new : Text) (re : Option Text) where
  -- The rule has one action, which replaces a text in responses.
  abbrev pub ReplacesOnly : Rule → Type 0
  ReplacesOnly rule = rule.actions ≡ modify_response (replacing c from new re) ∷ []

  module _ (rules : List Rule) (rule : Rule) (only : ReplacesOnly rule) where
    abbrev pub ctx_with : Request E → Ctx E
    ctx_with req = push_rule E rule (record (new_context E RuleHandlerCtx (record { rules = [] })) {
      uri = some req.uri;
      should_modify_response = true;
    })

    pub handle_request-passes :
        (req : Request E)
        → match_rules E rules (without_accept_encoding E req) ≡ pure (rule ∷ [])
        → handle_request E rules (new_context E RuleHandlerCtx (record { rules = [] })) req
          ≡ pure (ctx_with req, request (without_accept_encoding E req))
    unfolding handle_request run_rules do_req req_loop req_action
    handle_request-passes req first = simp (first, only)

    do_res-modified :
        (res res' : Response E)
        → modify_res E (replacing c from new re) res ≡ pure res'
        → do_res E rule res
          ≡ (info (codes "[ModifyResponse] " ++ unwrap_or [] rule.url) ∷ [], done res')
    unfolding do_res res_loop res_action
    do_res-modified res res' made = rw (do_res, only, res_loop, res_action, made) refl

    pub handle_response-Replaced :
        (req : Request E) (res : Response E) (content : List ℕ) (text : Text)
        → is_text E res.headers ≡ true
        → E.to_bytes res.body ≡ ok content
        → from_utf8 content ≡ some text
        → (log : List (Event E)) × (result : Text) × (handle_response E (ctx_with req) res
            ≡ (log, done (record res { body = E.body_from result })))
          × Replaced (c ∷ from) new text result
    unfolding handle_response run_responses
    handle_response-Replaced req res content text kind reads utf8 =
        let (result, made, replaced) =
          modify_res-body_from E c from new re res content text kind reads utf8 in
        (
          response_line E req.uri res
              ∷ info (codes "[ModifyResponse] " ++ unwrap_or [] rule.url)
              ∷ [],
          result,
          rw
              (
                handle_response,
                run_responses,
                do_res-modified res (record res { body = E.body_from result }) made,
              )
              refl,
          replaced,
        )
