-- ===== src/Handler/Contexts.antt =====
-- The context that `handle_request` leaves for `handle_response`.
use good_mitm.Prelude.{
  ◌≡◌, refl, sym, ◌∙◌, ap, append-nil, not, ◌||◌, some, List, [], ◌∷◌, ◌++◌, append_assoc, is_empty,
  All, All-append,
}
use mathlib.Core.Path.{subst}
use good_mitm.Env.{Env}
use good_mitm.Io.{Io, Request, Response, pure, done}
use good_mitm.Io.Ensures.{Ensures, Ensures-bind, Ensures-at, Ensures-of}
use good_mitm.HttpHandler.{RequestOrResponse, request, response}
use good_mitm.Rule.{Rule, do_req}
use good_mitm.Handler.{
  Ctx, push_rule, match_rules, run_rules, handle_request, without_accept_encoding,
}
use good_mitm.Handler.Matched.{match_rules-All}

module _ (E : Env) where
  -- The result is a request that goes on to the server.
  abbrev pub IsRequest : RequestOrResponse E → Type 0
  IsRequest (request r) = Unit
  IsRequest (response res) = ⊥

  -- What the rules make of a request, one after the other: each turns it into the request for the
  -- next, and only the last of them may answer it.
  pub data Turns : List Rule → Request E → RequestOrResponse E → Type 0 where
    goes_out : (req : Request E) → Turns [] req (request req)
    turns :
        (rule with_url : Rule) (more : List Rule) (req req' : Request E) (out : RequestOrResponse E)
        → (do_req E rule req).1 ≡ done (with_url, request req')
        → Turns more req' out
        → Turns (rule ∷ more) req out
    answers :
        (rule with_url : Rule) (req : Request E) (res : Response E)
        → (do_req E rule req).1 ≡ done (with_url, response res)
        → Turns (rule ∷ []) req (response res)

  -- The rules that ran are a first part of those that apply, all of them if the request goes on. They
  -- made the result of the request, and they are what the context records behind its old rules.
  pub record Ran (matched : List Rule) (ctx : Ctx E) (req : Request E)
      (result : Ctx E × RequestOrResponse E) : Type 0 where
    pub ran : List Rule
    pub rest : List Rule
    pub first_part : ran ++ rest ≡ matched
    pub whole : IsRequest result.1 → rest ≡ []
    pub made : Turns ran req result.1
    pub recorded : result.0.custom_data.rules ≡ ctx.custom_data.rules ++ ran
    pub same_uri : result.0.uri ≡ ctx.uri
    pub same_flag : result.0.should_modify_response ≡ ctx.should_modify_response

  run_rules-Ran :
      (matched : List Rule) (ctx : Ctx E) (req : Request E)
      → Ensures (Ran matched ctx req) (run_rules E matched ctx req)
  unfolding run_rules
  run_rules-Ran [] ctx req = record {
    ran = [];
    rest = [];
    first_part = refl;
    whole = λ _. refl;
    made = goes_out req;
    recorded = sym (append-nil ctx.custom_data.rules);
    same_uri = refl;
    same_flag = refl;
  }
  run_rules-Ran (rule ∷ more) ctx req =
      Ensures-bind (Ran (rule ∷ more) ctx req) (do_req E rule req) _
        (λ (with_url, out) is. after with_url out is (run_rules-Ran more (push_rule E rule ctx)))
    where
      after :
          (with_url : Rule) (out : RequestOrResponse E)
          → (do_req E rule req).1 ≡ done (with_url, out)
          → ((r : Request E)
              → Ensures
                  (Ran more (push_rule E rule ctx) r)
                  (run_rules E more (push_rule E rule ctx) r))
          → Ensures
              (Ran (rule ∷ more) ctx req)
              (elim out as (λ _. Io E (Ctx E × RequestOrResponse E)) [
                | request r ↦ run_rules E more (push_rule E rule ctx) r
                | response res ↦ pure (push_rule E rule ctx, response res)
              ])
      after with_url (request r) is ih =
          Ensures-of (Ran (rule ∷ more) ctx req) (run_rules E more (push_rule E rule ctx) r)
            (λ x made.
              let later =
                Ensures-at (Ran more (push_rule E rule ctx) r)
                  (run_rules E more (push_rule E rule ctx) r) made (ih r) in
              record {
                ran = rule ∷ later.ran;
                rest = later.rest;
                first_part = ap (λ l. rule ∷ l) later.first_part;
                whole = later.whole;
                made = turns rule with_url later.ran req r x.1 is later.made;
                recorded =
                    later.recorded ∙ append_assoc ctx.custom_data.rules (rule ∷ []) later.ran;
                same_uri = later.same_uri;
                same_flag = later.same_flag;
              })
      after with_url (response res) is ih = record {
        ran = rule ∷ [];
        rest = more;
        first_part = refl;
        whole = λ h. absurd h;
        made = answers rule with_url req res is;
        recorded = refl;
        same_uri = refl;
        same_flag = refl;
      }

  -- The context as the loop over the rules starts with it.
  abbrev pub noted : List Rule → Ctx E → Request E → Ctx E
  noted matched ctx req = record ctx {
    uri = some req.uri;
    should_modify_response = not (is_empty matched) || ctx.should_modify_response;
  }

  -- If `handle_request` does not panic, a first part of the rules that apply has made of the request,
  -- one after the other and without its `Accept-Encoding`, what is returned: all of them if it is
  -- still a request, and up to the one that answered it if it is a response. The context that is left
  -- records just these behind the old rules, in their order; it has the URI of the request as it
  -- came, and asks for the response exactly if some rule applies or it did before.
  pub handle_request-Ran :
      (rules : List Rule) (ctx : Ctx E) (req : Request E)
      → Ensures
          (λ result.
            (matched : List Rule) × ((match_rules E rules (without_accept_encoding E req)).1
              ≡ done matched)
            × Ran matched (noted matched ctx req) (without_accept_encoding E req) result)
          (handle_request E rules ctx req)
  unfolding handle_request
  handle_request-Ran rules ctx req =
      let req' = without_accept_encoding E req in
      Ensures-bind _ (match_rules E rules req') _ (λ matched made.
        Ensures-of _ (run_rules E matched (noted matched ctx req) req') (λ x ran. (
          matched,
          made,
          Ensures-at (Ran matched (noted matched ctx req) req')
              (run_rules E matched (noted matched ctx req) req') ran
              (run_rules-Ran matched (noted matched ctx req) req'),
        )))

  -- Every rule of the context.
  abbrev pub InContext : (Rule → Type 0) → Ctx E × RequestOrResponse E → Type 0
  InContext P result = All P result.0.custom_data.rules

  All-first : (P : Rule → Type 0) (xs ys : List Rule) → All P (xs ++ ys) → All P xs
  All-first P [] ys h = tt
  All-first P (x ∷ xs) ys (p, h) = (p, All-first P xs ys h)

  -- If handling a request does not panic, what holds of every rule of the handler and of the
  -- context holds of every rule of the context afterwards. So a rule of the context has no URL
  -- if none had one before, although `do_req` has set the URL of the rule that it ran on.
  pub handle_request-InContext :
      (P : Rule → Type 0) (rules : List Rule) (ctx : Ctx E) (req : Request E)
      → All P rules
      → All P ctx.custom_data.rules
      → Ensures (InContext P) (handle_request E rules ctx req)
  handle_request-InContext P rules ctx req h hc =
      Ensures-of (InContext P) (handle_request E rules ctx req) (λ x made.
        let (matched, is, ran) =
          Ensures-at _ (handle_request E rules ctx req) made (handle_request-Ran rules ctx req) in
        let all_matched =
          Ensures-at (All P) (match_rules E rules (without_accept_encoding E req)) is
            (match_rules-All E P (without_accept_encoding E req) rules h) in
        let all_ran =
          All-first P ran.ran ran.rest (subst (All P) (sym ran.first_part) all_matched) in
        subst (All P) (sym ran.recorded) (All-append P ctx.custom_data.rules ran.ran hc all_ran))
