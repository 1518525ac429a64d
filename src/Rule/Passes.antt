-- ===== src/Rule/Passes.antt =====
-- Which actions of a rule a request and a response pass through.
use good_mitm.Prelude.{
  ◌≡◌, refl, sym, ◌∙◌, Bool, true, false, List, [], ◌∷◌, ◌++◌, select, unwrap_or, Option, none,
  some,
}
use good_mitm.Text.{Text}
use good_mitm.Env.{Env}
use good_mitm.Io.{Io, Request, Response, pure, ◌>>=◌, bind_assoc, bind-pure}
use good_mitm.Io.Ensures.{bind-cong, bind-cong_of_done, Ensures, Ensures-bind, Ensures-at}
use good_mitm.Filter.{Filter}
use good_mitm.HttpHandler.{RequestOrResponse, request}
use good_mitm.Js
use good_mitm.Rule.{
  Step, Rule, Action, reject, redirect, modify_request, modify_response, log_request, log_response,
  js, next, return, next_res, return_res, req_action, req_loop, do_req, res_action, res_loop,
  do_res, scripted,
}

-- The actions that concern a request.
abbrev pub is_on_request : Action → Bool
is_on_request (modify_response _) = false
is_on_request log_response = false
is_on_request _ = true

-- The actions that concern a response.
abbrev pub is_on_response : Action → Bool
is_on_response (modify_response _) = true
is_on_response log_response = true
is_on_response (js _) = true
is_on_response _ = false

module _ (E : Env) where
  module _ (filters : List Filter) (url : Text) where
    req_loop-cong :
        (a : Action) (xs ys : List Action) (req : Request E)
        → ((r : Request E) → req_loop E filters url xs r ≡ req_loop E filters url ys r)
        → req_loop E filters url (a ∷ xs) req ≡ req_loop E filters url (a ∷ ys) req
    unfolding req_loop
    req_loop-cong a xs ys req same =
        bind-cong (req_action E filters url a req) _ _ elim [ next r ↦ same r | return x ↦ refl ]

    req_loop-select :
        (actions : List Action) (req : Request E)
        → req_loop E filters url (select is_on_request actions) req
          ≡ req_loop E filters url actions req
    unfolding req_loop req_action
    req_loop-select [] req = refl
    req_loop-select (modify_response _ ∷ more) req = req_loop-select more req
    req_loop-select (log_response ∷ more) req = req_loop-select more req
    req_loop-select (reject ∷ more) req =
        req_loop-cong reject (select is_on_request more) more req (req_loop-select more)
    req_loop-select (redirect t ∷ more) req =
        req_loop-cong (redirect t) (select is_on_request more) more req (req_loop-select more)
    req_loop-select (modify_request m ∷ more) req =
        req_loop-cong (modify_request m) (select is_on_request more) more req (req_loop-select more)
    req_loop-select (log_request ∷ more) req =
        req_loop-cong log_request (select is_on_request more) more req (req_loop-select more)
    req_loop-select (js code ∷ more) req =
        req_loop-cong (js code) (select is_on_request more) more req (req_loop-select more)

  -- The result of a rule, without the rule itself.
  abbrev pub result_of : Rule → Request E → Io E (RequestOrResponse E)
  result_of rule req = do_req E rule req >>= (λ d. pure d.1)

  pub result_of-req_loop :
      (rule : Rule) (req : Request E)
      → result_of rule req ≡ req_loop E rule.filters (E.uri_to_string req.uri) rule.actions req
  unfolding do_req
  result_of-req_loop rule req =
      let url = E.uri_to_string req.uri in
      let loop = req_loop E rule.filters url rule.actions req in
      bind_assoc loop (λ x. pure (record rule { url = some url }, x)) (λ d. pure d.1)
      ∙ bind-pure loop

  -- What a rule does with a request, its log included, depends on the actions that concern requests
  -- alone: the others can be left out.
  pub do_req-select :
      (rule : Rule) (req : Request E)
      → result_of (record rule { actions = select is_on_request rule.actions }) req
        ≡ result_of rule req
  do_req-select rule req =
      result_of-req_loop (record rule { actions = select is_on_request rule.actions }) req
      ∙ req_loop-select rule.filters (E.uri_to_string req.uri) rule.actions req
      ∙ sym (result_of-req_loop rule req)

  module _ (url : Text) where
    res_loop-cong :
        (a : Action) (xs ys : List Action) (res : Response E)
        → ((r : Response E) → res_loop E url xs r ≡ res_loop E url ys r)
        → res_loop E url (a ∷ xs) res ≡ res_loop E url (a ∷ ys) res
    unfolding res_loop
    res_loop-cong a xs ys res same =
        bind-cong (res_action E url a res) _ _ elim [ next_res r ↦ same r | return_res x ↦ refl ]

    res_loop-select :
        (actions : List Action) (res : Response E)
        → res_loop E url (select is_on_response actions) res ≡ res_loop E url actions res
    unfolding res_loop res_action
    res_loop-select [] res = refl
    res_loop-select (modify_response m ∷ more) res =
        res_loop-cong (modify_response m) (select is_on_response more) more res
          (res_loop-select more)
    res_loop-select (log_response ∷ more) res =
        res_loop-cong log_response (select is_on_response more) more res (res_loop-select more)
    res_loop-select (js code ∷ more) res =
        res_loop-cong (js code) (select is_on_response more) more res (res_loop-select more)
    res_loop-select (reject ∷ more) res = res_loop-select more res
    res_loop-select (redirect _ ∷ more) res = res_loop-select more res
    res_loop-select (modify_request _ ∷ more) res = res_loop-select more res
    res_loop-select (log_request ∷ more) res = res_loop-select more res

  -- What a rule does with a response depends on the actions that concern responses alone.
  do_res-select :
      (rule : Rule) (res : Response E)
      → do_res E (record rule { actions = select is_on_response rule.actions }) res
        ≡ do_res E rule res
  unfolding do_res
  do_res-select rule res = res_loop-select (unwrap_or [] rule.url) rule.actions res

-- The actions that always end the loop over a request.
abbrev pub is_last : Action → Bool
is_last reject = true
is_last (js _) = true
is_last _ = false

module _ (E : Env) (filters : List Filter) (url : Text) where
  -- Whatever makes the step, it is one that returns.
  IsReturn : Step E → Type 0
  IsReturn (next r) = ⊥
  IsReturn (return x) = Unit

  scripted-IsReturn : (o : Option (Request E)) → IsReturn (scripted E o)
  unfolding scripted IsReturn
  scripted-IsReturn none = tt
  scripted-IsReturn (some r) = tt

  -- Two ways to go on after a step that returns are the same.
  returned-eq :
      (k l : Request E → Io E (RequestOrResponse E)) (s : Step E)
      → IsReturn s
      → (elim s as (λ _. Io E (RequestOrResponse E)) [ next r ↦ k r | return x ↦ pure x ])
        ≡ (elim s as (λ _. Io E (RequestOrResponse E)) [ next r ↦ l r | return x ↦ pure x ])
  unfolding IsReturn
  returned-eq k l (next r) h = absurd h
  returned-eq k l (return x) h = refl

  last-IsReturn :
      (a : Action) (req : Request E)
      → is_last a ≡ true
      → Ensures IsReturn (req_action E filters url a req)
  unfolding req_action IsReturn
  last-IsReturn reject req h = tt
  last-IsReturn (js code) req h =
      Ensures-bind IsReturn (Js.modify_req E code req) _ (λ o _. scripted-IsReturn o)
  last-IsReturn (redirect _) req h = cc
  last-IsReturn (modify_request _) req h = cc
  last-IsReturn (modify_response _) req h = cc
  last-IsReturn log_response req h = cc
  last-IsReturn log_request req h = cc

  req_loop-last :
      (before : List Action) (a : Action) (after : List Action) (req : Request E)
      → is_last a ≡ true
      → req_loop E filters url (before ++ (a ∷ after)) req
        ≡ req_loop E filters url (before ++ (a ∷ [])) req
  unfolding req_loop IsReturn
  req_loop-last [] a after req h = bind-cong_of_done (req_action E filters url a req) _ _ (λ s made.
      returned-eq (req_loop E filters url after) (λ r. pure (request r)) s
        (Ensures-at IsReturn (req_action E filters url a req) made (last-IsReturn a req h)))
  req_loop-last (b ∷ before) a after req h =
      req_loop-cong E filters url b (before ++ (a ∷ after)) (before ++ (a ∷ [])) req
        (λ r. req_loop-last before a after r h)

-- No action that stands behind a rejection or a script is run on a request: whatever stands there,
-- the result of the rule and its log are the same.
pub do_req-last :
    (E : Env) (rule : Rule) (before : List Action) (a : Action) (after : List Action)
    (req : Request E)
    → is_last a ≡ true
    → result_of E (record rule { actions = before ++ (a ∷ after) }) req
      ≡ result_of E (record rule { actions = before ++ (a ∷ []) }) req
do_req-last E rule before a after req h =
    result_of-req_loop E (record rule { actions = before ++ (a ∷ after) }) req
    ∙ req_loop-last E rule.filters (E.uri_to_string req.uri) before a after req h
    ∙ sym (result_of-req_loop E (record rule { actions = before ++ (a ∷ []) }) req)
