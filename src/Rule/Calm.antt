-- ===== src/Rule/Calm.antt =====
-- Rules that do not panic, on a request.
pub mod Responses
use good_mitm.Prelude.{
  ◌≡◌, All, Bool, Bool-cases, Option, Option-cases, none, some, inl, inr, List, [], ◌∷◌,
}
use good_mitm.Text.{Text}
use good_mitm.Env.{Env}
use good_mitm.Io.{Io, Request, Response, pure, tell, unwrap, ◌>>◌}
use good_mitm.Io.Ensures.{Returns, unwrap-eq_done}
use good_mitm.Io.Halting.{Halts, Halts-bind, Halts-unwrap, Returns-Halts}
use good_mitm.Filter.{
  Filter, all_requests, domain, domain_keyword, domain_prefix, domain_suffix, url_regex, get_regex,
  is_match_req,
}
use good_mitm.HttpHandler.{RequestOrResponse}
use good_mitm.LogLines.{log_req, log_res}
use good_mitm.Modify
use good_mitm.Js
use good_mitm.Rule.{
  Rule, Action, reject, redirect, modify_request, modify_response, log_response, log_request, js,
  Step, next, return, ResStep, next_res, return_res, redirect_response, redirect_line, has_dollar,
  redirect_by_filters, redirect_plain, redirect_found, do_redirect, req_action, req_loop, do_req,
  res_action, res_loop, do_res,
}

module _ (E : Env) where
  -- A regular expression is one, and neither searching nor replacing with it fails.
  pub record IsRegex (re : Text) : Type 0 where
    pub compiles : (regex : E.Regex) × (E.regex_new re ≡ some regex)
    pub searches :
        (regex : E.Regex) (t : Text)
        → E.regex_new re ≡ some regex
        → (b : Bool) × (E.regex_is_match regex t ≡ some b)
    pub replaces :
        (regex : E.Regex) (t new : Text)
        → E.regex_new re ≡ some regex
        → (s : Text) × (E.regex_replace regex t new ≡ some s)

  abbrev pub CalmFilter : Filter → Type 0
  CalmFilter (url_regex re) = IsRegex re
  CalmFilter _ = Unit

  -- Changes and scripts do not panic on any message; the other actions never do.
  abbrev pub CalmAction : Action → Type 0
  CalmAction (modify_request md) = (req : Request E) → Returns (Modify.modify_req E md req)
  CalmAction (modify_response md) = (res : Response E) → Returns (Modify.modify_res E md res)
  CalmAction (js code) =
      ((req : Request E) → Returns (Js.modify_req E code req))
      × ((res : Response E) → Returns (Js.modify_res E code res))
  CalmAction _ = Unit

  abbrev pub CalmRule : Rule → Type 0
  CalmRule rule = All CalmFilter rule.filters × All CalmAction rule.actions

  get_regex-Halts : (re : Text) → IsRegex re → Halts (get_regex E re)
  unfolding get_regex
  get_regex-Halts re is = Halts-unwrap E (E.regex_new re) is.compiles

  pub is_match_req-Halts :
      (f : Filter) (req : Request E) → CalmFilter f → Halts (is_match_req E f req)
  unfolding is_match_req get_regex
  is_match_req-Halts all_requests req h = tt
  is_match_req-Halts (domain _) req h = tt
  is_match_req-Halts (domain_keyword _) req h = tt
  is_match_req-Halts (domain_prefix _) req h = tt
  is_match_req-Halts (domain_suffix _) req h = tt
  is_match_req-Halts (url_regex re) req h =
      Halts-bind (get_regex E re) _ (get_regex-Halts re h) (λ regex is.
        Halts-unwrap E (E.regex_is_match regex (E.uri_to_string req.uri))
          (h.searches regex (E.uri_to_string req.uri) (unwrap-eq_done E (E.regex_new re) is)))

  module _ (target url : Text) (req : Request E) where
    redirect_plain-Halts : Halts (redirect_plain E target url req)
    unfolding redirect_plain
    redirect_plain-Halts = elim (Option-cases (E.value_from_str target)) [
      | inl no_value ↦ rw (no_value, redirect_plain) tt
      | inr (v, value) ↦ rw (value, redirect_plain) tt
    ]

    redirect_found-Halts :
        (found : Option (Response E)) → Halts (redirect_found E target url req found)
    unfolding redirect_found
    redirect_found-Halts none = redirect_plain-Halts
    redirect_found-Halts (some res) = tt

    redirect_by_filters-Halts :
        (filters : List Filter)
        → All CalmFilter filters
        → Halts (redirect_by_filters E filters target url req)
    unfolding redirect_by_filters get_regex
    redirect_by_filters-Halts [] h = tt
    redirect_by_filters-Halts (all_requests ∷ more) (_, h) = redirect_by_filters-Halts more h
    redirect_by_filters-Halts (domain _ ∷ more) (_, h) = redirect_by_filters-Halts more h
    redirect_by_filters-Halts (domain_keyword _ ∷ more) (_, h) = redirect_by_filters-Halts more h
    redirect_by_filters-Halts (domain_prefix _ ∷ more) (_, h) = redirect_by_filters-Halts more h
    redirect_by_filters-Halts (domain_suffix _ ∷ more) (_, h) = redirect_by_filters-Halts more h
    redirect_by_filters-Halts (url_regex re ∷ more) (is, h) =
        let rest = redirect_by_filters-Halts more h in
        let uri = E.uri_to_string req.uri in
        Halts-bind (get_regex E re) _ (get_regex-Halts re is) (λ regex made.
          Halts-bind (unwrap (E.regex_replace regex uri target)) _
            (Halts-unwrap E (E.regex_replace regex uri target)
              (is.replaces regex uri target (unwrap-eq_done E (E.regex_new re) made)))
            (λ t _. tried t (redirect_by_filters E more target url req) rest (E.value_from_str t)))
      where
        tried :
            (t : Text) (go_on : Io E (Option (Response E)))
            → Halts go_on
            → (o : Option E.HeaderValue)
            → Halts (elim o as (λ _. Io E (Option (Response E))) [
              | none ↦ go_on
              | some value ↦ do
                tell (redirect_line E url t)
                pure (some (redirect_response E value))
            ])
        tried t go_on h none = h
        tried t go_on h (some v) = tt

    do_redirect-Halts :
        (filters : List Filter)
        → All CalmFilter filters
        → Halts (do_redirect E filters target url req)
    unfolding do_redirect
    do_redirect-Halts filters h = elim (Bool-cases (has_dollar target)) [
      | inl dollar ↦
          rw (dollar, do_redirect)
            (Halts-bind (redirect_by_filters E filters target url req) _
              (redirect_by_filters-Halts filters h) (λ found _. redirect_found-Halts found))
      | inr plain ↦ rw (plain, do_redirect) redirect_plain-Halts
    ]

  req_action-Halts :
      (filters : List Filter) (url : Text) (a : Action) (req : Request E)
      → All CalmFilter filters
      → CalmAction a
      → Halts (req_action E filters url a req)
  unfolding req_action log_req
  req_action-Halts filters url reject req hf h = tt
  req_action-Halts filters url (redirect target) req hf h =
      do_redirect-Halts target url req filters hf
  req_action-Halts filters url (modify_request md) req hf h =
      Halts-bind (Modify.modify_req E md req) _ (Returns-Halts (Modify.modify_req E md req) (h req))
        (λ _ _. tt)
  req_action-Halts filters url (modify_response _) req hf h = tt
  req_action-Halts filters url log_response req hf h = tt
  req_action-Halts filters url log_request req hf h = tt
  req_action-Halts filters url (js code) req hf h =
      Halts-bind (Js.modify_req E code req) _ (Returns-Halts (Js.modify_req E code req) (h.0 req))
        (λ _ _. tt)

  req_loop-Halts :
      (filters : List Filter) (url : Text) (actions : List Action) (req : Request E)
      → All CalmFilter filters
      → All CalmAction actions
      → Halts (req_loop E filters url actions req)
  unfolding req_loop
  req_loop-Halts filters url [] req hf h = tt
  req_loop-Halts filters url (a ∷ more) req hf (ha, h) =
      Halts-bind (req_action E filters url a req) _ (req_action-Halts filters url a req hf ha)
        (λ step _. after (λ r. req_loop-Halts filters url more r hf h) step)
    where
      after :
          ((r : Request E) → Halts (req_loop E filters url more r))
          → (step : Step E)
          → Halts (elim step as (λ _. Io E (RequestOrResponse E)) [
            | next req' ↦ req_loop E filters url more req'
            | return result ↦ pure result
          ])
      after ih (next r) = ih r
      after ih (return r) = tt

  pub do_req-Halts : (rule : Rule) (req : Request E) → CalmRule rule → Halts (do_req E rule req)
  unfolding do_req
  do_req-Halts rule req (hf, h) =
      let url = E.uri_to_string req.uri in
      Halts-bind (req_loop E rule.filters url rule.actions req) _
        (req_loop-Halts rule.filters url rule.actions req hf h) (λ _ _. tt)
