-- ===== src/Rule/Quiet.antt =====
-- Rules send nothing and start nothing.
use good_mitm.Prelude.{
  Option, none, some, Option-cases, Bool-cases, inl, inr, List, [], ◌∷◌, unwrap_or,
}
use good_mitm.Text.{Text}
use good_mitm.Env.{Env}
use good_mitm.Io.{Io, Request, Response, unwrap, tell, pure, ◌>>◌}
use good_mitm.Io.Local.{OnlyLogs, OnlyLogs-bind, OnlyLogs-unwrap}
use good_mitm.Filter.{
  Filter, all_requests, domain, domain_keyword, domain_prefix, domain_suffix, url_regex, get_regex,
}
use good_mitm.Filter.Quiet.{get_regex-OnlyLogs}
use good_mitm.Modify
use good_mitm.Modify.Quiet as ModifyQuiet
use good_mitm.Js
use good_mitm.Js.Quiet as JsQuiet
use good_mitm.HttpHandler.{RequestOrResponse}
use good_mitm.LogLines.{log_req, log_res}
use good_mitm.Rule.{
  Action, reject, redirect, modify_request, modify_response, log_response, log_request, js, Rule,
  Step, next, return, ResStep, next_res, return_res, has_dollar, redirect_line, redirect_response,
  redirect_by_filters, redirect_plain, redirect_found, do_redirect, req_action, req_loop, do_req,
  res_action, res_loop, do_res,
}

module _ (E : Env) where
  redirect_plain-OnlyLogs :
      (target address : Text) (req : Request E) → OnlyLogs (redirect_plain E target address req)
  unfolding redirect_plain
  redirect_plain-OnlyLogs target address req = elim (Option-cases (E.value_from_str target)) [
    | inl bad ↦ rw (bad, redirect_plain) tt
    | inr (v, good) ↦ rw (good, redirect_plain) (tt, tt)
  ]

  redirect_by_filters-OnlyLogs :
      (filters : List Filter) (target address : Text) (req : Request E)
      → OnlyLogs (redirect_by_filters E filters target address req)
  unfolding redirect_by_filters
  redirect_by_filters-OnlyLogs [] target address req = tt
  redirect_by_filters-OnlyLogs (all_requests ∷ more) target address req =
      redirect_by_filters-OnlyLogs more target address req
  redirect_by_filters-OnlyLogs (domain _ ∷ more) target address req =
      redirect_by_filters-OnlyLogs more target address req
  redirect_by_filters-OnlyLogs (domain_keyword _ ∷ more) target address req =
      redirect_by_filters-OnlyLogs more target address req
  redirect_by_filters-OnlyLogs (domain_prefix _ ∷ more) target address req =
      redirect_by_filters-OnlyLogs more target address req
  redirect_by_filters-OnlyLogs (domain_suffix _ ∷ more) target address req =
      redirect_by_filters-OnlyLogs more target address req
  redirect_by_filters-OnlyLogs (url_regex re ∷ more) target address req =
      let rest = redirect_by_filters-OnlyLogs more target address req in
      OnlyLogs-bind (get_regex E re) _ (get_regex-OnlyLogs E re) (λ r.
        let o = E.regex_replace r (E.uri_to_string req.uri) target in
        OnlyLogs-bind (unwrap o) _ (OnlyLogs-unwrap E o)
          (λ t. tried t (redirect_by_filters E more target address req) rest (E.value_from_str t)))
    where
      tried :
          (t : Text) (go_on : Io E (Option (Response E)))
          → OnlyLogs go_on
          → (o : Option E.HeaderValue)
          → OnlyLogs (elim o as (λ _. Io E (Option (Response E))) [
            | none ↦ go_on
            | some value ↦ do
              tell (redirect_line E address t)
              pure (some (redirect_response E value))
          ])
      tried t go_on h none = h
      tried t go_on h (some v) = (tt, tt)

  redirect_found-OnlyLogs :
      (target address : Text) (req : Request E) (found : Option (Response E))
      → OnlyLogs (redirect_found E target address req found)
  unfolding redirect_found
  redirect_found-OnlyLogs target address req none = redirect_plain-OnlyLogs target address req
  redirect_found-OnlyLogs target address req (some res) = tt

  do_redirect-OnlyLogs :
      (filters : List Filter) (target address : Text) (req : Request E)
      → OnlyLogs (do_redirect E filters target address req)
  unfolding do_redirect
  do_redirect-OnlyLogs filters target address req = elim (Bool-cases (has_dollar target)) [
    | inl dollar ↦
        rw (dollar, do_redirect)
          (OnlyLogs-bind (redirect_by_filters E filters target address req) _
            (redirect_by_filters-OnlyLogs filters target address req)
            (redirect_found-OnlyLogs target address req))
    | inr plain ↦ rw (plain, do_redirect) (redirect_plain-OnlyLogs target address req)
  ]

  req_action-OnlyLogs :
      (filters : List Filter) (address : Text) (a : Action) (req : Request E)
      → OnlyLogs (req_action E filters address a req)
  unfolding req_action log_req
  req_action-OnlyLogs filters address reject req = (tt, tt)
  req_action-OnlyLogs filters address (redirect target) req =
      do_redirect-OnlyLogs filters target address req
  req_action-OnlyLogs filters address (modify_request md) req = (
    tt,
    OnlyLogs-bind (Modify.modify_req E md req) _ (ModifyQuiet.modify_req-OnlyLogs E md req)
        (λ _. tt),
  )
  req_action-OnlyLogs filters address (modify_response _) req = tt
  req_action-OnlyLogs filters address log_response req = tt
  req_action-OnlyLogs filters address log_request req = (tt, (tt, tt))
  req_action-OnlyLogs filters address (js code) req = (
    tt,
    OnlyLogs-bind (Js.modify_req E code req) _ (JsQuiet.modify_req-OnlyLogs E code req) (λ _. tt),
  )

  req_loop-OnlyLogs :
      (filters : List Filter) (address : Text) (actions : List Action) (req : Request E)
      → OnlyLogs (req_loop E filters address actions req)
  unfolding req_loop
  req_loop-OnlyLogs filters address [] req = tt
  req_loop-OnlyLogs filters address (a ∷ more) req =
      let rest = req_loop-OnlyLogs filters address more in
      OnlyLogs-bind (req_action E filters address a req) _
        (req_action-OnlyLogs filters address a req) (stepped (req_loop E filters address more) rest)
    where
      stepped :
          (go_on : Request E → Io E (RequestOrResponse E))
          → ((r : Request E) → OnlyLogs (go_on r))
          → (s : Step E)
          → OnlyLogs
              (elim s as (λ _. Io E (RequestOrResponse E)) [ next r ↦ go_on r | return x ↦ pure x ])
      stepped go_on h (next r) = h r
      stepped go_on h (return x) = tt

  pub do_req-OnlyLogs : (rule : Rule) (req : Request E) → OnlyLogs (do_req E rule req)
  unfolding do_req
  do_req-OnlyLogs rule req =
      let address = E.uri_to_string req.uri in
      OnlyLogs-bind (req_loop E rule.filters address rule.actions req) _
        (req_loop-OnlyLogs rule.filters address rule.actions req) (λ _. tt)

  res_action-OnlyLogs :
      (address : Text) (a : Action) (res : Response E) → OnlyLogs (res_action E address a res)
  unfolding res_action log_res
  res_action-OnlyLogs address reject res = tt
  res_action-OnlyLogs address (redirect target) res = tt
  res_action-OnlyLogs address (modify_request md) res = tt
  res_action-OnlyLogs address (modify_response md) res = (
    tt,
    OnlyLogs-bind (Modify.modify_res E md res) _ (ModifyQuiet.modify_res-OnlyLogs E md res)
        (λ _. tt),
  )
  res_action-OnlyLogs address log_response res = (tt, (tt, tt))
  res_action-OnlyLogs address log_request res = tt
  res_action-OnlyLogs address (js code) res = (
    tt,
    OnlyLogs-bind (Js.modify_res E code res) _ (JsQuiet.modify_res-OnlyLogs E code res) (λ _. tt),
  )

  res_loop-OnlyLogs :
      (address : Text) (actions : List Action) (res : Response E)
      → OnlyLogs (res_loop E address actions res)
  unfolding res_loop
  res_loop-OnlyLogs address [] res = tt
  res_loop-OnlyLogs address (a ∷ more) res =
      let rest = res_loop-OnlyLogs address more in
      OnlyLogs-bind (res_action E address a res) _ (res_action-OnlyLogs address a res)
        (stepped (res_loop E address more) rest)
    where
      stepped :
          (go_on : Response E → Io E (Response E))
          → ((r : Response E) → OnlyLogs (go_on r))
          → (s : ResStep E)
          → OnlyLogs
              (elim s as (λ _. Io E (Response E)) [ next_res r ↦ go_on r | return_res x ↦ pure x ])
      stepped go_on h (next_res r) = h r
      stepped go_on h (return_res x) = tt

  pub do_res-OnlyLogs : (rule : Rule) (res : Response E) → OnlyLogs (do_res E rule res)
  unfolding do_res
  do_res-OnlyLogs rule res = res_loop-OnlyLogs (unwrap_or [] rule.url) rule.actions res
