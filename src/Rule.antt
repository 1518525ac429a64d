-- ===== src/Rule.antt =====
-- crates/rule/src/lib.rs and crates/rule/src/action/mod.rs, with the feature `js` that the program
-- is built with
pub mod Quiet
pub mod Passes
pub mod Requests
pub mod Calm
use good_mitm.Prelude.{
  ℕ, Bool, true, false, ◌==◌, Option, none, some, List, [], ◌∷◌, ◌++◌, any, if◌then◌else◌,
  unwrap_or,
}
use good_mitm.Text.{Text, codes}
use good_mitm.Env.{Env, location}
use good_mitm.Io.{Io, Event, Request, Response, info, pure, tell, unwrap, ◌>>=◌, ◌>>◌}
use good_mitm.Filter.{
  Filter, all_requests, domain, domain_keyword, domain_prefix, domain_suffix, url_regex, get_regex,
}
use good_mitm.HttpHandler.{RequestOrResponse, request, response}
use good_mitm.Modify
use good_mitm.Modify.{Modify, build_response, bad_gateway}
use good_mitm.Js
use good_mitm.LogLines.{log_req, log_res}

pub data Action : Type 0 where
  reject : Action
  redirect : Text → Action
  modify_request : Modify → Action
  modify_response : Modify → Action
  log_response log_request : Action
  js : Text → Action

pub record Rule : Type 0 where
  pub filters : List Filter
  pub actions : List Action
  pub url : Option Text

-- `StatusCode::FOUND`, `StatusCode::BAD_REQUEST`
abbrev pub found : ℕ
found = 302

abbrev pub bad_request : ℕ
bad_request = 400

-- How an action on a request ends: the loop goes on with a request, or the function returns.
pub data Step (E : Env) : Type 0 where
  next : Request E → Step E
  return : RequestOrResponse E → Step E

-- How an action on a response ends.
pub data ResStep (E : Env) : Type 0 where
  next_res : Response E → ResStep E
  return_res : Response E → ResStep E

-- `target.contains('$')`
abbrev has_dollar : Text → Bool
has_dollar target = any (λ c. c == b'$') target

module _ (E : Env) where
  -- A response that `Response::builder()` makes with an empty body.
  abbrev pub empty_response : ℕ → Response E
  empty_response status = build_response E status E.body_empty

  abbrev pub redirect_response : E.HeaderValue → Response E
  redirect_response target = record (empty_response found) {
    headers = E.headers_insert (E.standard location) target E.headers_empty;
  }

  abbrev redirect_line : Text → Text → Event E
  redirect_line url target = info (codes "[Redirect] " ++ (url ++ (codes " -> " ++ target)))

  -- Each expression among the filters is tried until one gives a target that a header can hold.
  redirect_by_filters : List Filter → Text → Text → Request E → Io E (Option (Response E))
  redirect_by_filters [] target url req = pure none
  redirect_by_filters (url_regex re ∷ more) target url req = do
    compiled ← get_regex E re
    replaced ← unwrap (E.regex_replace compiled (E.uri_to_string req.uri) target)
    elim (E.value_from_str replaced) [
      | none ↦ redirect_by_filters more target url req
      | some value ↦ do tell (redirect_line url replaced); pure (some (redirect_response value))
    ]
  redirect_by_filters (_ ∷ more) target url req = redirect_by_filters more target url req

  redirect_plain : Text → Text → Request E → Io E (Step E)
  redirect_plain target url req = elim (E.value_from_str target) [
    | none ↦ pure (next req)
    | some value ↦ do
      tell (redirect_line url target)
      pure (return (response (redirect_response value)))
  ]

  redirect_found : Text → Text → Request E → Option (Response E) → Io E (Step E)
  unfolding redirect_plain
  redirect_found target url req none = redirect_plain target url req
  redirect_found target url req (some res) = pure (return (response res))

  do_redirect : List Filter → Text → Text → Request E → Io E (Step E)
  unfolding redirect_found redirect_by_filters
  do_redirect filters target url req =
      if has_dollar target
      then redirect_by_filters filters target url req >>= redirect_found target url req
      else redirect_plain target url req

  modified : Option (Request E) → Step E
  modified none = return (response (empty_response bad_request))
  modified (some req) = next req

  scripted : Option (Request E) → Step E
  scripted none = return (response (empty_response bad_request))
  scripted (some req) = return (request req)

  -- One round of the loop of `do_req`.
  unfoldable pub req_action : List Filter → Text → Action → Request E → Io E (Step E)
  unfolding do_redirect modified scripted
  req_action filters url reject req = do
    tell (info (codes "[Reject] " ++ url))
    pure (return (response (empty_response bad_gateway)))
  req_action filters url (redirect target) req = do_redirect filters target url req
  req_action filters url (modify_request modify) req = do
    tell (info (codes "[ModifyRequest] " ++ url))
    new_req ← Modify.modify_req E modify req
    pure (modified new_req)
  req_action filters url (modify_response _) req = pure (next req)
  req_action filters url log_response req = pure (next req)
  req_action filters url log_request req = do
    tell (info (codes "[LogRequest] " ++ url))
    log_req E req
    pure (next req)
  req_action filters url (js code) req = do
    tell (info (codes "[LogRequest] " ++ url))
    new_req ← Js.modify_req E code req
    pure (scripted new_req)

  unfoldable pub req_loop :
      List Filter → Text → List Action → Request E → Io E (RequestOrResponse E)
  req_loop filters url [] req = pure (request req)
  req_loop filters url (action ∷ more) req = do
    step ← req_action filters url action req
    elim step [ next req' ↦ req_loop filters url more req' | return result ↦ pure result ]

  -- `do_req`: the rule with its URL set, and the result.
  unfoldable pub do_req : Rule → Request E → Io E (Rule × RequestOrResponse E)
  unfolding req_loop
  do_req rule req = do
    let url = E.uri_to_string req.uri
    result ← req_loop rule.filters url rule.actions req
    pure (record rule { url = some url }, result)

  scripted_res : Option (Response E) → ResStep E
  scripted_res none = return_res (empty_response bad_request)
  scripted_res (some res) = return_res res

  -- One round of the loop of `do_res`.
  unfoldable pub res_action : Text → Action → Response E → Io E (ResStep E)
  unfolding scripted_res
  res_action url (modify_response modify) res = do
    tell (info (codes "[ModifyResponse] " ++ url))
    res' ← Modify.modify_res E modify res
    pure (next_res res')
  res_action url log_response res = do
    tell (info (codes "[LogResponse] " ++ url))
    log_res E res
    pure (next_res res)
  res_action url (js code) res = do
    tell (info (codes "[LogResponse] " ++ url))
    res' ← Js.modify_res E code res
    pure (scripted_res res')
  res_action url _ res = pure (next_res res)

  unfoldable pub res_loop : Text → List Action → Response E → Io E (Response E)
  res_loop url [] res = pure res
  res_loop url (action ∷ more) res = do
    step ← res_action url action res
    elim step [ next_res res' ↦ res_loop url more res' | return_res result ↦ pure result ]

  unfoldable pub do_res : Rule → Response E → Io E (Response E)
  unfolding res_loop
  do_res rule res = res_loop (unwrap_or [] rule.url) rule.actions res
