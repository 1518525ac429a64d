-- ===== src/Rule/Requests.antt =====
-- What may come of a rule on a request.
use good_mitm.Prelude.{
  ◌≡◌, refl, ap, ◌∙◌, ◌⊎◌, inl, inr, Bool-cases, Option, none, some, Option-cases, List, [], ◌∷◌,
  sym,
}
use good_mitm.Text.{Text}
use good_mitm.Env.{Env}
use good_mitm.Io.{Io, Request, Response, pure, unwrap}
use good_mitm.Io.Ensures.{Ensures, Ensures-bind, Ensures-of, Ensures-at}
use good_mitm.Filter.{
  Filter, all_requests, domain, domain_keyword, domain_prefix, domain_suffix, url_regex, get_regex,
}
use good_mitm.Modify
use good_mitm.Modify.{Modify, bad_gateway}
use good_mitm.Modify.Frame.{SameBut, Part, uri, headers, body, target, IfSome, modify_req-SameBut}
use good_mitm.Js
use good_mitm.Js.Scripted.{SameLine, SameLineIfSome, modify_req-SameLine}
use good_mitm.LogLines.{log_req}
use good_mitm.HttpHandler.{RequestOrResponse, request, response}
use good_mitm.Rule.{
  Rule, Action, reject, redirect, modify_request, modify_response, log_request, log_response, js,
  Step, next, return, req_action, req_loop, do_req, modified, scripted, do_redirect, redirect_found,
  redirect_plain, redirect_by_filters, found, bad_request, has_dollar,
}

module _ (E : Env) where
  -- A response that the proxy makes by itself: a refusal, a redirection or a complaint, with no body.
  abbrev pub IsOwn : Response E → Type 0
  IsOwn res =
      ((res.status ≡ bad_gateway) ⊎ (res.status ≡ found) ⊎ (res.status ≡ bad_request))
      × (res.body ≡ E.body_empty)

  abbrev pub Allowed : Request E → RequestOrResponse E → Type 0
  Allowed req (request r) = SameLine E req r
  Allowed req (response res) = IsOwn res

  abbrev AllowedStep : Request E → Step E → Type 0
  AllowedStep req (next r) = SameLine E req r
  AllowedStep req (return x) = Allowed req x

  abbrev IsOwnIfSome : Option (Response E) → Type 0
  IsOwnIfSome none = Unit
  IsOwnIfSome (some res) = IsOwn res

  line_of_SameBut : (p : Part) (req r : Request E) → SameBut E p req r → SameLine E req r
  line_of_SameBut uri req r e =
      (ap (λ (q : Request E). q.method) (sym e), ap (λ (q : Request E). q.version) (sym e))
  line_of_SameBut headers req r e =
      (ap (λ (q : Request E). q.method) (sym e), ap (λ (q : Request E). q.version) (sym e))
  line_of_SameBut body req r e =
      (ap (λ (q : Request E). q.method) (sym e), ap (λ (q : Request E). q.version) (sym e))

  modified-Allowed :
      (p : Part) (req : Request E) (o : Option (Request E))
      → IfSome E (SameBut E p req) o
      → AllowedStep req (modified E o)
  unfolding modified
  modified-Allowed p req none h = (inr (inr refl), refl)
  modified-Allowed p req (some r) h = line_of_SameBut p req r h

  scripted-Allowed :
      (req : Request E) (o : Option (Request E))
      → SameLineIfSome E req o
      → AllowedStep req (scripted E o)
  unfolding scripted
  scripted-Allowed req none h = (inr (inr refl), refl)
  scripted-Allowed req (some r) h = h

  redirect_plain-Allowed :
      (to address : Text) (req : Request E)
      → Ensures (AllowedStep req) (redirect_plain E to address req)
  unfolding redirect_plain
  redirect_plain-Allowed to address req = elim (Option-cases (E.value_from_str to)) [
    | inl bad ↦ rw (bad, redirect_plain) (refl, refl)
    | inr (v, good) ↦ rw (good, redirect_plain) (inr (inl refl), refl)
  ]

  replaced-IsOwn :
      (filters : List Filter) (to address : Text) (req : Request E)
      → Ensures IsOwnIfSome (redirect_by_filters E filters to address req)
  unfolding redirect_by_filters
  replaced-IsOwn [] to address req = tt
  replaced-IsOwn (url_regex re ∷ more) to address req =
      let rest = replaced-IsOwn more to address req in
      Ensures-bind IsOwnIfSome (get_regex E re) _ (λ compiled _.
        Ensures-bind IsOwnIfSome (unwrap (E.regex_replace compiled (E.uri_to_string req.uri) to)) _
          (λ replaced _. elim (Option-cases (E.value_from_str replaced)) [
            | inl bad ↦ rw bad rest
            | inr (v, good) ↦ rw good (inr (inl refl), refl)
          ]))
  replaced-IsOwn (all_requests ∷ more) to address req = replaced-IsOwn more to address req
  replaced-IsOwn (domain _ ∷ more) to address req = replaced-IsOwn more to address req
  replaced-IsOwn (domain_keyword _ ∷ more) to address req = replaced-IsOwn more to address req
  replaced-IsOwn (domain_prefix _ ∷ more) to address req = replaced-IsOwn more to address req
  replaced-IsOwn (domain_suffix _ ∷ more) to address req = replaced-IsOwn more to address req

  redirect_found-Allowed :
      (to address : Text) (req : Request E) (o : Option (Response E))
      → IsOwnIfSome o
      → Ensures (AllowedStep req) (redirect_found E to address req o)
  unfolding redirect_found
  redirect_found-Allowed to address req none h = redirect_plain-Allowed to address req
  redirect_found-Allowed to address req (some res) h = h

  do_redirect-Allowed :
      (filters : List Filter) (to address : Text) (req : Request E)
      → Ensures (AllowedStep req) (do_redirect E filters to address req)
  unfolding do_redirect
  do_redirect-Allowed filters to address req = elim (Bool-cases (has_dollar to)) [
    | inl dollar ↦
        let tried = redirect_by_filters E filters to address req in
        rw (dollar, do_redirect)
          (Ensures-bind (AllowedStep req) tried _ (λ o made.
            redirect_found-Allowed to address req o
              (Ensures-at IsOwnIfSome tried made (replaced-IsOwn filters to address req))))
    | inr plain ↦ rw (plain, do_redirect) (redirect_plain-Allowed to address req)
  ]

  module _ (filters : List Filter) (address : Text) where
    req_action-Allowed :
        (a : Action) (req : Request E)
        → Ensures (AllowedStep req) (req_action E filters address a req)
    unfolding req_action log_req
    req_action-Allowed reject req = (inl refl, refl)
    req_action-Allowed (redirect to) req = do_redirect-Allowed filters to address req
    req_action-Allowed (modify_request m) req =
        Ensures-bind (AllowedStep req) (Modify.modify_req E m req) _ (λ o made.
          modified-Allowed (target m) req o
            (Ensures-at _ (Modify.modify_req E m req) made (modify_req-SameBut E m req)))
    req_action-Allowed (modify_response _) req = (refl, refl)
    req_action-Allowed log_response req = (refl, refl)
    req_action-Allowed log_request req = (refl, refl)
    req_action-Allowed (js code) req =
        Ensures-bind (AllowedStep req) (Js.modify_req E code req) _ (λ o made.
          scripted-Allowed req o
            (Ensures-at _ (Js.modify_req E code req) made (modify_req-SameLine E code req)))

    -- What is allowed for a request is allowed for one with the same method and version.
    Allowed-SameLine :
        (req r : Request E) (x : RequestOrResponse E)
        → SameLine E req r
        → Allowed r x
        → Allowed req x
    Allowed-SameLine req r (request q) (m, v) (m', v') = (m' ∙ m, v' ∙ v)
    Allowed-SameLine req r (response res) same h = h

    req_loop-Allowed :
        (actions : List Action) (req : Request E)
        → Ensures (Allowed req) (req_loop E filters address actions req)
    unfolding req_loop
    req_loop-Allowed [] req = (refl, refl)
    req_loop-Allowed (a ∷ more) req =
        Ensures-bind (Allowed req) (req_action E filters address a req) _ (λ s made.
          after s (req_loop-Allowed more)
            (Ensures-at _ (req_action E filters address a req) made (req_action-Allowed a req)))
      where
        after :
            (s : Step E)
            → ((r : Request E) → Ensures (Allowed r) (req_loop E filters address more r))
            → AllowedStep req s
            → Ensures (Allowed req) (elim s as (λ _. Io E (RequestOrResponse E)) [
              | next r ↦ req_loop E filters address more r
              | return x ↦ pure x
            ])
        after (next r) ih same =
            Ensures-of (Allowed req) (req_loop E filters address more r) (λ x made.
              Allowed-SameLine req r x same
                (Ensures-at _ (req_loop E filters address more r) made (ih r)))
        after (return x) ih h = h

  -- If a rule does not panic on a request, it gives either a request with the method and version of
  -- the old one, whatever its actions and scripts are, or a response of its own, which is a 502, a
  -- 302 or a 400 and has an empty body.
  pub do_req-Allowed :
      (rule : Rule) (req : Request E) → Ensures (λ d. Allowed req d.1) (do_req E rule req)
  unfolding do_req
  do_req-Allowed rule req =
      let loop = req_loop E rule.filters (E.uri_to_string req.uri) rule.actions req in
      Ensures-bind _ loop _ (λ x made.
        Ensures-at _ loop made
          (req_loop-Allowed rule.filters (E.uri_to_string req.uri) rule.actions req))
