-- ===== src/Mitm/Answering.antt =====
-- The proxy answers: no panic on a request, with a handler that does not panic.
use mathlib.Core.Path.{subst}
use good_mitm.Prelude.{
  sym, ℕ, ◌≡◌, refl, ◌+◌, ◌<◌, true, Bool-cases, some, Option-cases, inl, inr, arith,
}
use good_mitm.Text.{Text, codes, starts_with, to_decimal}
use good_mitm.Text.Decimal.{all-to_decimal}
use good_mitm.Env.{
  Env, ok, err, content_length, content_type, content_disposition, strict_transport_security,
}
use good_mitm.Env.Laws.{ValueLaws, is_visible}
use good_mitm.Io.{pure, Request, Response, unwrap}
use good_mitm.Io.Ensures.{Ensures, Ensures-at, Returns}
use good_mitm.Io.Halting.{Halts, Halts-bind, Halts-unwrap, Halts-Returns, Returns-Halts}
use good_mitm.HttpHandler.{
  HttpContext, new_context, HttpHandler, RequestOrResponse, request, response,
}
use good_mitm.Mitm.{
  MitmProxy, Answer, absolute_uri, strip_request, fix_length, finish_response, finish_proxy,
  allow_all_cros, get_cert_res, answered, forward, handle, process_request, process_connect, route,
  proxy_req,
}

-- The handler does not panic on a request, as it begins, nor on its response, in the context that
-- it then has.
pub record IsCalm (E : Env) (D : Type 0) (h : HttpHandler E D) : Type 0 where
  pub requests : (req : Request E) → Halts (h.handle_request (new_context E D h.default_data) req)
  pub responses :
      (req : Request E)
      → Ensures
          (λ handled. (res : Response E) → Halts (h.handle_response handled.0 res))
          (h.handle_request (new_context E D h.default_data) req)

module _ (E : Env) (laws : ValueLaws E) where
  digit_is_visible : (d : ℕ) → d < 10 → is_visible (b'0' + d) ≡ true
  digit_is_visible d h = ground arith

  decimal_value : (n : ℕ) → (v : E.HeaderValue) × (E.value_from_str (to_decimal n) ≡ some v)
  decimal_value n = laws.value-visible (to_decimal n) (all-to_decimal is_visible digit_is_visible n)

  fix_length-pure : (n : ℕ) (h : E.HeaderMap) → (h' : E.HeaderMap) × (fix_length E n h ≡ pure h')
  unfolding fix_length
  fix_length-pure n h = elim (Option-cases (E.headers_get (E.standard content_length) h)) [
    | inl absent ↦ (h, rw (absent, fix_length) refl)
    | inr (old, present) ↦
        let (v, is) = decimal_value n in
        (E.headers_set_first (E.standard content_length) v h, rw (present, fix_length, is) refl)
  ]

  pub finish_response-pure :
      (res : Response E) → (out : Response E) × (finish_response E res ≡ pure out)
  unfolding finish_response
  finish_response-pure res =
      let (h, is) = fix_length-pure (E.body_size_hint_lower res.body) res.headers in
      (
        record res { headers = E.headers_remove (E.standard strict_transport_security) h },
        rw (is, finish_response) refl,
      )

  finish_response-Halts : (res : Response E) → Halts (finish_response E res)
  finish_response-Halts res =
      let (out, is) = finish_response-pure res in subst (λ m. Halts m) (sym is) tt

  allow_all_cros-Halts : (res : Response E) → Halts (allow_all_cros E res)
  unfolding allow_all_cros
  allow_all_cros-Halts res =
      Halts-bind (unwrap (E.value_from_str (codes "*"))) _
        (Halts-unwrap E (E.value_from_str (codes "*")) (laws.value-visible (codes "*") refl))
        (λ _ _. tt)

  -- The response is a 200 with the text of the certificate as its body.
  abbrev pub Carries : Text → Response E → Type 0
  Carries cert res = (res.status ≡ 200) × (res.body ≡ E.body_from cert)

  get_cert_res-Carries :
      (cert : Text) → (res : Response E) × (get_cert_res E cert ≡ pure res) × Carries cert res
  unfolding get_cert_res
  get_cert_res-Carries cert =
      let (d, disposition) = laws.value-visible (codes "attachment; filename=good-mitm.crt") refl in
      let (k, kind) = laws.value-visible (codes "application/octet-stream") refl in
      (
        record {
          status = 200;
          version = E.version_default;
          headers =
              E.headers_append (E.standard content_type) k
                (E.headers_append (E.standard content_disposition) d E.headers_empty);
          body = E.body_from cert;
        },
        rw (disposition, kind) refl,
        (refl, refl),
      )

  get_cert_res-Halts : (cert : Text) → Halts (get_cert_res E cert)
  get_cert_res-Halts cert =
      let (res, is, _) = get_cert_res-Carries cert in subst (λ m. Halts m) (sym is) tt

  pub process_request-Carries :
      {D : Type 0} (self : MitmProxy E D) (scheme : E.Scheme) (req : Request E)
      → starts_with (E.uri_path req.uri) (codes "/mitm/cert") ≡ true
      → (res : Response E) × (process_request E self scheme req ≡ pure (ok res))
        × Carries self.cert res
  unfolding process_request
  process_request-Carries self scheme req path =
      let (res, is, carries) = get_cert_res-Carries self.cert in
      (res, rw (path, process_request, is) refl, carries)

  finish_proxy-Halts : (r : Answer E) → Halts (finish_proxy E r)
  unfolding finish_proxy
  finish_proxy-Halts (ok res) =
      Halts-bind (allow_all_cros E res) _ (allow_all_cros-Halts res) (λ _ _. tt)
  finish_proxy-Halts (err e) = tt

  module _ {D : Type 0} (self : MitmProxy E D) (calm : IsCalm E D self.http_handler) where
    answered-Halts :
        (ctx : HttpContext E D) (r : Answer E)
        → ((res : Response E) → Halts (self.http_handler.handle_response ctx res))
        → Halts (answered E self.http_handler ctx r)
    unfolding answered
    answered-Halts ctx (err e) h = tt
    answered-Halts ctx (ok res) h =
        Halts-bind (self.http_handler.handle_response ctx res) _ (h res)
          (λ res' _. Halts-bind (finish_response E res') _ (finish_response-Halts res') (λ _ _. tt))

    forward-Halts :
        (ctx : HttpContext E D) (out : RequestOrResponse E)
        → ((res : Response E) → Halts (self.http_handler.handle_response ctx res))
        → Halts (forward E self ctx out)
    unfolding forward
    forward-Halts ctx (response res) h = tt
    forward-Halts ctx (request req) h = answered-Halts ctx (self.client (strip_request E req)) h

    handle-Halts :
        (scheme : E.Scheme) (req : Request E)
        → Returns (absolute_uri E scheme req)
        → Halts (handle E self scheme req)
    unfolding handle
    handle-Halts scheme req h =
        let ctx = new_context E D self.http_handler.default_data in
        Halts-bind (absolute_uri E scheme req) _ (Returns-Halts (absolute_uri E scheme req) h)
          (λ req' _.
            Halts-bind (self.http_handler.handle_request ctx req') _ (calm.requests req')
              (λ handled is. forward-Halts handled.0 handled.1 (
                Ensures-at _ (self.http_handler.handle_request ctx req') is (calm.responses req'))))

    pub process_request-Halts :
        (scheme : E.Scheme) (req : Request E)
        → Returns (absolute_uri E scheme req)
        → Halts (process_request E self scheme req)
    unfolding process_request
    process_request-Halts scheme req h =
        elim (Bool-cases (starts_with (E.uri_path req.uri) (codes "/mitm/cert"))) [
          | inl cert ↦
              rw (cert, process_request)
                (Halts-bind (get_cert_res E self.cert) _ (get_cert_res-Halts self.cert) (λ _ _. tt))
          | inr other ↦ rw (other, process_request) (handle-Halts scheme req h)
        ]

    route-Halts :
        (req : Request E) → Returns (absolute_uri E E.scheme_http req) → Halts (route E self req)
    unfolding route process_connect
    route-Halts req h = elim (Bool-cases (E.method_is_connect req.method)) [
      | inl connect ↦ rw (connect, route) tt
      | inr other ↦ rw (other, route) (process_request-Halts E.scheme_http req h)
    ]

    -- If the URI of a request can be completed, the proxy with a handler that does not panic answers
    -- it, or hands on the error of the client, over HTTP and under TLS alike.
    pub proxy_req-Returns :
        (req : Request E)
        → ((scheme : E.Scheme) → Returns (absolute_uri E scheme req))
        → Returns (proxy_req E self req) × Returns (process_request E self E.scheme_https req)
    unfolding proxy_req
    proxy_req-Returns req h = (
      Halts-Returns (proxy_req E self req) (
          Halts-bind (route E self req) (finish_proxy E) (route-Halts req (h E.scheme_http))
            (λ r _. finish_proxy-Halts r)),
      Halts-Returns (process_request E self E.scheme_https req)
          (process_request-Halts E.scheme_https req (h E.scheme_https)),
    )
