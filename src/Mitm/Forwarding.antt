-- ===== src/Mitm/Forwarding.antt =====
-- What the proxy sends, and what it answers by itself.
use good_mitm.Prelude.{
  ℕ, ◌≡◌, ◌||◌, false, Bool-cases, Option, none, some, Option-cases, inl, inr, List, [], ◌∷◌, ◌++◌,
  All, append-nil,
}
use good_mitm.Text.{Text, codes, starts_with, to_decimal}
use good_mitm.Env.{Env, content_length, Result, ok, err}
use good_mitm.Env.Laws.{HeadersLaws}
use good_mitm.Io.{
  Event, Request, Response, info, error, debug, dialed, sent, spawned_tls, spawned_tunnel, pure,
  done, unwrap,
}
use good_mitm.Io.Ensures.{Emits, Emits-bind, Emits-unwrap}
use good_mitm.Io.Local.{IsLocal, OnlyLogs}
use good_mitm.HttpHandler.{
  HttpContext, new_context, HttpHandler, RequestOrResponse, request, response,
}
use good_mitm.Mitm.{
  MitmProxy, get_cert_res, rebuild_uri, absolute_uri, host_text, strip_request, finish_response,
  fix_length, answered, forward, handle, process_request,
}
use good_mitm.Mitm.Headers.{Stripped, strip_request-Stripped}

-- A handler that only logs.
pub record IsQuiet (E : Env) (D : Type 0) (h : HttpHandler E D) : Type 0 where
  pub requests : (ctx : HttpContext E D) (req : Request E) → OnlyLogs (h.handle_request ctx req)
  pub responses : (ctx : HttpContext E D) (res : Response E) → OnlyLogs (h.handle_response ctx res)

module _ (E : Env) (laws : HeadersLaws E) where
  -- The event is a line of the log, or the sending of a stripped request.
  abbrev pub SendsStripped : Event E → Type 0
  SendsStripped (info line) = Unit
  SendsStripped (error line) = Unit
  SendsStripped (debug line) = Unit
  SendsStripped (sent out) = (req : Request E) × Stripped E laws req out
  SendsStripped (spawned_tls req) = ⊥
  SendsStripped (spawned_tunnel req) = ⊥
  SendsStripped (dialed address) = ⊥

  weaken : (events : List (Event E)) → All IsLocal events → All SendsStripped events
  weaken [] h = tt
  weaken (info l ∷ more) (_, h) = (tt, weaken more h)
  weaken (error l ∷ more) (_, h) = (tt, weaken more h)
  weaken (sent r ∷ more) (f, h) = absurd f
  weaken (spawned_tls r ∷ more) (f, h) = absurd f
  weaken (spawned_tunnel r ∷ more) (f, h) = absurd f
  weaken (dialed a ∷ more) (f, h) = absurd f
  weaken (debug l ∷ more) (_, h) = (tt, weaken more h)

  rebuild_uri-Emits :
      (scheme : E.Scheme) (req : Request E) (o : Option Text)
      → Emits SendsStripped (rebuild_uri E scheme req o)
  unfolding rebuild_uri
  rebuild_uri-Emits scheme req none = tt
  rebuild_uri-Emits scheme req (some t) =
      let parts = E.uri_into_parts req.uri in
      let o = E.uri_from_parts (some scheme, E.authority_from_str t, parts.2) in
      Emits-bind SendsStripped (unwrap o) _ (Emits-unwrap SendsStripped o) (λ u _. tt)

  absolute_uri-Emits :
      (scheme : E.Scheme) (req : Request E) → Emits SendsStripped (absolute_uri E scheme req)
  unfolding absolute_uri
  absolute_uri-Emits scheme req =
      elim (Bool-cases (E.version_is_http_10 req.version || E.version_is_http_11 req.version)) [
        | inl old ↦ rw (old, absolute_uri) (rebuild_uri-Emits scheme req (host_text E req))
        | inr new ↦ rw (new, absolute_uri) tt
      ]

  fix_length-Emits : (n : ℕ) (h : E.HeaderMap) → Emits SendsStripped (fix_length E n h)
  unfolding fix_length
  fix_length-Emits n h = elim (Option-cases (E.headers_get (E.standard content_length) h)) [
    | inl absent ↦ rw (absent, fix_length) tt
    | inr (old, present) ↦
        let o = E.value_from_str (to_decimal n) in
        rw (present, fix_length)
          (Emits-bind SendsStripped (unwrap o) _ (Emits-unwrap SendsStripped o) (λ v _. tt))
  ]

  finish_response-Emits : (res : Response E) → Emits SendsStripped (finish_response E res)
  unfolding finish_response
  finish_response-Emits res =
      let size = E.body_size_hint_lower res.body in
      Emits-bind SendsStripped (fix_length E size res.headers) _ (fix_length-Emits size res.headers)
        (λ h _. tt)

  get_cert_res-Emits : (cert : Text) → Emits SendsStripped (get_cert_res E cert)
  unfolding get_cert_res
  get_cert_res-Emits cert =
      Emits-bind SendsStripped
        (unwrap (E.value_from_str (codes "attachment; filename=good-mitm.crt"))) _
        (Emits-unwrap SendsStripped _)
        (λ d _.
          Emits-bind SendsStripped (unwrap (E.value_from_str (codes "application/octet-stream"))) _
            (Emits-unwrap SendsStripped _) (λ k _. tt))

  module _ {D : Type 0} (self : MitmProxy E D) (quiet : IsQuiet E D self.http_handler) where
    answered-Emits :
        (ctx : HttpContext E D) (r : Result (Response E) E.HyperError)
        → Emits SendsStripped (answered E self.http_handler ctx r)
    unfolding answered
    answered-Emits ctx (err e) = tt
    answered-Emits ctx (ok res) =
        let handled = self.http_handler.handle_response ctx res in
        Emits-bind SendsStripped handled _ (weaken handled.0 (quiet.responses ctx res)) (λ res' _.
          Emits-bind SendsStripped (finish_response E res') _ (finish_response-Emits res')
            (λ out _. tt))

    forward-Emits :
        (ctx : HttpContext E D) (x : RequestOrResponse E)
        → Emits SendsStripped (forward E self ctx x)
    unfolding forward
    forward-Emits ctx (response res) = tt
    forward-Emits ctx (request req) = (
      (req, strip_request-Stripped E laws req),
      answered-Emits ctx (self.client (strip_request E req)),
    )

    handle-Emits :
        (scheme : E.Scheme) (req : Request E) → Emits SendsStripped (handle E self scheme req)
    unfolding handle
    handle-Emits scheme req =
        let ctx = new_context E D self.http_handler.default_data in
        Emits-bind SendsStripped (absolute_uri E scheme req) _ (absolute_uri-Emits scheme req)
          (λ req' _.
            let handled = self.http_handler.handle_request ctx req' in
            Emits-bind SendsStripped handled _ (weaken handled.0 (quiet.requests ctx req'))
              (λ (ctx', x) _. forward-Emits ctx' x))

    -- With a handler that only logs, whatever the proxy sends while it processes a request is some
    -- request without its `Host`, `Accept-Encoding` and `Content-Length` and otherwise unchanged, and
    -- processing a request starts no task.
    pub process_request-SendsStripped :
        (scheme : E.Scheme) (req : Request E)
        → Emits SendsStripped (process_request E self scheme req)
    unfolding process_request
    process_request-SendsStripped scheme req =
        elim (Bool-cases (starts_with (E.uri_path req.uri) (codes "/mitm/cert"))) [
          | inl cert ↦
              rw (cert, process_request)
                (Emits-bind SendsStripped (get_cert_res E self.cert) _
                  (get_cert_res-Emits self.cert) (λ res _. tt))
          | inr other ↦ rw (other, process_request) (handle-Emits scheme req)
        ]

module _ (E : Env) {D : Type 0} (self : MitmProxy E D) where
  -- If a request does not ask for the certificate, its URI can be completed, and the handler
  -- answers it itself, that is the answer of the proxy as it is, and nothing is sent: the log
  -- is that of the handler.
  pub process_request-answered :
      (scheme : E.Scheme) (req req' : Request E) (ctx : HttpContext E D) (log : List (Event E))
      (res : Response E)
      → starts_with (E.uri_path req.uri) (codes "/mitm/cert") ≡ false
      → absolute_uri E scheme req ≡ pure req'
      → self.http_handler.handle_request (new_context E D self.http_handler.default_data) req'
        ≡ (log, done (ctx, response res))
      → process_request E self scheme req ≡ (log, done (ok res))
  unfolding process_request
  process_request-answered scheme req req' ctx log res path absolute handled =
      simp (path, process_request, handle, absolute, handled, forward, append-nil)

  -- If a request does not ask for the certificate, its URI can be completed, the handler lets
  -- it pass, the server answers and nothing panics on the way back, then the server gets what
  -- the handler let pass without `Host`, `Accept-Encoding` and `Content-Length`, once; the
  -- answer is the server's response as the handler changes it in the context that it left,
  -- finished; the events are those of the handler, the sending and again those of the handler,
  -- in this order.
  pub process_request-exchange :
      (scheme : E.Scheme) (req req' passed : Request E) (ctx : HttpContext E D)
      (log log' : List (Event E)) (res res' out : Response E)
      → starts_with (E.uri_path req.uri) (codes "/mitm/cert") ≡ false
      → absolute_uri E scheme req ≡ pure req'
      → self.http_handler.handle_request (new_context E D self.http_handler.default_data) req'
        ≡ (log, done (ctx, request passed))
      → self.client (strip_request E passed) ≡ ok res
      → self.http_handler.handle_response ctx res ≡ (log', done res')
      → finish_response E res' ≡ pure out
      → process_request E self scheme req
        ≡ (log ++ (sent (strip_request E passed) ∷ log'), done (ok out))
  unfolding process_request
  process_request-exchange scheme req req' passed ctx log log' res res' out path absolute handled
        got changed finished =
      simp (
        path, process_request, handle, absolute, handled, forward, got, answered, changed, finished,
        append-nil,
      )
