-- ===== src/Mitm.antt =====
-- crates/core/src/mitm.rs, and the choice of protocol in crates/core/src/lib.rs
pub mod Headers
pub mod Forwarding
pub mod Connect
pub mod WithRules
pub mod Lengths
pub mod Answering
pub mod CalmRules
pub mod Hosts
pub mod Rewriting
use good_mitm.Prelude.{
  ℕ, Bool, true, false, leb, ◌||◌, Option, none, some, List, [], ◌∷◌, ◌++◌, if◌then◌else◌,
}
use good_mitm.Text.{Text, codes, starts_with, to_decimal}
use good_mitm.Env.{
  Env, Result, ok, err, accept_encoding, content_length, content_disposition, content_type, host,
  strict_transport_security, access_control_allow_origin, access_control_allow_methods,
}
use good_mitm.Io.{
  Io, Request, Response, error, sent, spawned_tls, spawned_tunnel, pure, tell, unwrap, ◌>>=◌, ◌>>◌,
}
use good_mitm.HttpHandler.{
  HttpContext, new_context, HttpHandler, RequestOrResponse, request, response,
}
use good_mitm.MitmFilter
use good_mitm.MitmFilter.{MitmFilter}

pub record MitmProxy (E : Env) (D : Type 0) : Type 0 where
  -- what `ca.get_cert` returns
  pub cert : Text
  -- one exchange with the server behind the proxy
  pub client : Request E → Result (Response E) E.HyperError
  pub http_handler : HttpHandler E D
  pub mitm_filter : MitmFilter

abbrev pub Answer : Env → Type 0
Answer E = Result (Response E) E.HyperError

module _ (E : Env) where
  unfoldable pub host_addr : E.Uri → Option Text
  host_addr uri = elim (E.uri_authority uri) [
    | none ↦ none
    | some auth ↦ some (E.authority_to_string auth)
  ]

  unfoldable pub allow_all_cros : Response E → Io E (Response E)
  allow_all_cros res = do
    all ← unwrap (E.value_from_str (codes "*"))
    let h1 = E.headers_insert (E.standard access_control_allow_origin) all res.headers
    let h2 = E.headers_insert (E.standard access_control_allow_methods) all h1
    let h3 = E.headers_insert (E.standard access_control_allow_methods) all h2
    pure (record res { headers = h3 })

  unfoldable pub get_cert_res : Text → Io E (Response E)
  get_cert_res cert = do
    disposition ← unwrap (E.value_from_str (codes "attachment; filename=good-mitm.crt"))
    kind ← unwrap (E.value_from_str (codes "application/octet-stream"))
    let h = E.headers_append (E.standard content_disposition) disposition E.headers_empty
    pure (record {
      status = 200;
      version = E.version_default;
      headers = E.headers_append (E.standard content_type) kind h;
      body = E.body_from cert;
    })

  -- The text of the `Host` header, if it is there and is a text.
  abbrev pub host_text : Request E → Option Text
  host_text req = elim (E.headers_get (E.standard host) req.headers) [
    | none ↦ none
    | some value ↦ E.value_to_str value
  ]

  rebuild_uri : E.Scheme → Request E → Option Text → Io E (Request E)
  rebuild_uri scheme req none = pure req
  rebuild_uri scheme req (some authority) = do
    let parts = E.uri_into_parts req.uri
    uri ← unwrap (E.uri_from_parts (some scheme, E.authority_from_str authority, parts.2))
    pure (record req { uri = uri })

  -- HTTP/1 requests get the scheme, and the authority that their `Host` header names.
  unfoldable pub absolute_uri : E.Scheme → Request E → Io E (Request E)
  unfolding rebuild_uri
  absolute_uri scheme req =
      if E.version_is_http_10 req.version || E.version_is_http_11 req.version
      then rebuild_uri scheme req (host_text req)
      else pure req

  unfoldable pub strip_request : Request E → Request E
  strip_request req = record req {
    headers = E.headers_remove (E.standard content_length) (
        E.headers_remove (E.standard accept_encoding)
          (E.headers_remove (E.standard host) req.headers));
  }

  fix_length : ℕ → E.HeaderMap → Io E E.HeaderMap
  fix_length length headers = elim (E.headers_get (E.standard content_length) headers) [
    | none ↦ pure headers
    | some _ ↦ do
      value ← unwrap (E.value_from_str (to_decimal length))
      pure (E.headers_set_first (E.standard content_length) value headers)
  ]

  unfoldable pub finish_response : Response E → Io E (Response E)
  unfolding fix_length
  finish_response res = do
    headers ← fix_length (E.body_size_hint_lower res.body) res.headers
    pure (record res { headers = E.headers_remove (E.standard strict_transport_security) headers })

  unfoldable pub finish_proxy : Answer E → Io E (Answer E)
  finish_proxy (ok res) = do res' ← allow_all_cros res; pure (ok res')
  finish_proxy (err e) = do
    tell (error (codes "proxy request failed: " ++ E.hyper_error_debug e))
    pure (err e)

  module _ {D : Type 0} where
    answered : HttpHandler E D → HttpContext E D → Answer E → Io E (Answer E)
    answered handler ctx (err e) = pure (err e)
    answered handler ctx (ok res) = do
      res' ← handler.handle_response ctx res
      res'' ← finish_response res'
      pure (ok res'')

    forward : MitmProxy E D → HttpContext E D → RequestOrResponse E → Io E (Answer E)
    unfolding answered
    forward self ctx (response res) = pure (ok res)
    forward self ctx (request req) = do
      let out = strip_request req
      tell (sent out)
      answered self.http_handler ctx (self.client out)

    handle : MitmProxy E D → E.Scheme → Request E → Io E (Answer E)
    unfolding forward
    handle self scheme req = do
      req' ← absolute_uri scheme req
      handled ←
          self.http_handler.handle_request (new_context E D self.http_handler.default_data) req'
      forward self handled.0 handled.1

    unfoldable pub process_request : MitmProxy E D → E.Scheme → Request E → Io E (Answer E)
    unfolding handle
    process_request self scheme req =
        if starts_with (E.uri_path req.uri) (codes "/mitm/cert")
        then get_cert_res self.cert >>= (λ res. pure (ok res))
        else handle self scheme req

    -- The answer to `CONNECT`, and the task that serves the connection.
    unfoldable pub process_connect : MitmProxy E D → Request E → Io E (Answer E)
    process_connect self req = do
      tell
          (if MitmFilter.filter E self.mitm_filter req then spawned_tls req else spawned_tunnel req)
      pure (
          ok (record {
            status = 200;
            version = E.version_default;
            headers = E.headers_empty;
            body = E.body_empty;
          }))

    unfoldable pub route : MitmProxy E D → Request E → Io E (Answer E)
    unfolding process_connect process_request
    route self req =
        if E.method_is_connect req.method
        then process_connect self req
        else process_request self E.scheme_http req

    unfoldable pub proxy_req : MitmProxy E D → Request E → Io E (Answer E)
    unfolding finish_proxy route
    proxy_req self req = route self req >>= finish_proxy

-- How `start_proxy` serves a connection, by its first byte.
pub data Protocol : Type 0 where
  tls http : Protocol

unfoldable pub protocol_of : ℕ → Protocol
protocol_of first = if leb first 0x40 then tls else http
