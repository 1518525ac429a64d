-- ===== src/Client.antt =====
-- crates/core/src/http_client.rs with the features that are on by default, and `Error` of
-- crates/core/src/error.rs
use good_mitm.Prelude.{Bool, true, false, Option, none, some}
use good_mitm.Text.{Text}
use good_mitm.Env.{Env, Result, ok, err}
use good_mitm.Io.{Request}
use good_mitm.Mitm.{Answer}

-- An error of a library is given by its text.
pub data Error : Type 0 where
  tls hyper_error tls_connector_error io : Text → Error
  decode unknown : Error

-- What the program sets of `TlsConnector::builder()`.
pub record TlsSettings : Type 0 where
  pub danger_accept_invalid_certs : Bool
  pub danger_accept_invalid_hostnames : Bool
  pub disable_built_in_roots : Bool

-- `HttpsConnector`: its `HttpConnector`, of which the program sets one thing, and its TLS.
pub record HttpsConnector (T : Type 0) : Type 0 where
  pub enforce_http : Bool
  pub connector : T

-- `Client`, by what the program sets of its builder.
pub record Client (K : Type 0) : Type 0 where
  pub http1_title_case_headers : Bool
  pub http1_preserve_header_case : Bool
  pub connector : K

-- `native_tls`, `hyper_proxy` and hyper's client.
pub record Connectors (E : Env) : Type 1 where
  pub TlsConnector : Type 0
  pub UpstreamProxy : Type 0
  pub ProxyConnector : Type 0
  pub build_tls : TlsSettings → Result TlsConnector Text
  pub from_proxy : HttpsConnector TlsConnector → UpstreamProxy → Result ProxyConnector Text
  pub request_proxy : Client ProxyConnector → Request E → Answer E
  pub request_https : Client (HttpsConnector TlsConnector) → Request E → Answer E

module _ (E : Env) (C : Connectors E) where
  pub data HttpClient : Type 0 where
    proxy : Client C.ProxyConnector → HttpClient
    https : Client (HttpsConnector C.TlsConnector) → HttpClient

  abbrev client_of : {K : Type 0} → K → Client K
  client_of k = record {
    http1_title_case_headers = true;
    http1_preserve_header_case = true;
    connector = k;
  }

  abbrev proxy_client : Result C.ProxyConnector Text → Result HttpClient Error
  proxy_client (err e) = err (io e)
  proxy_client (ok connector) = ok (proxy (client_of connector))

  -- The client, once TLS is set up.
  client_over : Option C.UpstreamProxy → Result C.TlsConnector Text → Result HttpClient Error
  client_over upstream (err e) = err (tls_connector_error e)
  client_over none (ok made) =
      ok (https (client_of (record { enforce_http = false; connector = made })))
  client_over (some upstream) (ok made) =
      proxy_client (C.from_proxy (record { enforce_http = false; connector = made }) upstream)

  unfoldable pub gen_client : Option C.UpstreamProxy → Result HttpClient Error
  unfolding client_over
  gen_client upstream_proxy = client_over upstream_proxy (
      C.build_tls (record {
        danger_accept_invalid_certs = true;
        danger_accept_invalid_hostnames = true;
        disable_built_in_roots = true;
      }))

  -- One exchange with the server, in `process_request`.
  unfoldable pub exchange : HttpClient → Request E → Answer E
  exchange (proxy client) req = C.request_proxy client req
  exchange (https client) req = C.request_https client req
