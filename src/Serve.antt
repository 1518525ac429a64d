-- ===== src/Serve.antt =====
-- How connections are served: `serve_tls`, `serve_stream`, `tunnel` and the tasks of
-- `process_connect` in crates/core/src/mitm.rs, and the task for a connection of `start_proxy` in
-- crates/core/src/lib.rs
pub mod Events
use good_mitm.Prelude.{
  ℕ, All, Bool, true, false, Option, none, some, List, [], ◌∷◌, ◌++◌, if◌then◌else◌,
}
use good_mitm.Text.{Text, codes, starts_with}
use good_mitm.Env.{Env, Result, ok, err}
use good_mitm.Io.{
  Io, Event, Request, spawned_tls, spawned_tunnel, dialed, error, debug, pure, tell, unwrap, ◌>>=◌,
  ◌>>◌,
}
use good_mitm.Mitm
use good_mitm.Mitm.{
  MitmProxy, Answer, Protocol, tls, http, protocol_of, process_request, proxy_req, host_addr,
}

-- `tokio`, `tokio_rustls` and hyper's server. An error is given by its text.
pub record Network (E : Env) : Type 1 where
  -- a connection, as it is accepted, under TLS, or taken over from HTTP
  pub Stream : Type 0
  -- what `peek` makes of a byte that is 0: the first byte, or 0 at the end; `none` is an error
  pub peek : Stream → Option ℕ
  -- `TlsAcceptor::accept`, which asks the certificate authority for a key
  pub tls_accept : Stream → Result Stream Text
  -- `hyper::upgrade::on`
  pub upgrade : Request E → Result Stream Text
  -- `TcpStream::connect`
  pub connect : Text → Option Stream
  -- `copy_bidirectional`; `none` is an error
  pub copy : Stream → Stream → Option (Unit {0})
  -- `Http::serve_connection`: what its calls of the service do, in order, and how it ends
  pub serve_connection : (Request E → Io E (Answer E)) → Stream → Io E (Option Text)

-- hyper does nothing on a connection but what its service does.
pub record ServeLaws (E : Env) (N : Network E) : Type 1 where
  pub serve_connection-All :
      (Q : Event E → Type 0) (service : Request E → Io E (Answer E)) (s : N.Stream)
      → ((req : Request E) → All Q (service req).0)
      → All Q (N.serve_connection service s).0

module _ (E : Env) (N : Network E) where
  -- How a connection under TLS has ended.
  tls_ended : Option Text → Io E (Unit {0})
  tls_ended none = pure tt
  tls_ended (some e) =
      if starts_with e (codes "error shutting down connection")
      then pure tt
      else tell (debug (codes "res:: " ++ e))

  module _ {D : Type 0} where
    unfoldable pub serve_tls : MitmProxy E D → N.Stream → Io E (Unit {0})
    unfolding tls_ended
    serve_tls self stream = elim (N.tls_accept stream) [
      | err e ↦ tell (error (codes "Tls accept failed: " ++ e))
      | ok under ↦ N.serve_connection (process_request E self E.scheme_https) under >>= tls_ended
    ]

    unfoldable pub serve_stream : MitmProxy E D → N.Stream → Io E (Option Text)
    serve_stream self stream = N.serve_connection (proxy_req E self) stream

    upgraded : MitmProxy E D → E.Authority → Result N.Stream Text → Io E (Unit {0})
    unfolding serve_tls
    upgraded self authority (ok stream) = serve_tls self stream
    upgraded self authority (err e) = tell (
        debug
          (codes "upgrade error for " ++ (E.authority_to_string authority ++ (codes ": " ++ e))))

    -- The task that `process_connect` starts for a host to intercept.
    unfoldable pub tls_task : MitmProxy E D → Request E → Io E (Unit {0})
    unfolding upgraded
    tls_task self req = do
      authority ← unwrap (E.uri_authority req.uri)
      upgraded self authority (N.upgrade req)

    -- The task for a connection that `start_proxy` has accepted.
    unfoldable pub connection_task : MitmProxy E D → N.Stream → Io E (Unit {0})
    unfolding protocol_of serve_tls serve_stream
    connection_task self stream = elim (N.peek stream) [
      | none ↦ pure tt
      | some first ↦ elim (protocol_of first) [
        | tls ↦ serve_tls self stream
        | http ↦ do serve_stream self stream; pure tt
      ]
    ]

  -- `none` is an error of input or output.
  unfoldable pub tunnel : N.Stream → Text → Io E (Option (Unit {0}))
  tunnel stream addr = do
    tell (dialed addr)
    pure (elim (N.connect addr) [ none ↦ none | some server ↦ N.copy stream server ])

  abbrev succeeded : Result N.Stream Text → Option N.Stream
  succeeded (ok s) = some s
  succeeded (err e) = none

  -- The task that `process_connect` starts for any other host.
  unfoldable pub tunnel_task : Request E → Io E (Option (Unit {0}))
  unfolding tunnel host_addr
  tunnel_task req = do
    remote_addr ← unwrap (host_addr E req.uri)
    stream ← unwrap (succeeded (N.upgrade req))
    tunnel stream remote_addr

  -- The task that goes with an event.
  unfoldable pub started : {D : Type 0} → MitmProxy E D → Event E → Io E (Unit {0})
  unfolding tls_task tunnel_task
  started self (spawned_tls req) = tls_task self req
  started self (spawned_tunnel req) = do tunnel_task req; pure tt
  started self _ = pure tt
