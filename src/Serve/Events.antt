-- ===== src/Serve/Events.antt =====
-- What a running proxy does, over all its connections and tasks.
use good_mitm.Prelude.{
  ◌≡◌, ◌⊎◌, refl, sym, All, All-at, All-map, Bool, true, false, Bool-cases, Option, none, some,
  Option-cases, inl, inr, if◌then◌else◌,
}
use mathlib.Core.List.{Memᴰ}
use mathlib.Core.Path.{subst}
use good_mitm.Text.{Text, codes, starts_with}
use good_mitm.Env.{Env, Result, ok, err}
use good_mitm.Env.Laws.{HeadersLaws}
use good_mitm.Io.{
  Io, Event, Request, info, error, debug, sent, spawned_tls, spawned_tunnel, dialed, pure, unwrap,
  ◌>>◌,
}
use good_mitm.Io.Ensures.{Emits, Emits-bind, Emits-unwrap, unwrap-eq_done}
use good_mitm.MitmFilter.{filter}
use good_mitm.Mitm.{
  MitmProxy, Answer, proxy_req, process_request, process_connect, route, finish_proxy, host_addr,
  Protocol, tls, http, protocol_of,
}
use good_mitm.Mitm.Headers.{Stripped}
use good_mitm.Mitm.Forwarding.{IsQuiet, SendsStripped, process_request-SendsStripped}
use good_mitm.Mitm.Connect.{finish_proxy-quiet}
use good_mitm.Serve.{
  Network, ServeLaws, tls_ended, serve_tls, serve_stream, upgraded, connection_task, tunnel_task,
  started, succeeded,
}

module _ (E : Env) (laws : HeadersLaws E) (N : Network E) (serving : ServeLaws E N) where
  module _ {D : Type 0} (self : MitmProxy E D) (quiet : IsQuiet E D self.http_handler) where
    -- A line of the log; a stripped request, sent; a task for a request to open a tunnel, of the kind
    -- that the patterns choose; a connection to the address of such a request that is passed through.
    abbrev pub Proper : Event E → Type 0
    Proper (info line) = Unit
    Proper (error line) = Unit
    Proper (debug line) = Unit
    Proper (sent out) = (req : Request E) × Stripped E laws req out
    Proper (spawned_tls req) =
        (E.method_is_connect req.method ≡ true) × (filter E self.mitm_filter req ≡ true)
    Proper (spawned_tunnel req) =
        (E.method_is_connect req.method ≡ true) × (filter E self.mitm_filter req ≡ false)
    Proper (dialed addr) =
        (req : Request E) × (E.method_is_connect req.method ≡ true)
        × (filter E self.mitm_filter req ≡ false)
        × (host_addr E req.uri ≡ some addr)

    stripped-Proper : (e : Event E) → SendsStripped E laws e → Proper e
    stripped-Proper (info line) h = tt
    stripped-Proper (error line) h = tt
    stripped-Proper (debug line) h = tt
    stripped-Proper (sent out) h = h
    stripped-Proper (spawned_tls req) h = absurd h
    stripped-Proper (spawned_tunnel req) h = absurd h
    stripped-Proper (dialed a) h = absurd h

    process_request-Proper :
        (scheme : E.Scheme) (req : Request E) → Emits Proper (process_request E self scheme req)
    process_request-Proper scheme req =
        All-map (SendsStripped E laws) Proper stripped-Proper _
          (process_request-SendsStripped E laws self quiet scheme req)

    process_connect-Proper :
        (req : Request E)
        → E.method_is_connect req.method ≡ true
        → Emits Proper (process_connect E self req)
    unfolding process_connect
    process_connect-Proper req connect = (chosen (filter E self.mitm_filter req) refl, tt)
      where
        chosen :
            (b : Bool)
            → filter E self.mitm_filter req ≡ b
            → Proper (if b then spawned_tls req else spawned_tunnel req)
        chosen true hit = (connect, hit)
        chosen false miss = (connect, miss)

    finish_proxy-Proper : (r : Answer E) → Emits Proper (finish_proxy E r)
    unfolding finish_proxy
    finish_proxy-Proper (ok res) = subst (All Proper) (sym (finish_proxy-quiet E res)) tt
    finish_proxy-Proper (err e) = (tt, tt)

    proxy_req-Proper : (req : Request E) → Emits Proper (proxy_req E self req)
    unfolding proxy_req
    proxy_req-Proper req =
        Emits-bind Proper (route E self req) (finish_proxy E)
          (routed (Bool-cases (E.method_is_connect req.method))) (λ r _. finish_proxy-Proper r)
      where
        routed :
            (E.method_is_connect req.method ≡ true) ⊎ (E.method_is_connect req.method ≡ false)
            → Emits Proper (route E self req)
        routed (inl connect) = rw (connect, route) (process_connect-Proper req connect)
        routed (inr other) = rw (other, route) (process_request-Proper E.scheme_http req)

    tls_ended-Proper : (o : Option Text) → Emits Proper (tls_ended E N o)
    unfolding tls_ended
    tls_ended-Proper none = tt
    tls_ended-Proper (some e) =
        elim (Bool-cases (starts_with e (codes "error shutting down connection"))) [
          | inl shut ↦ rw shut tt
          | inr other ↦ rw other (tt, tt)
        ]

    serve_tls-Proper : (s : N.Stream) → Emits Proper (serve_tls E N self s)
    unfolding serve_tls
    serve_tls-Proper s = accepted (N.tls_accept s) refl
      where
        accepted :
            (r : Result N.Stream Text) → N.tls_accept s ≡ r → Emits Proper (serve_tls E N self s)
        accepted (err e) is = rw (is, serve_tls) (tt, tt)
        accepted (ok under) is =
            rw (is, serve_tls)
              (Emits-bind Proper (N.serve_connection (process_request E self E.scheme_https) under)
                (tls_ended E N)
                (serving.serve_connection-All Proper (process_request E self E.scheme_https) under
                  (process_request-Proper E.scheme_https))
                (λ o _. tls_ended-Proper o))

    serve_stream-Proper : (s : N.Stream) → Emits Proper (serve_stream E N self s)
    unfolding serve_stream
    serve_stream-Proper s =
        serving.serve_connection-All Proper (proxy_req E self) s proxy_req-Proper

    connection_task-Proper : (s : N.Stream) → Emits Proper (connection_task E N self s)
    unfolding connection_task
    connection_task-Proper s = elim (Option-cases (N.peek s)) [
      | inl lost ↦ rw (lost, connection_task) tt
      | inr (first, read) ↦ rw (read, connection_task) (by_protocol (protocol_of first))
    ]
      where
        by_protocol :
            (p : Protocol)
            → Emits Proper (elim p as (λ _. Io E (Unit {0})) [
              | tls ↦ serve_tls E N self s
              | http ↦ do serve_stream E N self s; pure tt
            ])
        by_protocol tls = serve_tls-Proper s
        by_protocol http =
            Emits-bind Proper (serve_stream E N self s) _ (serve_stream-Proper s) (λ x _. tt)

    upgraded-Proper :
        (a : E.Authority) (r : Result N.Stream Text) → Emits Proper (upgraded E N self a r)
    unfolding upgraded
    upgraded-Proper a (ok s) = serve_tls-Proper s
    upgraded-Proper a (err e) = (tt, tt)

    tunnel_task-Proper :
        (req : Request E)
        → E.method_is_connect req.method ≡ true
        → filter E self.mitm_filter req ≡ false
        → Emits Proper (tunnel_task E N req)
    unfolding tunnel_task
    tunnel_task-Proper req connect miss =
        let upgraded = succeeded E N (N.upgrade req) in
        Emits-bind Proper (unwrap (host_addr E req.uri)) _
          (Emits-unwrap Proper (host_addr E req.uri))
          (λ addr is.
            Emits-bind Proper (unwrap upgraded) _ (Emits-unwrap Proper upgraded)
              (λ s _. ((req, connect, miss, unwrap-eq_done E (host_addr E req.uri) is), tt)))

    started-Proper : (e : Event E) → Proper e → Emits Proper (started E N self e)
    unfolding started
    started-Proper (info line) h = tt
    started-Proper (error line) h = tt
    started-Proper (debug line) h = tt
    started-Proper (sent out) h = tt
    started-Proper (dialed a) h = tt
    started-Proper (spawned_tls req) h =
        Emits-bind Proper (unwrap (E.uri_authority req.uri)) _
          (Emits-unwrap Proper (E.uri_authority req.uri)) (λ a _. upgraded-Proper a (N.upgrade req))
    started-Proper (spawned_tunnel req) (connect, miss) =
        Emits-bind Proper (tunnel_task E N req) _ (tunnel_task-Proper req connect miss) (λ x _. tt)

    -- What happens while the proxy runs: what the tasks of its connections do, and what the tasks do
    -- that are started then.
    pub data Happens : Event E → Type 0 where
      on_connection :
          {e : Event E} (s : N.Stream) → Memᴰ e (connection_task E N self s).0 → Happens e
      in_task :
          {e : Event E} (cause : Event E)
          → Happens cause
          → Memᴰ e (started E N self cause).0
          → Happens e

    -- Whatever connections come, with a handler that only logs: every request that the proxy
    -- sends is without `Host`, `Accept-Encoding` and `Content-Length` and otherwise some request
    -- as it was; a task that serves TLS on the connection of a request is started only for a
    -- request to open a tunnel to a host that is one of the patterns; one that joins the
    -- connection to the server is started, and an address is dialled, only for such a request to
    -- a host that is none of them. It rests on the documented behaviour of headers, and on that
    -- hyper's server does nothing but what its service does.
    pub Happens-Proper : {e : Event E} → Happens e → Proper e
    Happens-Proper (on_connection s m) = All-at Proper _ (connection_task-Proper s) m
    Happens-Proper (in_task cause h m) = All-at Proper _ (started-Proper cause (Happens-Proper h)) m
