-- ===== src/Proxy/Safe.antt =====
-- What a started proxy may do, by the patterns that it was given.
use good_mitm.Prelude.{
  ◌≡◌, refl, sym, ap, true, false, Option, none, some, Option-cases, inl, inr, List, [], map,
  filter_map,
}
use mathlib.Core.Path.{subst}
use mathlib.Core.List.{Memᴰ}
use mathlib.Core.List.Memᴰ
use good_mitm.Text.{Text}
use good_mitm.Env.{Env, ok, host, accept_encoding, content_length}
use good_mitm.Env.Laws.{HeadersLaws}
use good_mitm.Io.{Io, Request, Event, info, error, debug, sent, spawned_tls, spawned_tunnel, dialed}
use good_mitm.MitmFilter.{new, filter}
use good_mitm.MitmFilter.Covers.{Covers, filter_iff}
use good_mitm.Mitm.{MitmProxy, host_addr}
use good_mitm.Mitm.Headers.{no_host, no_accept_encoding, no_content_length}
use good_mitm.Mitm.Forwarding.{IsQuiet}
use good_mitm.CertificateAuthority.{Crypto, CacheLibrary, CertifiedKey}
use good_mitm.Client.{Connectors}
use good_mitm.Serve.{Network, ServeLaws, connection_task}
use good_mitm.Serve.Events.{Happens, on_connection, in_task, Proper, Happens-Proper}
use good_mitm.Proxy.{Sockets, Proxy, mitm_proxy, setup, start_proxy}
use good_mitm.Proxy.Serves.{Occurs, in_connection, in_started, setup-mitm_proxy, start_proxy-tasks}

module _ (E : Env) (patterns : List Text) where
  -- A request is sent without three headers. A task is started for a request to open a tunnel only:
  -- the task that serves TLS if a pattern matches the host, the task that joins the connection to the
  -- server if none does. An address is dialled that is the authority of a request of the second kind.
  abbrev pub SafeEvent : Event E → Type 0
  SafeEvent (info line) = Unit
  SafeEvent (error line) = Unit
  SafeEvent (debug line) = Unit
  SafeEvent (sent out) =
      (E.headers_get_all (E.standard host) out.headers ≡ [])
      × (E.headers_get_all (E.standard accept_encoding) out.headers ≡ [])
      × (E.headers_get_all (E.standard content_length) out.headers ≡ [])
  SafeEvent (spawned_tls req) = (E.method_is_connect req.method ≡ true) × Covers E patterns req
  SafeEvent (spawned_tunnel req) =
      (E.method_is_connect req.method ≡ true) × (¬ Covers E patterns req)
  SafeEvent (dialed addr) =
      (req : Request E) × (authority : E.Authority) × (E.method_is_connect req.method ≡ true)
      × (¬ Covers E patterns req)
      × (E.uri_authority req.uri ≡ some authority)
      × (addr ≡ E.authority_to_string authority)

  covered_of_filter : (req : Request E) → filter E (new patterns) req ≡ true → Covers E patterns req
  covered_of_filter req = (filter_iff E patterns req).0

  uncovered_of_filter :
      (req : Request E) → filter E (new patterns) req ≡ false → ¬ Covers E patterns req
  uncovered_of_filter req miss covered =
      let hit = (filter_iff E patterns req).1 covered in absurd cc

  addressed :
      (uri : E.Uri) (addr : Text)
      → host_addr E uri ≡ some addr
      → (authority : E.Authority) × (E.uri_authority uri ≡ some authority)
        × (addr ≡ E.authority_to_string authority)
  unfolding host_addr
  addressed uri addr is = elim (Option-cases (E.uri_authority uri)) [
    | inl nothing ↦ let ends : host_addr E uri ≡ none = rw (nothing, host_addr) refl in absurd cc
    | inr (a, found) ↦
        let ends : host_addr E uri ≡ some (E.authority_to_string a) = rw (found, host_addr) refl in
        (a, found, cc)
  ]

  module _ (laws : HeadersLaws E) (N : Network E) (serving : ServeLaws E N) {D : Type 0}
      (m : MitmProxy E D) (quiet : IsQuiet E D m.http_handler) where
    Proper-SafeEvent :
        m.mitm_filter ≡ new patterns
        → (e : Event E) → Proper E laws N serving m quiet e
        → SafeEvent e
    Proper-SafeEvent given (info line) h = tt
    Proper-SafeEvent given (error line) h = tt
    Proper-SafeEvent given (debug line) h = tt
    Proper-SafeEvent given (sent out) (req, stripped) = (
      stripped.gone host no_host,
      stripped.gone accept_encoding no_accept_encoding,
      stripped.gone content_length no_content_length,
    )
    Proper-SafeEvent given (spawned_tls req) (connect, hit) =
        (connect, covered_of_filter req (subst (λ f. filter E f req ≡ true) given hit))
    Proper-SafeEvent given (spawned_tunnel req) (connect, miss) =
        (connect, uncovered_of_filter req (subst (λ f. filter E f req ≡ false) given miss))
    Proper-SafeEvent given (dialed addr) (req, connect, miss, is) =
        let (authority, found, named) = addressed req.uri addr is in
        (
          req,
          authority,
          connect,
          uncovered_of_filter req (subst (λ f. filter E f req ≡ false) given miss),
          found,
          named,
        )

    -- What occurs in the tasks of connections is what happens while the proxy runs.
    Occurs-Happens :
        (streams : List N.Stream) (tasks : List (Io E (Unit {0}))) (e : Event E)
        → tasks ≡ map (connection_task E N m) streams
        → Occurs E N m tasks e
        → Happens E laws N serving m quiet e
    Occurs-Happens streams tasks e are (in_connection task listed emits) =
        let (s, _, same) =
          Memᴰ.of_map (connection_task E N m) streams (subst (Memᴰ task) are listed) in
        on_connection s (subst (λ t. Memᴰ e t.0) (sym same) emits)
    Occurs-Happens streams tasks e are (in_started cause before emits) =
        in_task cause (Occurs-Happens streams tasks cause are before) emits

module _ (E : Env) (R : Crypto) (K : CacheLibrary (CertifiedKey R)) (C : Connectors E) (S : Sockets)
    (N : Network E) {D : Type 0} where
  -- Once a proxy with a handler that only logs is started, on whatever connections it accepts, only
  -- events occur that are safe by its patterns.
  pub start_proxy-SafeEvent :
      (laws : HeadersLaws E) (serving : ServeLaws E N) (p : Proxy E R K C S D)
      → IsQuiet E D p.handler
      → (m : MitmProxy E D) (accepts : List (Option N.Stream)) (tasks : List (Io E (Unit {0})))
        (e : Event E)
      → setup E R K C S p ≡ ok m
      → start_proxy E R K C S N p accepts ≡ ok tasks
      → Occurs E N m tasks e
      → SafeEvent E p.mitm_filters e
  unfolding mitm_proxy
  start_proxy-SafeEvent laws serving p quiet m accepts tasks e made begun occurs =
      let (c, same) = setup-mitm_proxy E R K C S p m made in
      let quiet' = subst (λ x. IsQuiet E D x.http_handler) same quiet in
      let given : m.mitm_filter ≡ new p.mitm_filters = ap (λ x. x.mitm_filter) (sym same) in
      Proper-SafeEvent E p.mitm_filters laws N serving m quiet' given e (
        Happens-Proper E laws N serving m quiet' (
          Occurs-Happens E p.mitm_filters laws N serving m quiet' (filter_map (λ s. s) accepts)
            tasks e (start_proxy-tasks E R K C S N p m accepts tasks made begun) occurs))
