-- ===== src/Proxy.antt =====
-- `Proxy` and `start_proxy`, of crates/core/src/lib.rs
pub mod Serves
pub mod Safe
use good_mitm.Prelude.{Option, none, some, List, [], ◌∷◌}
use good_mitm.Text.{Text}
use good_mitm.Env.{Env, Result, ok, err}
use good_mitm.Io.{Io}
use good_mitm.HttpHandler.{HttpHandler}
use good_mitm.MitmFilter.{new}
use good_mitm.Mitm.{MitmProxy}
use good_mitm.CertificateAuthority.{
  Crypto, CacheLibrary, CertifiedKey, CertificateAuthority, get_cert,
}
use good_mitm.Client.{Connectors, HttpClient, Error, io, gen_client, exchange}
use good_mitm.Serve.{Network, connection_task}

-- `TcpListener::bind`; an error is given by its text.
pub record Sockets : Type 1 where
  pub SocketAddr : Type 0
  pub bind : SocketAddr → Option Text

module _ (E : Env) (R : Crypto) (K : CacheLibrary (CertifiedKey R)) (C : Connectors E)
    (S : Sockets) where
  -- The signal to shut down is left out: nothing reads it.
  pub record Proxy (D : Type 0) : Type 0 where
    pub listen_addr : S.SocketAddr
    pub ca : CertificateAuthority R K
    pub upstream_proxy : Option C.UpstreamProxy
    pub mitm_filters : List Text
    pub handler : HttpHandler E D

  module _ {D : Type 0} where
    -- What serves a connection; all connections share its parts.
    unfoldable pub mitm_proxy : Proxy D → HttpClient E C → MitmProxy E D
    mitm_proxy self client = record {
      cert = get_cert R K self.ca;
      client = exchange E C client;
      http_handler = self.handler;
      mitm_filter = new self.mitm_filters;
    }

    bound : Proxy D → HttpClient E C → Option Text → Result (MitmProxy E D) Error
    unfolding mitm_proxy
    bound self client (some e) = err (io e)
    bound self client none = ok (mitm_proxy self client)

    with_client : Proxy D → Result (HttpClient E C) Error → Result (MitmProxy E D) Error
    unfolding bound
    with_client self (err e) = err e
    with_client self (ok client) = bound self client (S.bind self.listen_addr)

    -- `start_proxy` up to its loop.
    unfoldable pub setup : Proxy D → Result (MitmProxy E D) Error
    unfolding with_client
    setup self = with_client self (gen_client E C self.upstream_proxy)

    module _ (N : Network E) where
      -- The tasks that the loop has started after the given results of `accept`.
      accept_loop : MitmProxy E D → List (Option N.Stream) → List (Io E (Unit {0}))
      accept_loop self [] = []
      accept_loop self (none ∷ more) = accept_loop self more
      accept_loop self (some stream ∷ more) =
          connection_task E N self stream ∷ accept_loop self more

      abbrev started_tasks :
          List (Option N.Stream)
          → Result (MitmProxy E D) Error
          → Result (List (Io E (Unit {0}))) Error
      started_tasks accepts (err e) = err e
      started_tasks accepts (ok self) = ok (accept_loop self accepts)

      -- `start_proxy`: an error, or what it has started so far. It does not return otherwise.
      unfoldable pub start_proxy :
          Proxy D → List (Option N.Stream) → Result (List (Io E (Unit {0}))) Error
      unfolding accept_loop setup
      start_proxy self accepts = started_tasks accepts (setup self)
