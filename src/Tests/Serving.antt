-- ===== src/Tests/Serving.antt =====
-- The theorems on the connections and on the start of the proxy.
use good_mitm.Prelude.{refl, none, some, []}
use mathlib.Core.List.{Memᴰ}
use good_mitm.Text.{Text, codes, eq}
use good_mitm.Env.{ok, err}
use good_mitm.Io.{done, panic, spawned_tunnel, dialed}
use good_mitm.MitmFilter.{new, filter}
use good_mitm.Handler.{RuleHandlerCtx}
use good_mitm.Mitm.{MitmProxy, proxy_req, process_connect, protocol_of}
use good_mitm.Mitm.WithRules.{ruled, rule_http_handler-IsQuiet}
use good_mitm.Client.{Connectors}
use good_mitm.Serve.{Network, ServeLaws, connection_task, tunnel_task, serve_stream, started}
use good_mitm.Serve.Events.{Proper, Happens, on_connection, in_task, Happens-Proper}
use good_mitm.Proxy.{Sockets}
use good_mitm.Tests.Sample.{env, headers}
use good_mitm.Tests.Rules.{res}
use good_mitm.Tests.Programs.{tunnel, proxy}

-- A network on which every connection is one request to open a tunnel.
abbrev pub network : Network env
network = record {
  Stream = Text;
  peek = λ s. some b'C';
  tls_accept = λ s. err (codes "no TLS");
  upgrade = λ req. ok [];
  connect = λ addr. some addr;
  copy = λ s t. some tt;
  serve_connection = λ service s.
      ((service tunnel).0, elim (service tunnel).1 [ done r ↦ done none | panic ↦ panic ]);
}

pub serving : ServeLaws env network
serving = record { serve_connection-All = λ Q service s h. h tunnel }

abbrev passing : MitmProxy env RuleHandlerCtx
passing = record proxy { mitm_filter = new [] }

abbrev ruled_passing : MitmProxy env RuleHandlerCtx
ruled_passing = ruled env [] passing

opened :
    Happens env headers network serving ruled_passing
      (rule_http_handler-IsQuiet env [])
      (spawned_tunnel tunnel)
unfolding connection_task serve_stream proxy_req process_connect protocol_of filter new eq
opened = on_connection [] (Memᴰ.head refl)

Happens-Proper_example :
    Proper env headers network serving ruled_passing
      (rule_http_handler-IsQuiet env [])
      (dialed (codes "www.zu1k.com"))
unfolding tunnel_task started
Happens-Proper_example =
    Happens-Proper env headers network serving ruled_passing (rule_http_handler-IsQuiet env [])
      (in_task (spawned_tunnel tunnel) opened (Memᴰ.head refl))

-- Libraries that make every client and answer with the sample response.
abbrev pub connectors : Connectors env
connectors = record {
  TlsConnector = Unit;
  UpstreamProxy = Text;
  ProxyConnector = Text;
  build_tls = λ settings. ok tt;
  from_proxy = λ connector address. ok address;
  request_proxy = λ client req. ok res;
  request_https = λ client req. ok res;
}

abbrev pub sockets : Sockets
sockets = record { SocketAddr = Text; bind = λ addr. none }
