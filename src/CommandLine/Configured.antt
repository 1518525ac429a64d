-- ===== src/CommandLine/Configured.antt =====
-- What the command `run` starts.
use good_mitm.Prelude.{◌≡◌, refl, sym, All, Option, none, some, List}
use mathlib.Core.Path.{subst}
use good_mitm.Text.{Text}
use good_mitm.Env.{Env, Result, ok, err}
use good_mitm.Env.Laws.{HeadersLaws}
use good_mitm.Io.{Io, Event, unwrap, done}
use good_mitm.Io.Ensures.{Ensures, Ensures-bind, Ensures-at, unwrap-eq_done}
use good_mitm.Handler.{RuleHandlerCtx, rule_http_handler}
use good_mitm.CertificateAuthority.{Crypto, CacheLibrary, CertifiedKey, CertificateAuthority}
use good_mitm.CertificateAuthority.Root.{RootLibrary}
use good_mitm.Client.{Connectors}
use good_mitm.Mitm.Forwarding.{IsQuiet}
use good_mitm.Mitm.WithRules.{rule_http_handler-IsQuiet}
use good_mitm.Serve.{Network, ServeLaws}
use good_mitm.Mitm.{MitmProxy}
use good_mitm.Proxy.{Sockets, Proxy, setup, start_proxy}
use good_mitm.Proxy.Serves.{Occurs}
use good_mitm.Proxy.Safe.{SafeEvent, start_proxy-SafeEvent}
use good_mitm.Rule.{Rule}
use good_mitm.RuleFile.{Files, Loaded, load_rules_amd_mitm_filters}
use good_mitm.RuleFile.Fresh.{IsFresh, IfOk, load_rules-IsFresh}
use good_mitm.CommandLine.{
  Disk, Run, load_authority, Parsers, Started, upstream_proxy, configured, run,
}
use good_mitm.CommandLine.Authority.{AuthorityOf, load_authority-AuthorityOf}

module _ (E : Env) (R : Crypto) (L : RootLibrary R) (K : CacheLibrary (CertifiedKey R))
    (disk : Disk) (C : Connectors E) (S : Sockets) (F : Files) (P : Parsers E C S F) where
  -- `P` holds of the proxy, if the command starts one.
  abbrev pub IfStarted {ℓ} : (Proxy E R K C S RuleHandlerCtx → Type ℓ) → Started E R K C S → Type ℓ
  IfStarted Q (err e) = Unit
  IfStarted Q (ok p) = Q p

  abbrev pub IsParsed : Option Text → Option C.UpstreamProxy → Type 0
  IsParsed none given = given ≡ none
  IsParsed (some t) given = (u : C.UpstreamProxy) × (P.upstream t ≡ some u) × (given ≡ some u)

  -- The proxy has what the options name: the authority of the two files, the rules and the patterns
  -- of the path, the address and the proxy behind it; and its rules are fresh.
  pub record IsConfigured (opts : Run) (p : Proxy E R K C S RuleHandlerCtx) : Type 0 where
    pub rules : List Rule
    pub loaded :
        (load_rules_amd_mitm_filters E F (P.rule_path opts.rule)).1
        ≡ done (ok (rules, p.mitm_filters))
    pub fresh : All (IsFresh E) rules
    pub runs : p.handler ≡ rule_http_handler E rules
    pub authority : AuthorityOf E R L K disk opts.key opts.cert p.ca
    pub address : P.socket_addr opts.bind ≡ some p.listen_addr
    pub upstream : IsParsed opts.proxy p.upstream_proxy

  upstream_proxy-IsParsed :
      (o : Option Text) → Ensures (IsParsed o) (upstream_proxy E R L K disk C S F P o)
  unfolding upstream_proxy
  upstream_proxy-IsParsed none = refl
  upstream_proxy-IsParsed (some t) =
      Ensures-bind (IsParsed (some t)) (unwrap (P.upstream t)) _
        (λ u is. (u, unwrap-eq_done E (P.upstream t) is, refl))

  configured-IsConfigured :
      (opts : Run) (ca : CertificateAuthority R K) (loaded : Result Loaded Text)
      → AuthorityOf E R L K disk opts.key opts.cert ca
      → (load_rules_amd_mitm_filters E F (P.rule_path opts.rule)).1 ≡ done loaded
      → Ensures (IfStarted (IsConfigured opts)) (configured E R L K disk C S F P opts ca loaded)
  unfolding configured
  configured-IsConfigured opts ca (err e) authority read = tt
  configured-IsConfigured opts ca (ok (rules, patterns)) authority read =
      Ensures-bind _ (unwrap (P.socket_addr opts.bind)) _ (λ addr bound.
        Ensures-bind _ (upstream_proxy E R L K disk C S F P opts.proxy) _ (λ up parsed. record {
          rules = rules;
          loaded = read;
          fresh =
              Ensures-at (IfOk E) (load_rules_amd_mitm_filters E F (P.rule_path opts.rule)) read
                (load_rules-IsFresh E F (P.rule_path opts.rule));
          runs = refl;
          authority = authority;
          address = unwrap-eq_done E (P.socket_addr opts.bind) bound;
          upstream =
              Ensures-at (IsParsed opts.proxy) (upstream_proxy E R L K disk C S F P opts.proxy)
                parsed (upstream_proxy-IsParsed opts.proxy);
        }))

  -- If `run` does not panic and starts a proxy, that has the authority made of the first key and the
  -- first certificate of the files, the rules and the patterns loaded from the path, each rule
  -- without a URL and with initialised filters, the parsed address, and the parsed proxy behind it
  -- exactly if one is given.
  pub run-IsConfigured :
      (opts : Run) → Ensures (IfStarted (IsConfigured opts)) (run E R L K disk C S F P opts)
  unfolding run
  run-IsConfigured opts =
      Ensures-bind _ (load_authority E R L K disk opts.key opts.cert) _ (λ ca made.
        Ensures-bind _ (load_rules_amd_mitm_filters E F (P.rule_path opts.rule)) _ (λ loaded read.
          configured-IsConfigured opts ca loaded
            (Ensures-at _ (load_authority E R L K disk opts.key opts.cert) made
              (load_authority-AuthorityOf E R L K disk opts.key opts.cert))
            read))

  module _ (N : Network E) where
    -- If `run` makes a proxy and `start_proxy` starts it, on whatever connections come, then rules and
    -- patterns were loaded from the path of the options, and in the tasks of the connections and in
    -- all that these start: a request is sent only without `Host`, `Accept-Encoding` and
    -- `Content-Length`; the task that serves TLS on the connection of a request is started only for
    -- a request to open a tunnel to a host that one of the loaded patterns matches; the task that
    -- joins the connection to the server is started only for one to a host that none of them matches;
    -- and an address is dialled only if it is the authority of such a request. It rests on the
    -- documented behaviour of headers, and on that hyper's server does nothing but what its service
    -- does.
    pub run-IsSafe :
        (laws : HeadersLaws E) (serving : ServeLaws E N) (opts : Run)
        (p : Proxy E R K C S RuleHandlerCtx) (m : MitmProxy E RuleHandlerCtx)
        (accepts : List (Option N.Stream)) (tasks : List (Io E (Unit {0}))) (e : Event E)
        → (run E R L K disk C S F P opts).1 ≡ done (ok p)
        → setup E R K C S p ≡ ok m
        → start_proxy E R K C S N p accepts ≡ ok tasks
        → Occurs E N m tasks e
        → (rules : List Rule) × (patterns : List Text) × ((load_rules_amd_mitm_filters E F
              (P.rule_path opts.rule)).1
            ≡ done (ok (rules, patterns)))
          × SafeEvent E patterns e
    run-IsSafe laws serving opts p m accepts tasks e ran made begun occurs =
        let is =
          Ensures-at (IfStarted (IsConfigured opts)) (run E R L K disk C S F P opts) ran
            (run-IsConfigured opts) in
        let quiet =
          subst (IsQuiet E RuleHandlerCtx) (sym is.runs) (rule_http_handler-IsQuiet E is.rules) in
        (
          is.rules,
          p.mitm_filters,
          is.loaded,
          start_proxy-SafeEvent E R K C S N laws serving p quiet m accepts tasks e made begun
              occurs,
        )
