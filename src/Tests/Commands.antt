-- ===== src/Tests/Commands.antt =====
-- The theorems on the commands.
use good_mitm.Prelude.{◌≡◌, refl, true, false, none, some, List, [], ◌∷◌}
use mathlib.Core.Path.{subst}
use good_mitm.Text.{Text, codes, eq, to_lowercase, from_utf8, utf8_run, utf8_step, utf8_first}
use good_mitm.Env.{ok}
use mathlib.Core.List.{Memᴰ}
use good_mitm.Io.{Io, Request, done, spawned_tls}
use good_mitm.MitmFilter
use good_mitm.MitmFilter.{filter}
use good_mitm.MitmFilter.Covers.{Covers}
use good_mitm.Mitm.{MitmProxy, proxy_req, process_connect, protocol_of}
use good_mitm.Serve.{connection_task, serve_stream}
use good_mitm.Proxy.Serves.{in_connection}
use good_mitm.Tests.Programs.{tunnel}
use good_mitm.Filter.{init, mitm_filtter_pattern}
use good_mitm.Tests.Globs.{glob}
use good_mitm.Tests.Rules.{res}
use good_mitm.Io.Ensures.{Ensures}
use good_mitm.CertificateAuthority.{CertifiedKey}
use good_mitm.CertificateAuthority.Root.{RootLibrary, RootLaws}
use good_mitm.CommandLine.{
  Disk, Run, default_key, default_cert, create_dir, write, stored, gen_ca, load_private_key,
  load_ca_cert, load_authority, configured, Parsers, run,
}
use good_mitm.CommandLine.Configured.{IfStarted, IsConfigured, run-IsConfigured, run-IsSafe}
use good_mitm.CommandLine.Generated.{IsUsable, gen_ca-run}
use good_mitm.Tests.Sample.{env, headers}
use good_mitm.Tests.Certificates.{crypto, cache}
use good_mitm.Handler.{RuleHandlerCtx, rule_http_handler}
use good_mitm.Rule.{Rule}
use good_mitm.Proxy.{Proxy, mitm_proxy, setup, start_proxy}
use good_mitm.Client.{gen_client, exchange}
use good_mitm.CertificateAuthority.{get_cert, new, validate, cert_cache_ttl_seconds}
use good_mitm.RuleFile.{
  from_rule, add_rules, load_files, load_from_file, load_from_dir, file_paths,
  load_rules_amd_mitm_filters,
}
use good_mitm.Tests.Proxies.{files, in_file}
use good_mitm.Tests.Serving.{connectors, sockets, network, serving}

-- A library that makes one certificate.
abbrev root : RootLibrary crypto
root = record {
  from_root_params = λ p. ok (codes "root");
  serialize_pem = λ c. ok (codes "PEM");
  serialize_private_key_pem = λ c. codes "KEY";
  pkcs8_private_keys = λ bytes. some (bytes ∷ []);
  certs = λ bytes. some (bytes ∷ []);
}

root_laws : RootLaws crypto root
unfolding from_utf8 utf8_run utf8_step utf8_first
root_laws = record {
  key_of = λ c. codes "KEY";
  read-key = λ c. refl;
  text-pem =
      λ c pem e. let same : codes "PEM" ≡ pem = cc in subst (λ t. from_utf8 t ≡ some t) same refl;
  read-pem = λ c pem e. (pem, refl);
  loads = λ p c pem cert made printed read. (codes "KEY", cert, refl, refl);
}

abbrev empty_disk : Disk
empty_disk = record { files = λ p. none; folders = λ p. false; refuses = λ p. none }

-- A disk on which `genca` has run.
abbrev disk : Disk
disk = (gen_ca crypto root empty_disk).2

abbrev parsers : Parsers env connectors sockets files
parsers = record { rule_path = λ t. t; socket_addr = λ t. some t; upstream = λ t. some t }

abbrev opts : Run
opts = record {
  key = default_key;
  cert = default_cert;
  rule = codes "rules";
  bind = codes "127.0.0.1:34567";
  proxy = none;
}

-- The rules that are loaded.
abbrev rules : List Rule
rules = (from_rule env in_file).0 ∷ []

abbrev patterns : List Text
patterns = (from_rule env in_file).1

usable :
    IsUsable crypto root empty_disk env
      (cache (CertifiedKey crypto))
      root_laws
      connectors
      sockets
      files
      parsers
      opts
      rules
      patterns
unfolding load_rules_amd_mitm_filters load_from_dir load_files load_from_file file_paths from_rule
    add_rules
usable = record {
  own_key = refl;
  own_cert = refl;
  address = (opts.bind, refl);
  upstream = λ proxy e. (proxy, refl);
  loads = refl;
}

gen_ca-run_example :
    (p : Proxy env crypto (cache (CertifiedKey crypto)) connectors sockets RuleHandlerCtx) × ((run
        env crypto root
        (cache (CertifiedKey crypto))
        disk
        connectors
        sockets
        files
        parsers
        opts).1
      ≡ done (ok p))
    × (p.ca.private_key ≡ root_laws.key_of (codes "root"))
    × (get_cert crypto (cache (CertifiedKey crypto)) p.ca ≡ codes "PEM")
    × (p.mitm_filters ≡ patterns)
gen_ca-run_example =
    gen_ca-run crypto root empty_disk env (cache (CertifiedKey crypto)) root_laws connectors sockets
      files parsers (codes "root") (codes "PEM") opts rules patterns refl refl
      (record {
        no_folder = refl;
        no_file = refl;
        makes = refl;
        takes_cert = refl;
        takes_key = refl;
      })
      usable

run-IsConfigured_example :
    Ensures
      (IfStarted env crypto root
        (cache (CertifiedKey crypto))
        disk
        connectors
        sockets
        files
        parsers
        (IsConfigured env crypto root
          (cache (CertifiedKey crypto))
          disk
          connectors
          sockets
          files
          parsers
          opts))
      (run env crypto root (cache (CertifiedKey crypto)) disk connectors sockets files parsers opts)
run-IsConfigured_example =
    run-IsConfigured env crypto root (cache (CertifiedKey crypto)) disk connectors sockets files
      parsers opts

-- The proxy that is made.
abbrev proxy : Proxy env crypto (cache (CertifiedKey crypto)) connectors sockets RuleHandlerCtx
proxy = record {
  listen_addr = opts.bind;
  ca = record {
    private_key = codes "KEY";
    ca_cert = codes "PEM";
    ca_cert_string = codes "PEM";
    cache = (cert_cache_ttl_seconds, none);
  };
  upstream_proxy = none;
  mitm_filters = patterns;
  handler = rule_http_handler env rules;
}

proxy_made :
    (run env crypto root (cache (CertifiedKey crypto)) disk connectors sockets files parsers opts).1
    ≡ done (ok proxy)
unfolding run load_authority load_private_key load_ca_cert configured new validate from_utf8
    utf8_run utf8_step utf8_first gen_ca stored create_dir write load_rules_amd_mitm_filters
    load_from_dir load_files load_from_file file_paths from_rule add_rules eq
proxy_made = refl

-- What serves its connections.
abbrev served : MitmProxy env RuleHandlerCtx
served = record {
  cert = codes "PEM";
  client = λ req. ok res;
  http_handler = rule_http_handler env rules;
  mitm_filter = MitmFilter.new patterns;
}

served_set_up : setup env crypto (cache (CertifiedKey crypto)) connectors sockets proxy ≡ ok served
unfolding setup mitm_proxy gen_client exchange
served_set_up = refl

-- The task of the one connection that is accepted.
abbrev tasks : List (Io env (Unit {0}))
tasks = connection_task env network served [] ∷ []

run-IsSafe_example :
    (found : List Rule) × (known : List Text) × ((load_rules_amd_mitm_filters env files
        (codes "rules")).1
      ≡ done (ok (found, known)))
    × ((env.method_is_connect tunnel.method ≡ true) × Covers env known tunnel)
unfolding setup mitm_proxy gen_client exchange start_proxy connection_task serve_stream proxy_req
    process_connect protocol_of filter eq MitmFilter.new from_rule mitm_filtter_pattern init glob
    to_lowercase
run-IsSafe_example =
    run-IsSafe env crypto root (cache (CertifiedKey crypto)) disk connectors sockets files parsers
      network headers serving opts proxy served (some [] ∷ none ∷ []) tasks (spawned_tls tunnel)
      proxy_made served_set_up refl
      (in_connection (connection_task env network served []) (Memᴰ.head refl) (Memᴰ.head refl))

-- A request for the certificate.
abbrev asking : Request env
asking = record tunnel { uri = (codes "http", codes "www.zu1k.com", codes "/mitm/cert") }
