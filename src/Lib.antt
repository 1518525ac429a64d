-- ===== src/Lib.antt =====
-- Good-MITM, a proxy that rewrites HTTP traffic by rules.
--
-- The program. A client connects to the proxy (crates/core), which reads a request, and asks a
-- handler (crates/rule) what to do with it. The handler finds the rules whose filters match, and runs
-- their actions: reject, redirect, change, log, run a script. A request that goes on is sent to the
-- server, and its response passes the same rules on its way back. A request to open a tunnel is
-- intercepted if the host is one of the patterns that the rules gave, and passed through otherwise.
-- The rules and the patterns are read from YAML files (src/file). The command `genca` makes a
-- certificate that signs those of the hosts that are intercepted; the command `run` reads it, reads
-- the rules, and starts the proxy (src/main.rs, src/ca.rs).
--
-- The files.
--   Prelude      names of the library, Booleans and lists over the native numbers
--   Text         `str` and `String`, as their bytes in UTF-8: `contains`, `replace`, `split`, and so
--                on; Text/Laws, Text/Replace, Text/Split and Text/Decimal say what these compute
--   Env          the libraries that the program calls, as a record of parameters: `http`, `hyper`,
--                `fancy_regex`, `wildmatch`, `cookie`, `quick_js`; Env/Laws has the documented
--                behaviour that theorems rely on, as records of hypotheses
--   Io           the effects: the lines that are logged, the requests that are sent, the tasks that
--                are started, the addresses that are dialled, in order, and the value at the end or a
--                panic; Io/Ensures and Io/Halting have rules for what holds of an action
--   Filter       crates/rule/src/filter.rs
--   RegexCache   crates/rule/src/cache.rs, with the cache that the macro `cached` makes
--   TextModify, HeaderModify, CookieModify, Modify
--                crates/rule/src/action/modify.rs: `exec_action`, `modify_header`, the two `Cookie`
--                branches, and `modify_req` and `modify_res`
--   Js           crates/rule/src/action/js.rs
--   LogLines     crates/rule/src/action/log.rs
--   Rule         crates/rule/src/lib.rs and action/mod.rs: `do_req` and `do_res`
--   HttpHandler  the interface between the two: the trait `HttpHandler` of crates/core/src/handler.rs
--                as a record, with `HttpContext` and `RequestOrResponse` of crates/core/src/mitm.rs
--   Handler      crates/rule/src/handler.rs, which fills that record in `rule_http_handler`
--   MitmFilter   `MitmFilter` of crates/core/src/handler.rs
--   Mitm         crates/core/src/mitm.rs: what is done with a request, and the choice of the protocol in
--                crates/core/src/lib.rs
--   Serve        crates/core/src/mitm.rs: how a connection is served, and the tasks that are started;
--                `tokio` and hyper's server are the parameter Network of this file
--   Client       crates/core/src/http_client.rs and error.rs
--   Proxy        crates/core/src/lib.rs: `Proxy` and `start_proxy`
--   CommandLine  src/main.rs and src/ca.rs: `run` and `genca`
--   CertificateAuthority
--                crates/core/src/ca.rs: the certificates for servers, and their cache; `rcgen`,
--                `rustls` and `moka` are the parameters Crypto and CacheLibrary of this file, and
--                RootLibrary of CertificateAuthority/Root, which has `gen_ca`
--   TrustCert    crates/trust_cert/src/linux.rs, and windows.rs in TrustCert/Windows; the system is a
--                record of what it answers
--   RuleFile     src/file: `frule.rs`, `mod.rs`, `single_multi.rs`
--   Tests        a small implementation of the libraries that meets the laws, and runs of the theorems
-- A file in the folder of one of these has lemmas on it, and is named for what they are about.
--
-- How the code is written here.
--   - An `async fn` is a function into `Io`; `?`, `unwrap` and `expect` are `unwrap` or a branch.
--   - What is taken by `&mut` is an argument and a part of the result. So `do_req`, which sets the URL
--     of its rule, returns the rule too, and the handler keeps the one it had cloned before.
--   - A `for` with a `return` inside is a recursion on the list, with the kinds of step as a data type.
--   - A `HeaderMap` and a `CookieJar` are abstract, known by their operations. The key of a header is
--     parsed to a name as the library does it; a key that is no name finds nothing.
--   - The objects of scripts and the headers are gone through in an order that the library fixes.
--   - What may happen in the tasks of a running proxy, in any interleaving, is the relation Happens of
--     Serve/Events: an event of the task of some connection, or of a task that such an event starts.
--   - What reads the clock is given the times, in the order of the readings.
--   - The client of a MitmProxy is a fixed function of the request, which is enough for one exchange:
--     that a server answers the same request otherwise later is not modelled.
--   - The calls of `get_certified_key` are taken one after the other. In the source the tasks of
--     several connections share the authority, and two of them may make a certificate for the same
--     name at the same time; the later one then replaces the other in the cache.
--   - Theorems on headers, cookies, globs and bodies take the laws that they need from Env/Laws, and
--     those on certificates, on the cache of expressions, on the files of `genca` and on connections
--     from CacheLaws, RegexCacheLaws, RootLaws and ServeLaws; the Tests show that the laws can hold.
--   - Everything is structural recursion. The one function on fuel is `to_decimal`, which writes a
--     number with at most as many digits as the number itself and one, the fuel that it is given;
--     that the text reads back as the number shows that it is enough.
--
-- Not modelled.
--   - What a script writes to its console, which crates/rule/src/action/js.rs passes on to the log.
--   - The libraries. The network, the caches, the cryptography and the reading of PEM are records of
--     parameters; `accept` is a list of its results so far.
--   - `gen_server_config` of crates/core/src/ca.rs, which hands the authority to rustls, and
--     crates/trust_cert/src/lib.rs, which calls the `install_cert` of the platform.
--   - Of crates/core/src/http_client.rs the branch for rustls, with `TrustAllCertVerifier`: the features
--     that are on by default do not compile it.
--   - The options' parser, the setting up of the log, and the wait for the interrupt in src/main.rs;
--     src/lib.rs and src/error.rs, which have no more than names, a future and an unused type.
pub mod Prelude
pub mod Text
pub mod Env
pub mod Io
pub mod Filter
pub mod RegexCache
pub mod TextModify
pub mod HeaderModify
pub mod CookieModify
pub mod Modify
pub mod Js
pub mod LogLines
pub mod HttpHandler
pub mod Rule
pub mod Handler
pub mod MitmFilter
pub mod CertificateAuthority
pub mod Mitm
pub mod Serve
pub mod Client
pub mod Proxy
pub mod CommandLine
pub mod RuleFile
pub mod TrustCert
mod Tests
