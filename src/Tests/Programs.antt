-- ===== src/Tests/Programs.antt =====
-- The theorems on the proxy with its rules.
use good_mitm.Prelude.{◌≡◌, ◌↔◌, refl, [], ◌∷◌}
use mathlib.Core.List.{Memᴰ}
use good_mitm.Text.{codes, eq, contains, starts_with, ends_with, to_lowercase, to_decimal}
use good_mitm.Env.{ok}
use good_mitm.Io.{Request, info, sent, spawned_tls, spawned_tunnel, done}
use good_mitm.Filter.{domain_suffix, init, mitm_filtter_pattern, is_match_req}
use good_mitm.HttpHandler.{default_handler}
use good_mitm.MitmFilter.{new}
use good_mitm.Modify.{bad_gateway}
use good_mitm.Prelude.{none}
use good_mitm.Text.{replace}
use good_mitm.Filter.{url_regex, domain}
use good_mitm.Rule.{Rule, log_request, redirect, log_response, empty_response}
use good_mitm.Handler.{RuleHandlerCtx, match_rules, without_accept_encoding}
use good_mitm.Mitm.{
  MitmProxy, absolute_uri, strip_request, finish_response, process_request, proxy_req,
}
use good_mitm.Mitm.CalmRules.{rules-Returns}
use good_mitm.Rule.Calm.{IsRegex}
use good_mitm.Io.Ensures.{Returns}
use good_mitm.Mitm.Rewriting.{MessageLaws, Rewritten, rules-Rewritten}
use good_mitm.Modify.{is_text}
use good_mitm.Modify.Bodies.{replacing}
use good_mitm.Prelude.{List}
use good_mitm.Text.{from_utf8, utf8_run, utf8_step, utf8_first}
use good_mitm.Io.{Event, Response}
use good_mitm.Rule.{modify_response}
use good_mitm.Tests.Sample.{headers, bodies}
use good_mitm.Mitm.Connect.{proxy_req-Covers_iff, proxy_req-intercepts}
use good_mitm.Mitm.Hosts.{HasGoodHost, process_request-Returns_iff}
use good_mitm.MitmFilter.Covers.{Covers}
use good_mitm.Mitm.WithRules.{ruled, rules-reject, rules-pass}
use good_mitm.RuleFile.{into_vec}
use good_mitm.RuleFile.Loading.{patterns_of}
use good_mitm.Tests.Headers.{get_all, remove, set_first}
use good_mitm.Tests.Sample.{env, wild}
use good_mitm.Tests.Rules.{req, res, rejecting}
use good_mitm.Tests.Proxies.{in_file, elsewhere}

abbrev pub proxy : MitmProxy env RuleHandlerCtx
proxy = record {
  cert = codes "cert";
  client = λ r. ok res;
  http_handler = default_handler env RuleHandlerCtx (record { rules = [] });
  mitm_filter = new (patterns_of env (in_file ∷ []));
}

abbrev pub tunnel : Request env
tunnel = record req { method = codes "CONNECT" }

proxy_req-Covers_iff_example :
    (((proxy_req env proxy tunnel).0 ≡ spawned_tls tunnel ∷ [])
      ↔ Covers env (patterns_of env (in_file ∷ [])) tunnel)
    × (((proxy_req env proxy tunnel).0 ≡ spawned_tunnel tunnel ∷ [])
        ↔ ¬ Covers env (patterns_of env (in_file ∷ [])) tunnel)
unfolding eq
proxy_req-Covers_iff_example =
    proxy_req-Covers_iff env proxy (patterns_of env (in_file ∷ [])) tunnel refl refl

-- The sample request with a name that is none in its `Host`.
abbrev bad_host : Request env
bad_host = record req { headers = (codes "host", codes "bad host") ∷ [] }

-- A regular expression finds itself.
sample-IsRegex : IsRegex env (codes "zu1k")
sample-IsRegex = record {
  compiles = (codes "zu1k", refl);
  searches = λ r t e. (contains t r, refl);
  replaces = λ r t new e. (replace t r new, refl);
}

-- A rule with a filter that is one.
abbrev calm : Rule
calm = record {
  filters = url_regex (codes "zu1k") ∷ domain (codes "a") ∷ [];
  actions = log_request ∷ redirect (codes "https://$1") ∷ log_response ∷ [];
  url = none;
}

process_request-Returns_iff_example :
    Returns (process_request env (ruled env (calm ∷ []) proxy) (codes "http") bad_host)
    ↔ HasGoodHost env bad_host
unfolding starts_with
process_request-Returns_iff_example =
    process_request-Returns_iff env
      (record { whole = λ s a p. ((s, a, p), refl); no_authority = λ s p. refl }) (codes "http")
      bad_host proxy (calm ∷ []) (codes "/a") (record { value-visible = λ t h. (t, refl) })
      (((sample-IsRegex, (tt, tt)), (tt, (tt, (tt, tt)))), tt) refl refl refl

proxy_req-intercepts_example : (proxy_req env proxy tunnel).0 ≡ spawned_tls tunnel ∷ []
unfolding into_vec init mitm_filtter_pattern to_lowercase eq
proxy_req-intercepts_example =
    proxy_req-intercepts env proxy (in_file ∷ []) in_file (domain_suffix (codes "Zu1k.com"))
      (codes "*zu1k.com") tunnel wild refl (Memᴰ.head refl) (Memᴰ.head refl) refl refl
      (codes "www.", refl) refl

rules-reject_example : process_request env (ruled env (rejecting ∷ []) proxy) (codes "http") req ≡ (
  info (codes "[Reject] http://www.zu1k.com/a") ∷ [],
  done (ok (empty_response env bad_gateway)),
)
unfolding absolute_uri starts_with get_all match_rules is_match_req to_lowercase ends_with contains
    eq
rules-reject_example =
    rules-reject env (rejecting ∷ []) proxy (codes "http") req req rejecting (rejecting ∷ [])
      (log_response ∷ []) refl refl refl refl

rules-pass_example : process_request env (ruled env (elsewhere ∷ []) proxy) (codes "http") req ≡ (
  sent (strip_request env (without_accept_encoding env req)) ∷ [],
  done (
      ok (record res {
        headers =
            (codes "content-type", codes "text/html") ∷ (codes "content-length", codes "6") ∷ [];
      })),
)
unfolding absolute_uri starts_with get_all remove set_first finish_response is_match_req
    to_lowercase contains eq to_decimal
rules-pass_example =
    rules-pass env (elsewhere ∷ []) proxy (codes "http") req req res _ refl refl ((refl, tt), tt)
      refl refl

rules-Returns_example :
    Returns (proxy_req env (ruled env (calm ∷ []) proxy) req)
    × Returns (process_request env (ruled env (calm ∷ []) proxy) (codes "https") req)
unfolding absolute_uri starts_with get_all contains
rules-Returns_example =
    rules-Returns env (calm ∷ []) (((sample-IsRegex, (tt, tt)), (tt, (tt, (tt, tt)))), tt) proxy req
      (record { value-visible = λ t h. (t, refl) })
      (λ scheme. (record req { uri = (scheme, codes "www.zu1k.com", codes "/a") }, refl))

-- A rule that replaces `head` in responses.
abbrev rewriting : Rule
rewriting = record {
  filters = domain_suffix (codes "zu1k.com") ∷ [];
  actions = modify_response (replacing b'h' (codes "ead") (codes "tail") none) ∷ [];
  url = none;
}

messages : MessageLaws env
messages = record {
  headers = headers;
  bodies = bodies;
  values = record { value-visible = λ t h. (t, refl) };
}

rules-Rewritten_example :
    (log : List (Event env)) × (out : Response env) × (process_request env
        (ruled env (rewriting ∷ []) proxy)
        (codes "http")
        req
      ≡ (log, done (ok out)))
    × Rewritten env messages b'h' (codes "ead") (codes "tail") none (codes "a head") out
unfolding absolute_uri starts_with get_all match_rules is_match_req to_lowercase ends_with contains
    eq is_text from_utf8 utf8_run utf8_step utf8_first
rules-Rewritten_example =
    rules-Rewritten env messages b'h' (codes "ead") (codes "tail") none (rewriting ∷ []) proxy
      (codes "http") req req rewriting res (codes "a head") (codes "a head") (codes "5") [] refl
      refl refl refl refl refl refl refl refl
