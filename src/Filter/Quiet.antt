-- ===== src/Filter/Quiet.antt =====
-- Filters send nothing and start nothing.
use good_mitm.Text.{Text}
use good_mitm.Env.{Env}
use good_mitm.Io.{Request}
use good_mitm.Io.Local.{OnlyLogs, OnlyLogs-bind, OnlyLogs-unwrap}
use good_mitm.Filter.{
  Filter, all_requests, domain, domain_keyword, domain_prefix, domain_suffix, url_regex, get_regex,
  is_match_req,
}

module _ (E : Env) where
  pub get_regex-OnlyLogs : (re : Text) → OnlyLogs (get_regex E re)
  unfolding get_regex
  get_regex-OnlyLogs re = OnlyLogs-unwrap E (E.regex_new re)

  pub is_match_req-OnlyLogs : (f : Filter) (req : Request E) → OnlyLogs (is_match_req E f req)
  unfolding is_match_req
  is_match_req-OnlyLogs all_requests req = tt
  is_match_req-OnlyLogs (domain d) req = tt
  is_match_req-OnlyLogs (domain_keyword d) req = tt
  is_match_req-OnlyLogs (domain_prefix d) req = tt
  is_match_req-OnlyLogs (domain_suffix d) req = tt
  is_match_req-OnlyLogs (url_regex re) req =
      OnlyLogs-bind (get_regex E re) _ (get_regex-OnlyLogs re)
        (λ r. OnlyLogs-unwrap E (E.regex_is_match r (E.uri_to_string req.uri)))
