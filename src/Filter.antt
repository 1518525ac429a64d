-- ===== src/Filter.antt =====
-- crates/rule/src/filter.rs and crates/rule/src/cache.rs
pub mod Quiet
pub mod Matching
pub mod Pattern
use good_mitm.Prelude.{Bool, true, Option, none, some, List, [], ◌∷◌, ◌++◌, unwrap_or}
use good_mitm.Text.{Text, eq, starts_with, ends_with, contains, to_lowercase}
use good_mitm.Env.{Env}
use good_mitm.Io.{Io, Request, pure, unwrap, ◌>>=◌}

pub data Filter : Type 0 where
  all_requests : Filter
  domain : Text → Filter
  domain_keyword : Text → Filter
  domain_prefix : Text → Filter
  domain_suffix : Text → Filter
  url_regex : Text → Filter

unfoldable pub mitm_filtter_pattern : Filter → Option Text
mitm_filtter_pattern all_requests = some (b'*' ∷ [])
mitm_filtter_pattern (domain d) = some d
mitm_filtter_pattern (domain_keyword d) = some (b'*' ∷ (d ++ (b'*' ∷ [])))
mitm_filtter_pattern (domain_prefix d) = some (d ++ (b'*' ∷ []))
mitm_filtter_pattern (domain_suffix d) = some (b'*' ∷ d)
mitm_filtter_pattern (url_regex _) = none

module _ (E : Env) where
  unfoldable pub init : Filter → Filter
  init all_requests = all_requests
  init (domain d) = domain (to_lowercase E.unicode_lowercase d)
  init (domain_keyword d) = domain_keyword (to_lowercase E.unicode_lowercase d)
  init (domain_prefix d) = domain_prefix (to_lowercase E.unicode_lowercase d)
  init (domain_suffix d) = domain_suffix (to_lowercase E.unicode_lowercase d)
  init (url_regex re) = url_regex re

  -- A compiled expression is kept in a cache, which only saves the work of compiling it again.
  unfoldable pub get_regex : Text → Io E E.Regex
  get_regex re = unwrap (E.regex_new re)

  -- The host of a request in lower case, empty if it has none.
  abbrev pub lower_host : Request E → Text
  lower_host req = to_lowercase E.unicode_lowercase (unwrap_or [] (E.uri_host req.uri))

  unfoldable pub is_match_req : Filter → Request E → Io E Bool
  unfolding get_regex
  is_match_req all_requests req = pure true
  is_match_req (domain target) req = pure (eq (lower_host req) target)
  is_match_req (domain_keyword target) req = pure (contains (lower_host req) target)
  is_match_req (domain_prefix target) req = pure (starts_with (lower_host req) target)
  is_match_req (domain_suffix target) req = pure (ends_with (lower_host req) target)
  is_match_req (url_regex target) req = do
    re ← get_regex target
    unwrap (E.regex_is_match re (E.uri_to_string req.uri))
