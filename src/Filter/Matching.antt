-- ===== src/Filter/Matching.antt =====
-- When a filter matches a request, as a predicate on the pieces of its host.
use good_mitm.Prelude.{Option, ap, ◌≡◌, refl, ◌↔◌, Bool, true, false, none, some}
use good_mitm.Text.Laws.{
  IsPrefix, IsSuffix, IsInfix, IsAscii, eq_iff, starts_with_iff, ends_with_iff, contains_iff,
  to_lowercase_idem,
}
use good_mitm.Env.{Env}
use good_mitm.Io.{Request, pure, unwrap, ◌>>=◌}
use good_mitm.Filter.{
  Filter, all_requests, domain, domain_keyword, domain_prefix, domain_suffix, url_regex, init,
  lower_host, is_match_req,
}

module _ (E : Env) where
  -- What a filter looks for: in the host, which is without the port, or in the URL. The documentation
  -- has the port in the text of a filter too, where it is not the usual one; but there is
  -- none to be found in the host.
  abbrev pub Matches : Filter → Request E → Type 0
  Matches all_requests req = Unit
  Matches (domain d) req = lower_host E req ≡ d
  Matches (domain_keyword d) req = IsInfix d (lower_host E req)
  Matches (domain_prefix d) req = IsPrefix d (lower_host E req)
  Matches (domain_suffix d) req = IsSuffix d (lower_host E req)
  Matches (url_regex re) req =
      (compiled : E.Regex) × (E.regex_new re ≡ some compiled)
      × (E.regex_is_match compiled (E.uri_to_string req.uri) ≡ some true)

  pure-true : (b : Bool) {P : Type 0} → (b ≡ true) ↔ P → (pure {E = E} b ≡ pure true) ↔ P
  pure-true true (to, from) = ((λ _. to refl), λ _. refl)
  pure-true false (to, from) = ((λ h. cc), λ m. cc (from m))

  unwrap-true : (o : Option Bool) → (unwrap {E = E} o ≡ pure true) ↔ (o ≡ some true)
  unwrap-true none = ((λ h. cc), λ h. cc)
  unwrap-true (some true) = ((λ _. refl), λ _. refl)
  unwrap-true (some false) = ((λ h. cc), λ h. cc)

  search_iff :
      (o : Option E.Regex) (found : E.Regex → Option Bool)
      → ((unwrap {E = E} o >>= λ r. unwrap (found r)) ≡ pure true)
        ↔ ((r : E.Regex) × (o ≡ some r) × (found r ≡ some true))
  search_iff none found = ((λ h. cc), λ (r, e, m). cc)
  search_iff (some r) found =
      let (to, from) = unwrap-true (found r) in ((λ h. (r, refl, to h)), λ (x, e, m). from (cc))

  -- A filter answers that it matches a request exactly when: `all` always, a domain, keyword,
  -- prefix or suffix when the host of the request, without its port and in lower case, is it,
  -- holds it, begins with it or ends with it, and an expression when it compiles and finds the URL.
  pub is_match_req_iff :
      (f : Filter) (req : Request E) → (is_match_req E f req ≡ pure true) ↔ Matches f req
  unfolding is_match_req
  is_match_req_iff all_requests req = ((λ _. tt), λ _. refl)
  is_match_req_iff (domain d) req = pure-true _ (eq_iff (lower_host E req) d)
  is_match_req_iff (domain_keyword d) req = pure-true _ (contains_iff (lower_host E req) d)
  is_match_req_iff (domain_prefix d) req = pure-true _ (starts_with_iff (lower_host E req) d)
  is_match_req_iff (domain_suffix d) req = pure-true _ (ends_with_iff (lower_host E req) d)
  is_match_req_iff (url_regex re) req =
      search_iff (E.regex_new re) (λ r. E.regex_is_match r (E.uri_to_string req.uri))

  -- The text of the filter is ASCII.
  abbrev pub HasAsciiText : Filter → Type 0
  HasAsciiText all_requests = Unit
  HasAsciiText (domain d) = IsAscii d
  HasAsciiText (domain_keyword d) = IsAscii d
  HasAsciiText (domain_prefix d) = IsAscii d
  HasAsciiText (domain_suffix d) = IsAscii d
  HasAsciiText (url_regex re) = Unit

  -- Initialising a filter whose text is ASCII a second time changes nothing.
  init_idem : (f : Filter) → HasAsciiText f → init E (init E f) ≡ init E f
  unfolding init
  init_idem all_requests h = refl
  init_idem (domain d) h = ap domain (to_lowercase_idem _ d h)
  init_idem (domain_keyword d) h = ap domain_keyword (to_lowercase_idem _ d h)
  init_idem (domain_prefix d) h = ap domain_prefix (to_lowercase_idem _ d h)
  init_idem (domain_suffix d) h = ap domain_suffix (to_lowercase_idem _ d h)
  init_idem (url_regex re) h = refl
