-- ===== src/Mitm/Hosts.antt =====
-- Which `Host` headers the proxy copes with.
use good_mitm.Prelude.{
  ◌≡◌, ap, refl, ◌↔◌, ◌||◌, true, false, All, Option, none, some, Option-cases, inl, inr, List, [],
}
use good_mitm.Text.{Text, codes, starts_with}
use good_mitm.Env.{Env}
use good_mitm.Env.Laws.{ValueLaws}
use good_mitm.Io.{Request, Io, done, panic}
use good_mitm.Io.Ensures.{Returns}
use good_mitm.Io.Halting.{Halts-Returns}
use good_mitm.Rule.{Rule}
use good_mitm.Rule.Calm.{CalmRule}
use good_mitm.Handler.{RuleHandlerCtx}
use good_mitm.Mitm.{MitmProxy, host_text, rebuild_uri, absolute_uri, handle, process_request}
use good_mitm.Mitm.Answering.{process_request-Halts}
use good_mitm.Mitm.CalmRules.{rule_http_handler-IsCalm}
use good_mitm.Mitm.WithRules.{ruled}

-- `Uri::from_parts`: a URI with a scheme, an authority and a path can be built, one with a scheme and no
-- authority cannot.
pub record UriLaws (E : Env) : Type 0 where
  pub whole :
      (s : E.Scheme) (a : E.Authority) (p : E.PathAndQuery)
      → (u : E.Uri) × (E.uri_from_parts (some s, some a, some p) ≡ some u)
  pub no_authority :
      (s : E.Scheme) (p : Option E.PathAndQuery) → E.uri_from_parts (some s, none, p) ≡ none

module _ (E : Env) where
  -- The `Host` header, if there is one that is a text, is an authority.
  abbrev pub HasGoodHost : Request E → Type 0
  HasGoodHost req =
      (name : Text)
      → host_text E req ≡ some name
      → (a : E.Authority) × (E.authority_from_str name ≡ some a)

  panic-no_Returns : {A : Type 0} (m : Io E A) → m.1 ≡ panic → ¬ Returns m
  panic-no_Returns m is (a, returns) = let clash : panic ≡ done a = cc in absurd cc

  module _ (uris : UriLaws E) (scheme : E.Scheme) (req : Request E) where
    absolute_uri-Returns :
        (path : E.PathAndQuery)
        → (E.uri_into_parts req.uri).2 ≡ some path
        → (E.version_is_http_10 req.version || E.version_is_http_11 req.version) ≡ true
        → HasGoodHost req
        → Returns (absolute_uri E scheme req)
    unfolding absolute_uri
    absolute_uri-Returns path has_path version good = elim (Option-cases (host_text E req)) [
      | inl absent ↦ rw (version, absolute_uri, absent, rebuild_uri) (req, refl)
      | inr (name, named) ↦
          let (a, parsed) = good name named in
          let (u, built) = uris.whole scheme a path in
          rw (version, absolute_uri, named, rebuild_uri, parsed, has_path, built)
            (record req { uri = u }, refl)
    ]

    -- A request of HTTP/1 that does not ask for the certificate and whose `Host` header is a text
    -- but no authority ends in a panic.
    process_request-bad_host :
        {D : Type 0} (self : MitmProxy E D) (name : Text)
        → starts_with (E.uri_path req.uri) (codes "/mitm/cert") ≡ false
        → (E.version_is_http_10 req.version || E.version_is_http_11 req.version) ≡ true
        → host_text E req ≡ some name
        → E.authority_from_str name ≡ none
        → process_request E self scheme req ≡ ([], panic)
    unfolding process_request absolute_uri
    process_request-bad_host self name other version named bad =
        let refused = uris.no_authority scheme (E.uri_into_parts req.uri).2 in
        rw (other, process_request, handle, version, absolute_uri, named, rebuild_uri, bad, refused)

    -- A proxy whose rules cannot fail processes a request of HTTP/1 that does not ask for the
    -- certificate, and that has a path, without a panic exactly if its `Host` header is missing, is
    -- no text, or is an authority. It rests on the documented behaviour of header values and of
    -- `Uri::from_parts`.
    pub process_request-Returns_iff :
        (self : MitmProxy E RuleHandlerCtx) (rules : List Rule) (path : E.PathAndQuery)
        → ValueLaws E
        → All (CalmRule E) rules
        → starts_with (E.uri_path req.uri) (codes "/mitm/cert") ≡ false
        → (E.version_is_http_10 req.version || E.version_is_http_11 req.version) ≡ true
        → (E.uri_into_parts req.uri).2 ≡ some path
        → Returns (process_request E (ruled E rules self) scheme req) ↔ HasGoodHost req
    process_request-Returns_iff self rules path values calm other version has_path = (
      λ returns name named. elim (Option-cases (E.authority_from_str name)) [
        | inl bad ↦
            let panics =
              process_request-bad_host (ruled E rules self) name other version named bad in
            absurd (
              panic-no_Returns (process_request E (ruled E rules self) scheme req)
                (ap (λ m. m.1) panics) returns)
        | inr found ↦ found
      ],
      λ good. Halts-Returns (process_request E (ruled E rules self) scheme req) (
          process_request-Halts E values (ruled E rules self)
            (rule_http_handler-IsCalm E rules calm) scheme req
            (absolute_uri-Returns path has_path version good)),
    )
