-- ===== src/Filter/Pattern.antt =====
-- The patterns of hosts to intercept that the filters give.
use good_mitm.Prelude.{◌≡◌, true, some, [], ◌∷◌, ◌++◌, unwrap_or, append-nil}
use mathlib.Core.Path.{subst}
use mathlib.Core.Option.{some-injective}
use good_mitm.Text.{Text}
use good_mitm.Env.{Env}
use good_mitm.Env.Laws.{Glob, end, same, star, WildLaws}
use good_mitm.Io.{Request}
use good_mitm.Filter.{
  Filter, all_requests, domain, domain_keyword, domain_prefix, domain_suffix, url_regex,
  mitm_filtter_pattern, lower_host,
}
use good_mitm.Filter.Matching.{Matches}

Glob-append : (d p s : Text) → Glob p s → Glob (d ++ p) (d ++ s)
Glob-append [] p s g = g
Glob-append (c ∷ d) p s g = same c (Glob-append d p s g)

Glob-self : (d : Text) → Glob d d
Glob-self [] = end
Glob-self (c ∷ d) = same c (Glob-self d)

Glob-rest : (u : Text) → Glob (b'*' ∷ []) u
Glob-rest u = rw append-nil at (star u end)

module _ (E : Env) where
  pattern-Glob :
      (f : Filter) (p : Text) (req : Request E)
      → mitm_filtter_pattern f ≡ some p
      → Matches E f req
      → Glob p (lower_host E req)
  unfolding mitm_filtter_pattern
  pattern-Glob all_requests p req e m =
      subst (λ x. Glob x (lower_host E req)) (some-injective _ p e) (Glob-rest _)
  pattern-Glob (domain d) p req e m =
      subst (λ x. Glob x (lower_host E req)) (some-injective _ p e) (rw m (Glob-self d))
  pattern-Glob (domain_keyword d) p req e (u, v, m) =
      subst (λ x. Glob x (lower_host E req)) (some-injective _ p e)
        (rw m (star u (Glob-append d (b'*' ∷ []) v (Glob-rest v))))
  pattern-Glob (domain_prefix d) p req e (u, m) =
      subst (λ x. Glob x (lower_host E req)) (some-injective _ p e)
        (rw m (Glob-append d (b'*' ∷ []) u (Glob-rest u)))
  pattern-Glob (domain_suffix d) p req e (u, m) =
      subst (λ x. Glob x (lower_host E req)) (some-injective _ p e) (rw m (star u (Glob-self d)))
  pattern-Glob (url_regex re) p req e m = cc

  -- If the host of a request is in lower case, and a filter that gives a pattern matches the
  -- request, then the pattern matches the host.
  pub pattern_covers :
      WildLaws E
      → (f : Filter) (p : Text) (req : Request E) → mitm_filtter_pattern f ≡ some p
      → lower_host E req ≡ unwrap_or [] (E.uri_host req.uri)
      → Matches E f req
      → E.wild_matches p (unwrap_or [] (E.uri_host req.uri)) ≡ true
  pattern_covers wild f p req e low m = wild.glob-matches p _ (rw low at (pattern-Glob f p req e m))
