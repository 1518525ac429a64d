-- ===== src/Tests/Caches.antt =====
-- The theorem on the cache of expressions, with a cache of one expression.
use good_mitm.Prelude.{
  ◌≡◌, refl, inl, Bool, true, false, Option, none, some, [], ◌∷◌, map, if◌then◌else◌,
}
use good_mitm.Text.{Text, codes, eq}
use good_mitm.Text.Laws.{eq_iff}
use good_mitm.Filter.{get_regex}
use good_mitm.RegexCache.{RegexCacheLibrary, RegexCacheLaws, calls, empty_cache}
use good_mitm.RegexCache.Answers.{calls_lem}
use good_mitm.Tests.Sample.{env}

abbrev kept : Text → Option (Text × Text) → Option Text
kept re none = none
kept re (some (name, regex)) = if eq re name then some regex else none

abbrev library : RegexCacheLibrary env
library = record {
  Cache = Option (Text × Text);
  with_size = λ size. none;
  cache_get = λ re c. (kept re c, c);
  cache_set = λ re regex c. some (re, regex);
}

kept_found :
    (re other found r : Text)
    → (if eq re other then some r else none) ≡ some found
    → (re ≡ other) × (found ≡ r)
kept_found re other found r e =
    let (same, it) = hit (eq re other) e in ((eq_iff re other).0 same, it)
  where
    hit : (b : Bool) → (if b then some r else none) ≡ some found → (b ≡ true) × (found ≡ r)
    hit true e = (refl, cc)
    hit false e = absurd cc

laws : RegexCacheLaws env library
laws = record {
  get-with_size = λ size re. refl;
  get-get = λ re other found c e. e;
  get-set = λ re other found r c e. inl (kept_found re other found r e);
}

calls_lem_example :
    calls env library (codes "a" ∷ codes "a" ∷ codes "b" ∷ []) (empty_cache env library)
    ≡ map (get_regex env) (codes "a" ∷ codes "a" ∷ codes "b" ∷ [])
calls_lem_example = calls_lem env library laws (codes "a" ∷ codes "a" ∷ codes "b" ∷ [])
