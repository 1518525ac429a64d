-- ===== src/RegexCache/Answers.antt =====
-- The cache changes no answer.
use good_mitm.Prelude.{◌≡◌, refl, sym, ap, ◌∙◌, inl, inr, Option, none, some, List, [], ◌∷◌, map}
use good_mitm.Text.{Text}
use good_mitm.Env.{Env}
use good_mitm.Io.{Io}
use good_mitm.Filter.{get_regex}
use good_mitm.RegexCache.{
  RegexCacheLibrary, RegexCacheLaws, compiled, answer, cached_get_regex, calls, empty_cache,
}

module _ (E : Env) (L : RegexCacheLibrary E) (laws : RegexCacheLaws E L) where
  -- Every expression in the cache is what its text compiles to.
  abbrev IsCompiled : L.Cache → Type 0
  IsCompiled c = (re : Text) (r : E.Regex) → (L.cache_get re c).0 ≡ some r → E.regex_new re ≡ some r

  abbrev Right : Text → Io E E.Regex × L.Cache → Type 0
  Right re result = (result.0 ≡ get_regex E re) × IsCompiled result.1

  compiled-Right :
      (re : Text) (o : Option E.Regex) (c : L.Cache)
      → E.regex_new re ≡ o
      → IsCompiled c
      → Right re (compiled E L re o c)
  unfolding get_regex
  compiled-Right re none c e h = (rw e refl, h)
  compiled-Right re (some r) c e h = (
    rw e refl,
    λ other found is. elim (laws.get-set other re found r c is) [
      | inl (same, it) ↦ ap E.regex_new same ∙ e ∙ ap some (sym it)
      | inr old ↦ h other found old
    ],
  )

  answer-Right :
      (re : Text) (found : Option E.Regex) (c : L.Cache)
      → IsCompiled c
      → ((r : E.Regex) → found ≡ some r → E.regex_new re ≡ some r)
      → Right re (answer E L re (found, c))
  unfolding get_regex
  answer-Right re (some r) c h k = (rw (k r refl) refl, h)
  answer-Right re none c h k = compiled-Right re (E.regex_new re) c refl h

  cached_get_regex-Right :
      (re : Text) (c : L.Cache) → IsCompiled c → Right re (cached_get_regex E L re c)
  unfolding cached_get_regex
  cached_get_regex-Right re c h =
      answer-Right re (L.cache_get re c).0 (L.cache_get re c).1
        (λ other r is. h other r (laws.get-get other re r c is)) (h re)

  calls_from :
      (res : List Text) (c : L.Cache) → IsCompiled c → calls E L res c ≡ map (get_regex E) res
  unfolding calls
  calls_from [] c h = refl
  calls_from (re ∷ more) c h =
      let (same, h') = cached_get_regex-Right re c h in
      rw (same, calls_from more (cached_get_regex E L re c).1 h') refl

  -- Whatever texts `get_regex` is called with, one after the other, from its empty cache on: each
  -- call returns the compiled expression, or panics, exactly as it does without the cache. It
  -- rests on that what the cache has for a text was put there for it.
  pub calls_lem : (res : List Text) → calls E L res (empty_cache E L) ≡ map (get_regex E) res
  calls_lem res =
      calls_from res (empty_cache E L)
        (λ re r found. let nothing = laws.get-with_size 100 re in absurd cc)
