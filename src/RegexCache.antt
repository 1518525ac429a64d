-- ===== src/RegexCache.antt =====
-- crates/rule/src/cache.rs, as the macro `cached` runs it: `get_regex` with its cache
pub mod Answers
use good_mitm.Prelude.{ℕ, ◌≡◌, ◌⊎◌, Option, none, some, List, [], ◌∷◌}
use good_mitm.Text.{Text}
use good_mitm.Env.{Env}
use good_mitm.Io.{Io, pure, crash}

-- `cached::SizedCache` from texts to expressions; a look may change the order in it.
pub record RegexCacheLibrary (E : Env) : Type 1 where
  pub Cache : Type 0
  pub with_size : ℕ → Cache
  pub cache_get : Text → Cache → Option E.Regex × Cache
  pub cache_set : Text → E.Regex → Cache → Cache

-- What is in the cache was put there for the text. It may be gone before.
pub record RegexCacheLaws (E : Env) (L : RegexCacheLibrary E) : Type 0 where
  pub get-with_size : (size : ℕ) (re : Text) → (L.cache_get re (L.with_size size)).0 ≡ none
  pub get-get :
      (re other : Text) (found : E.Regex) (c : L.Cache)
      → (L.cache_get re (L.cache_get other c).1).0 ≡ some found
      → (L.cache_get re c).0 ≡ some found
  pub get-set :
      (re other : Text) (found r : E.Regex) (c : L.Cache)
      → (L.cache_get re (L.cache_set other r c)).0 ≡ some found
      → ((re ≡ other) × (found ≡ r)) ⊎ ((L.cache_get re c).0 ≡ some found)

module _ (E : Env) (L : RegexCacheLibrary E) where
  -- A text that is no expression panics before it comes into the cache.
  abbrev compiled : Text → Option E.Regex → L.Cache → Io E E.Regex × L.Cache
  compiled re none cache = (crash, cache)
  compiled re (some regex) cache = (pure regex, L.cache_set re regex cache)

  abbrev answer : Text → Option E.Regex × L.Cache → Io E E.Regex × L.Cache
  answer re (some regex, cache) = (pure regex, cache)
  answer re (none, cache) = compiled re (E.regex_new re) cache

  unfoldable pub cached_get_regex : Text → L.Cache → Io E E.Regex × L.Cache
  cached_get_regex re cache = answer re (L.cache_get re cache)

  -- The answers to calls one after the other.
  unfoldable pub calls : List Text → L.Cache → List (Io E E.Regex)
  unfolding cached_get_regex
  calls [] cache = []
  calls (re ∷ more) cache = let first = cached_get_regex re cache in first.0 ∷ calls more first.1

  -- The cache as it is made.
  abbrev pub empty_cache : L.Cache
  empty_cache = L.with_size 100
