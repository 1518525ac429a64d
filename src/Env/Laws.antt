-- ===== src/Env/Laws.antt =====
-- Documented behaviour of the libraries, as far as proofs rest on it. A theorem takes the record
-- of the library that it needs.
use good_mitm.Prelude.{
  ℕ, ◌≡◌, ◌≢◌, Bool, true, ◌&&◌, leb, ltb, none, some, List, [], ◌∷◌, ◌++◌, head?, ◌==◌, all, not,
  length,
}
use good_mitm.Text.{Text}
use good_mitm.Env.{Env, Standard, ok}

-- `HeaderMap` is a multimap, observed through `get_all`.
pub record HeadersLaws (E : Env) : Type 0 where
  pub get-get_all :
      (n : E.HeaderName) (h : E.HeaderMap) → E.headers_get n h ≡ head? (E.headers_get_all n h)
  pub get_all-insert :
      (n : E.HeaderName) (v : E.HeaderValue) (h : E.HeaderMap)
      → E.headers_get_all n (E.headers_insert n v h) ≡ v ∷ []
  pub get_all-insert_ne :
      (n m : E.HeaderName) (v : E.HeaderValue) (h : E.HeaderMap)
      → m ≢ n
      → E.headers_get_all m (E.headers_insert n v h) ≡ E.headers_get_all m h
  pub get_all-append :
      (n : E.HeaderName) (v : E.HeaderValue) (h : E.HeaderMap)
      → E.headers_get_all n (E.headers_append n v h) ≡ E.headers_get_all n h ++ (v ∷ [])
  pub get_all-append_ne :
      (n m : E.HeaderName) (v : E.HeaderValue) (h : E.HeaderMap)
      → m ≢ n
      → E.headers_get_all m (E.headers_append n v h) ≡ E.headers_get_all m h
  pub get_all-remove :
      (n : E.HeaderName) (h : E.HeaderMap) → E.headers_get_all n (E.headers_remove n h) ≡ []
  pub get_all-remove_ne :
      (n m : E.HeaderName) (h : E.HeaderMap)
      → m ≢ n
      → E.headers_get_all m (E.headers_remove n h) ≡ E.headers_get_all m h
  pub get_all-set_first :
      (n : E.HeaderName) (v w : E.HeaderValue) (rest : List E.HeaderValue) (h : E.HeaderMap)
      → E.headers_get_all n h ≡ w ∷ rest
      → E.headers_get_all n (E.headers_set_first n v h) ≡ v ∷ rest
  pub get_all-set_first_ne :
      (n m : E.HeaderName) (v : E.HeaderValue) (h : E.HeaderMap)
      → m ≢ n
      → E.headers_get_all m (E.headers_set_first n v h) ≡ E.headers_get_all m h
  pub standard_injective : (a b : Standard) → E.standard a ≡ E.standard b → a ≡ b

-- A body made of bytes is read back whole, and its size is known.
pub record BodyLaws (E : Env) : Type 0 where
  pub to_bytes-body_from : (bytes : List ℕ) → E.to_bytes (E.body_from bytes) ≡ ok bytes
  pub size_hint-body_from :
      (bytes : List ℕ) → E.body_size_hint_lower (E.body_from bytes) ≡ length bytes

-- A text against a pattern in which `*` stands for any bytes.
pub data Glob : Text → Text → Type 0 where
  end : Glob [] []
  same : {p s : Text} (c : ℕ) → Glob p s → Glob (c ∷ p) (c ∷ s)
  star : {p s : Text} (skipped : Text) → Glob p s → Glob (b'*' ∷ p) (skipped ++ s)

-- `WildMatch`: it finds what a glob finds, and a pattern with no `*` and `?` matches itself alone.
pub record WildLaws (E : Env) : Type 0 where
  pub glob-matches : (p s : Text) → Glob p s → E.wild_matches p s ≡ true
  pub plain-matches :
      (p s : Text)
      → all (λ c. not (c == b'*')) p ≡ true
      → all (λ c. not (c == b'?')) p ≡ true
      → E.wild_matches p s ≡ true
      → p ≡ s

-- `CookieJar`: a map from names to cookies.
pub record CookieLaws (E : Env) : Type 0 where
  pub name-new : (k v : Text) → E.cookie_name (E.cookie_new k v) ≡ k
  pub value-new : (k v : Text) → E.cookie_value (E.cookie_new k v) ≡ v
  pub name-named : (k : Text) → E.cookie_name (E.cookie_named k) ≡ k
  pub get-new : (k : Text) → E.jar_get k E.jar_new ≡ none
  pub get-add :
      (c : E.Cookie) (j : E.CookieJar) → E.jar_get (E.cookie_name c) (E.jar_add c j) ≡ some c
  pub get-add_ne :
      (k : Text) (c : E.Cookie) (j : E.CookieJar)
      → k ≢ E.cookie_name c
      → E.jar_get k (E.jar_add c j) ≡ E.jar_get k j
  pub get-remove :
      (c : E.Cookie) (j : E.CookieJar) → E.jar_get (E.cookie_name c) (E.jar_remove c j) ≡ none
  pub get-remove_ne :
      (k : Text) (c : E.Cookie) (j : E.CookieJar)
      → k ≢ E.cookie_name c
      → E.jar_get k (E.jar_remove c j) ≡ E.jar_get k j

-- What a header can hold as a text: visible ASCII and spaces.
abbrev pub is_visible : ℕ → Bool
is_visible c = leb 32 c && ltb c 127

-- `HeaderValue::from_str`
pub record ValueLaws (E : Env) : Type 0 where
  pub value-visible :
      (t : Text) → all is_visible t ≡ true → (v : E.HeaderValue) × (E.value_from_str t ≡ some v)
