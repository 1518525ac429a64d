-- ===== src/Tests/Sample.antt =====
-- A small implementation of the libraries: texts for names and values, bytes for bodies.
use good_mitm.Prelude.{
  ap, ◌∷◌, ℕ, refl, Bool, true, false, ◌==◌, if◌then◌else◌, Option, none, some, List, [], ◌++◌,
  head?, length,
}
use good_mitm.Text.{Text, codes, eq, contains, replace, to_decimal}
use good_mitm.Env.{Env, Result, ok, err, object, string, entry, none_left}
use good_mitm.Env.Laws.{HeadersLaws, BodyLaws, WildLaws, CookieLaws}
use good_mitm.Tests.Headers
use good_mitm.Tests.Headers.{Entries}
use good_mitm.Tests.Globs.{glob, glob_complete, glob_plain}

abbrev unreadable : Text
unreadable = codes "unreadable"

abbrev read : Option (List ℕ) → Result (List ℕ) Text
read none = err unreadable
read (some bytes) = ok bytes

abbrev size : Option (List ℕ) → ℕ
size none = 0
size (some bytes) = length bytes

abbrev Parts : Type 0
Parts = Option Text × Option Text × Option Text

abbrev build : Option Text → Option Text → Option Text → Option (Text × Text × Text)
build (some s) (some a) (some p) = some (s, a, p)
build _ _ _ = none

-- An authority has no space.
abbrev authority : Text → Option Text
authority t = elim (contains t (codes " ")) [ true ↦ none | false ↦ some t ]

-- The cookie with the first of the values.
abbrev pub found : Text → List Text → Option (Text × Text)
found k [] = none
found k (v ∷ _) = some (k, v)

-- The cookie of a text, by its first `=`.
abbrev pub cookie_of : Text → Text → Text × Text
cookie_of name [] = (name, [])
cookie_of name (c ∷ s) =
    let rest = cookie_of (name ++ (c ∷ [])) s in if c == b'=' then (name, s) else rest

abbrev pub env : Env
env = record {
  unicode_lowercase = λ t. t;
  Uri = Text × Text × Text;
  Scheme = Text;
  Authority = Text;
  PathAndQuery = Text;
  uri_to_string = λ (s, a, p). s ++ (codes "://" ++ (a ++ p));
  uri_from_str = λ t. ok (codes "https", t, codes "/");
  uri_host = λ (s, a, p). some a;
  uri_path = λ (s, a, p). p;
  uri_authority = λ (s, a, p). some a;
  uri_into_parts = λ (s, a, p). (some s, some a, some p);
  uri_from_parts = λ (s, a, p). build s a p;
  authority_from_str = authority;
  authority_to_string = λ a. a;
  scheme_http = codes "http";
  scheme_https = codes "https";
  Method = Text;
  method_to_string = λ m. m;
  method_is_connect = λ m. eq m (codes "CONNECT");
  Version = Bool;
  version_debug = λ v. codes "HTTP/1.1";
  version_is_http_10 = λ v. false;
  version_is_http_11 = λ v. v;
  version_default = true;
  status_to_string = to_decimal;
  HeaderName = Text;
  HeaderValue = Text;
  HeaderMap = Entries;
  standard = Headers.name_of;
  name_from_str = λ t. some t;
  name_as_str = λ n. n;
  value_from_str = λ t. some t;
  value_to_str = λ v. some v;
  value_len = length;
  headers_empty = [];
  headers_get = λ n h. head? (Headers.get_all n h);
  headers_get_all = Headers.get_all;
  headers_set_first = Headers.set_first;
  headers_insert = Headers.insert;
  headers_append = Headers.append;
  headers_remove = Headers.remove;
  headers_iter = λ h. h;
  Body = Option (List ℕ);
  body_empty = some [];
  body_from = λ bytes. some bytes;
  to_bytes = read;
  body_size_hint_lower = size;
  HyperError = Text;
  hyper_error_debug = λ e. e;
  Regex = Text;
  regex_new = λ t. some t;
  regex_is_match = λ r t. some (contains t r);
  regex_replace = λ r t new. some (replace t r new);
  regex_replace_all = λ r t new. some (replace t r new);
  wild_matches = glob;
  Cookie = Text × Text;
  CookieJar = Entries;
  cookie_parse = λ t. some (cookie_of [] t);
  cookie_new = λ k v. (k, v);
  cookie_named = λ k. (k, []);
  cookie_name = λ (k, v). k;
  cookie_value = λ (k, v). v;
  cookie_to_string = λ (k, v). k ++ (codes "=" ++ v);
  jar_new = [];
  jar_add = λ (k, v) j. Headers.insert k v j;
  jar_remove = λ (k, v) j. Headers.remove k j;
  jar_get = λ k j. found k (Headers.get_all k j);
  jar_iter = λ j. j;
  JsContext = Unit;
  js_build = some tt;
  js_set_global = λ name value context. some context;
  js_eval = λ code context. some (object (entry (codes "body") (string code) none_left));
}

pub headers : HeadersLaws env
headers = record {
  get-get_all = λ n h. refl;
  get_all-insert = Headers.get_all-insert;
  get_all-insert_ne = Headers.get_all-insert_ne;
  get_all-append = Headers.get_all-append;
  get_all-append_ne = Headers.get_all-append_ne;
  get_all-remove = Headers.get_all-remove;
  get_all-remove_ne = Headers.get_all-remove_ne;
  get_all-set_first = Headers.get_all-set_first;
  get_all-set_first_ne = Headers.get_all-set_first_ne;
  standard_injective = Headers.name_of-injective;
}

pub bodies : BodyLaws env
bodies = record { to_bytes-body_from = λ bytes. refl; size_hint-body_from = λ bytes. refl }

pub wild : WildLaws env
wild = record { glob-matches = λ p s g. glob_complete g; plain-matches = glob_plain }

pub cookies : CookieLaws env
unfolding Headers.get_all
cookies = record {
  name-new = λ k v. refl;
  value-new = λ k v. refl;
  name-named = λ k. refl;
  get-new = λ k. refl;
  get-add = λ (k, v) j. ap (found k) (Headers.get_all-insert k v j);
  get-add_ne = λ k (n, v) j other. ap (found k) (Headers.get_all-insert_ne n k v j other);
  get-remove = λ (k, v) j. ap (found k) (Headers.get_all-remove k j);
  get-remove_ne = λ k (n, v) j other. ap (found k) (Headers.get_all-remove_ne n k j other);
}
