-- ===== src/Env.antt =====
-- What the program takes from its libraries: `http` and `hyper`, `fancy_regex`, `cookie`,
-- `wildmatch`, `quick_js`, and the Unicode tables. Its types and operations are the fields of a
-- record, which the model takes as a parameter; the laws that proofs rest on stand in Env/Laws.
pub mod Laws
use good_mitm.Prelude.{ℕ, Bool, Option, List}
use good_mitm.Text.{Text}

-- A `Result` of a library.
pub data Result (A : Type 0) (X : Type 0) : Type 0 where
  ok : A → Result A X
  err : X → Result A X

-- The constants of `http::header` that the program names.
pub data Standard : Type 0 where
  accept_encoding content_type content_length content_disposition cookie set_cookie host : Standard
  location strict_transport_security : Standard
  access_control_allow_origin access_control_allow_methods : Standard

-- `quick_js::JsValue`; an object is its entries in the order of its iterator. `other` stands for
-- the constructors that the program does not look at.
mutual
  pub data JsValue : Type 0 where
    undefined other : JsValue
    string : Text → JsValue
    object : JsEntries → JsValue

  pub data JsEntries : Type 0 where
    none_left : JsEntries
    entry : Text → JsValue → JsEntries → JsEntries

pub record Env : Type 1 where
  -- `str::to_lowercase` beyond ASCII
  pub unicode_lowercase : Text → Text
  -- `http::Uri`
  pub Uri : Type 0
  pub Scheme : Type 0
  pub Authority : Type 0
  pub PathAndQuery : Type 0
  pub uri_to_string : Uri → Text
  pub uri_from_str : Text → Result Uri Text
  pub uri_host : Uri → Option Text
  pub uri_path : Uri → Text
  pub uri_authority : Uri → Option Authority
  pub uri_into_parts : Uri → Option Scheme × Option Authority × Option PathAndQuery
  pub uri_from_parts : Option Scheme × Option Authority × Option PathAndQuery → Option Uri
  pub authority_from_str : Text → Option Authority
  pub authority_to_string : Authority → Text
  pub scheme_http : Scheme
  pub scheme_https : Scheme
  -- `http::Method`, `http::Version`, `http::StatusCode`
  pub Method : Type 0
  pub method_to_string : Method → Text
  pub method_is_connect : Method → Bool
  pub Version : Type 0
  pub version_debug : Version → Text
  pub version_is_http_10 : Version → Bool
  pub version_is_http_11 : Version → Bool
  pub version_default : Version
  pub status_to_string : ℕ → Text
  -- `http::HeaderMap`; a name is what a text key is parsed to, by `HeaderName::from_str` and by
  -- the operations that take a text
  pub HeaderName : Type 0
  pub HeaderValue : Type 0
  pub HeaderMap : Type 0
  pub standard : Standard → HeaderName
  pub name_from_str : Text → Option HeaderName
  pub name_as_str : HeaderName → Text
  pub value_from_str : Text → Option HeaderValue
  pub value_to_str : HeaderValue → Option Text
  pub value_len : HeaderValue → ℕ
  pub headers_empty : HeaderMap
  pub headers_get : HeaderName → HeaderMap → Option HeaderValue
  pub headers_get_all : HeaderName → HeaderMap → List HeaderValue
  -- the write through what `get_mut` returns
  pub headers_set_first : HeaderName → HeaderValue → HeaderMap → HeaderMap
  pub headers_insert : HeaderName → HeaderValue → HeaderMap → HeaderMap
  pub headers_append : HeaderName → HeaderValue → HeaderMap → HeaderMap
  pub headers_remove : HeaderName → HeaderMap → HeaderMap
  pub headers_iter : HeaderMap → List (HeaderName × HeaderValue)
  -- `hyper::Body`; an error is given by its text
  pub Body : Type 0
  pub body_empty : Body
  pub body_from : List ℕ → Body
  pub to_bytes : Body → Result (List ℕ) Text
  pub body_size_hint_lower : Body → ℕ
  -- `hyper::Error`
  pub HyperError : Type 0
  pub hyper_error_debug : HyperError → Text
  -- `fancy_regex::Regex`; `none` is an error or a panic of the search
  pub Regex : Type 0
  pub regex_new : Text → Option Regex
  pub regex_is_match : Regex → Text → Option Bool
  pub regex_replace : Regex → Text → Text → Option Text
  pub regex_replace_all : Regex → Text → Text → Option Text
  -- `wildmatch::WildMatch::new(pattern).matches(text)`
  pub wild_matches : Text → Text → Bool
  -- `cookie`
  pub Cookie : Type 0
  pub CookieJar : Type 0
  pub cookie_parse : Text → Option Cookie
  pub cookie_new : Text → Text → Cookie
  pub cookie_named : Text → Cookie
  pub cookie_name : Cookie → Text
  pub cookie_value : Cookie → Text
  pub cookie_to_string : Cookie → Text
  pub jar_new : CookieJar
  pub jar_add : Cookie → CookieJar → CookieJar
  pub jar_remove : Cookie → CookieJar → CookieJar
  pub jar_get : Text → CookieJar → Option Cookie
  pub jar_iter : CookieJar → List Cookie
  -- `quick_js`; `none` is an error
  pub JsContext : Type 0
  pub js_build : Option JsContext
  pub js_set_global : Text → JsValue → JsContext → Option JsContext
  pub js_eval : Text → JsContext → Option JsValue
