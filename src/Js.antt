-- ===== src/Js.antt =====
-- crates/rule/src/action/js.rs. A `HashMap` handed to the script or received from it is its
-- entries; an insertion replaces the entry of its key.
pub mod Quiet
pub mod Scripted
use good_mitm.Prelude.{ℕ, Option, none, some, List, [], ◌∷◌, if◌then◌else◌, unwrap_or}
use good_mitm.Text.{Text, codes, eq, from_utf8}
use good_mitm.Env.{
  Env, Result, ok, err, JsValue, undefined, other, string, object, JsEntries, none_left, entry,
}
use good_mitm.Io.{Io, Request, Response, pure, unwrap, ◌>>=◌, ◌>>◌}

unfoldable pub js_get : Text → JsEntries → Option JsValue
js_get key none_left = none
js_get key (entry k v more) = if eq k key then some v else js_get key more

unfoldable pub js_insert : Text → JsValue → JsEntries → JsEntries
js_insert key value none_left = entry key value none_left
js_insert key value (entry k v more) =
    if eq k key then entry k value more else entry k v (js_insert key value more)

-- `unwrap_or_default` of the bytes of a body
abbrev bytes_or_empty : Result (List ℕ) Text → List ℕ
bytes_or_empty (ok bytes) = bytes
bytes_or_empty (err e) = []

body_value : Option Text → JsValue
body_value (some text) = string text
body_value none = undefined

-- What a script may return as the body: a text, or anything else for the old body.
abbrev body_or : List ℕ → Option JsValue → List ℕ
body_or old (some (string text)) = text
body_or old _ = old

module _ (E : Env) where
  headers_value : List (E.HeaderName × E.HeaderValue) → JsEntries → JsEntries
  unfolding js_insert
  headers_value [] out = out
  headers_value ((name, value) ∷ more) out =
      headers_value more
        (js_insert (E.name_as_str name) (string (unwrap_or [] (E.value_to_str value))) out)

  -- the macro `to_js_value_map`
  unfoldable pub to_js_value_map : E.HeaderMap → List ℕ → JsEntries
  unfolding headers_value body_value
  to_js_value_map headers body_bytes =
      entry (codes "headers") (object (headers_value (E.headers_iter headers) none_left))
        (entry (codes "body") (body_value (from_utf8 body_bytes)) none_left)

  write_headers : JsEntries → E.HeaderMap → Io E E.HeaderMap
  write_headers none_left headers = pure headers
  write_headers (entry key (string text) more) headers = do
    name ← unwrap (E.name_from_str key)
    value ← unwrap (E.value_from_str text)
    write_headers more (E.headers_insert name value headers)
  write_headers (entry key _ more) headers = write_headers more headers

  returned_headers : Option JsValue → E.HeaderMap → Io E E.HeaderMap
  unfolding write_headers
  returned_headers (some (object entries)) headers = write_headers entries headers
  returned_headers _ headers = pure headers

  returned_uri : Option JsValue → E.Uri → Io E E.Uri
  returned_uri (some (string text)) uri = elim (E.uri_from_str text) [
    | ok parsed ↦ pure parsed
    | err e ↦ unwrap none
  ]
  returned_uri _ uri = pure uri

  -- The script's value, with the data as the global `data`; `none` is an error of the engine.
  evaluate : Text → Text → JsEntries → Option JsValue
  evaluate code kind value = elim E.js_build [
    | none ↦ none
    | some context ↦
        elim (E.js_set_global (codes "data") (object (entry kind (object value) none_left))
          context) [ none ↦ none | some context' ↦ E.js_eval code context' ]
  ]

  take_request : Request E → List ℕ → Option JsValue → Io E (Option (Request E))
  unfolding returned_headers returned_uri js_get
  take_request req body_bytes (some (object req_js)) = do
    headers ← returned_headers (js_get (codes "headers") req_js) req.headers
    uri ← returned_uri (js_get (codes "url") req_js) req.uri
    pure (
        some (record req {
          uri = uri;
          headers = headers;
          body = E.body_from (body_or body_bytes (js_get (codes "body") req_js));
        }))
  take_request req body_bytes _ = pure none

  take_response : Response E → List ℕ → Option JsValue → Io E (Option (Response E))
  unfolding returned_headers js_get
  take_response res body_bytes (some (object res_js)) = do
    headers ← returned_headers (js_get (codes "headers") res_js) res.headers
    pure (
        some (record res {
          headers = headers;
          body = E.body_from (body_or body_bytes (js_get (codes "body") res_js));
        }))
  take_response res body_bytes _ = pure none

  request_value : Request E → List ℕ → JsEntries
  unfolding to_js_value_map js_insert
  request_value req body_bytes = js_insert (codes "url") (string (E.uri_to_string req.uri)) (
      js_insert (codes "method") (string (E.method_to_string req.method))
        (to_js_value_map req.headers body_bytes))

  -- `none` is an `Err`.
  unfoldable pub modify_req : Text → Request E → Io E (Option (Request E))
  unfolding take_request evaluate request_value
  modify_req code req =
      let body_bytes = bytes_or_empty (E.to_bytes req.body) in
      take_request req body_bytes (evaluate code (codes "request") (request_value req body_bytes))

  unfoldable pub modify_res : Text → Response E → Io E (Option (Response E))
  unfolding take_response evaluate to_js_value_map
  modify_res code res =
      let body_bytes = bytes_or_empty (E.to_bytes res.body) in
      take_response res body_bytes
        (evaluate code (codes "response") (to_js_value_map res.headers body_bytes))
