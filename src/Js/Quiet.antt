-- ===== src/Js/Quiet.antt =====
-- Scripts send nothing and start nothing.
use good_mitm.Prelude.{ℕ, Option, none, some, List}
use good_mitm.Text.{Text, codes}
use good_mitm.Env.{
  Env, Result, ok, err, JsValue, undefined, other, string, object, JsEntries, none_left, entry,
}
use good_mitm.Io.{Io, Request, Response, pure, unwrap}
use good_mitm.Io.Local.{OnlyLogs, OnlyLogs-bind, OnlyLogs-unwrap}
use good_mitm.Js.{
  js_get, write_headers, returned_headers, returned_uri, take_request, take_response, modify_req,
  modify_res,
}

module _ (E : Env) where
  write_headers-OnlyLogs :
      (entries : JsEntries) (headers : E.HeaderMap) → OnlyLogs (write_headers E entries headers)
  unfolding write_headers
  write_headers-OnlyLogs none_left headers = tt
  write_headers-OnlyLogs (entry key (string text) more) headers =
      let name = E.name_from_str key in
      let value = E.value_from_str text in
      OnlyLogs-bind (unwrap name) _ (OnlyLogs-unwrap E name) (λ n.
        OnlyLogs-bind (unwrap value) _ (OnlyLogs-unwrap E value)
          (λ v. write_headers-OnlyLogs more (E.headers_insert n v headers)))
  write_headers-OnlyLogs (entry key undefined more) headers = write_headers-OnlyLogs more headers
  write_headers-OnlyLogs (entry key other more) headers = write_headers-OnlyLogs more headers
  write_headers-OnlyLogs (entry key (object o) more) headers = write_headers-OnlyLogs more headers

  returned_headers-OnlyLogs :
      (v : Option JsValue) (headers : E.HeaderMap) → OnlyLogs (returned_headers E v headers)
  unfolding returned_headers
  returned_headers-OnlyLogs none headers = tt
  returned_headers-OnlyLogs (some undefined) headers = tt
  returned_headers-OnlyLogs (some other) headers = tt
  returned_headers-OnlyLogs (some (string s)) headers = tt
  returned_headers-OnlyLogs (some (object o)) headers = write_headers-OnlyLogs o headers

  parsed-OnlyLogs :
      (r : Result E.Uri Text)
      → OnlyLogs (elim r as (λ _. Io E E.Uri) [ ok parsed ↦ pure parsed | err e ↦ unwrap none ])
  parsed-OnlyLogs (ok u) = tt
  parsed-OnlyLogs (err e) = tt

  returned_uri-OnlyLogs : (v : Option JsValue) (uri : E.Uri) → OnlyLogs (returned_uri E v uri)
  unfolding returned_uri
  returned_uri-OnlyLogs none uri = tt
  returned_uri-OnlyLogs (some undefined) uri = tt
  returned_uri-OnlyLogs (some other) uri = tt
  returned_uri-OnlyLogs (some (object o)) uri = tt
  returned_uri-OnlyLogs (some (string s)) uri = parsed-OnlyLogs (E.uri_from_str s)

  take_request-OnlyLogs :
      (req : Request E) (bytes : List ℕ) (v : Option JsValue)
      → OnlyLogs (take_request E req bytes v)
  unfolding take_request
  take_request-OnlyLogs req bytes none = tt
  take_request-OnlyLogs req bytes (some undefined) = tt
  take_request-OnlyLogs req bytes (some other) = tt
  take_request-OnlyLogs req bytes (some (string s)) = tt
  take_request-OnlyLogs req bytes (some (object o)) =
      let h = js_get (codes "headers") o in
      let u = js_get (codes "url") o in
      OnlyLogs-bind (returned_headers E h req.headers) _ (returned_headers-OnlyLogs h req.headers)
        (λ _.
          OnlyLogs-bind (returned_uri E u req.uri) _ (returned_uri-OnlyLogs u req.uri) (λ _. tt))

  take_response-OnlyLogs :
      (res : Response E) (bytes : List ℕ) (v : Option JsValue)
      → OnlyLogs (take_response E res bytes v)
  unfolding take_response
  take_response-OnlyLogs res bytes none = tt
  take_response-OnlyLogs res bytes (some undefined) = tt
  take_response-OnlyLogs res bytes (some other) = tt
  take_response-OnlyLogs res bytes (some (string s)) = tt
  take_response-OnlyLogs res bytes (some (object o)) =
      let h = js_get (codes "headers") o in
      OnlyLogs-bind (returned_headers E h res.headers) _ (returned_headers-OnlyLogs h res.headers)
        (λ _. tt)

  pub modify_req-OnlyLogs : (code : Text) (req : Request E) → OnlyLogs (modify_req E code req)
  unfolding modify_req
  modify_req-OnlyLogs code req = take_request-OnlyLogs req _ _

  pub modify_res-OnlyLogs : (code : Text) (res : Response E) → OnlyLogs (modify_res E code res)
  unfolding modify_res
  modify_res-OnlyLogs code res = take_response-OnlyLogs res _ _
