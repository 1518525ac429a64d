-- ===== src/Modify.antt =====
-- `Modify`, of crates/rule/src/action/modify.rs
pub mod Quiet
pub mod Bodies
pub mod Frame
use good_mitm.Prelude.{
  ℕ, Bool, true, false, ◌||◌, Option, none, some, List, [], ◌∷◌, ◌++◌, map, if◌then◌else◌,
  unwrap_or, or_else,
}
use good_mitm.Text.{Text, codes, contains, replace, split, join, from_utf8}
use good_mitm.Env.{Env, Result, ok, err, Standard, content_type, cookie, set_cookie}
use good_mitm.Io.{Io, Request, Response, error, pure, tell, unwrap, ◌>>=◌, ◌>>◌}
use good_mitm.Filter.{get_regex}
use good_mitm.TextModify.{TextModify, set, complex, exec_action}
use good_mitm.HeaderModify.{MapModify, modify_header}
use good_mitm.CookieModify.{req_cookie_headers, res_cookie_headers}

pub data Modify : Type 0 where
  url : TextModify → Modify
  header : MapModify → Modify
  cookie_of : MapModify → Modify
  body_text : TextModify → Modify

-- `StatusCode::BAD_GATEWAY`
abbrev pub bad_gateway : ℕ
bad_gateway = 502

module _ (E : Env) where
  -- Whether the headers say that the body is a text or a script.
  unfoldable pub is_text : E.HeaderMap → Bool
  is_text headers = elim (E.headers_get (E.standard content_type) headers) [
    | none ↦ false
    | some value ↦
        let kind = unwrap_or [] (E.value_to_str value) in
        contains kind (codes "text") || contains kind (codes "javascript")
  ]

  set_uri : Request E → Result E.Uri Text → Io E (Request E)
  set_uri req (ok uri) = pure (record req { uri = uri })
  set_uri req (err e) = do tell (error (codes "url modify error: " ++ e)); pure req

  unfoldable pub modify_req_url : TextModify → Request E → Io E (Request E)
  unfolding set_uri
  modify_req_url md req = do
    new_url ← exec_action E md (E.uri_to_string req.uri)
    set_uri req (E.uri_from_str new_url)

  -- The bytes of a body with the text in them changed, if they are a text.
  modify_bytes : TextModify → List ℕ → Io E (List ℕ)
  modify_bytes bm content = elim (from_utf8 content) [
    | none ↦ pure content
    | some text ↦ exec_action E bm text
  ]

  read_req : TextModify → Request E → Result (List ℕ) Text → Io E (Option (Request E))
  unfolding modify_bytes
  read_req bm req (err e) = pure none
  read_req bm req (ok content) = do
    bytes ← modify_bytes bm content
    pure (some (record req { body = E.body_from bytes }))

  unfoldable pub modify_req_body : TextModify → Request E → Io E (Option (Request E))
  unfolding is_text read_req
  modify_req_body bm req =
      if is_text req.headers then read_req bm req (E.to_bytes req.body) else pure (some req)

  -- `Response::builder()` with a status and a body.
  abbrev pub build_response : ℕ → E.Body → Response E
  build_response status body = record {
    status = status;
    version = E.version_default;
    headers = E.headers_empty;
    body = body;
  }

  read_res : TextModify → Response E → Result (List ℕ) Text → Io E (Response E)
  unfolding modify_bytes
  read_res bm res (err e) = pure (build_response bad_gateway (E.body_from e))
  read_res bm res (ok content) = do
    bytes ← modify_bytes bm content
    pure (record res { body = E.body_from bytes })

  unfoldable pub modify_res_body : TextModify → Response E → Io E (Response E)
  unfolding is_text read_res
  modify_res_body bm res =
      if is_text res.headers then read_res bm res (E.to_bytes res.body) else pure res

  unfoldable pub modify_req : Modify → Request E → Io E (Option (Request E))
  unfolding modify_req_url modify_req_body modify_header req_cookie_headers
  modify_req (url md) req = do r ← modify_req_url md req; pure (some r)
  modify_req (body_text bm) req = modify_req_body bm req
  modify_req (header hm) req = do
    headers ← modify_header E hm req.headers
    pure (some (record req { headers = headers }))
  modify_req (cookie_of md) req = do
    headers ← req_cookie_headers E md req.headers
    pure (some (record req { headers = headers }))

  unfoldable pub modify_res : Modify → Response E → Io E (Response E)
  unfolding modify_res_body modify_header res_cookie_headers
  modify_res (body_text bm) res = modify_res_body bm res
  modify_res (header md) res = do
    headers ← modify_header E md res.headers
    pure (record res { headers = headers })
  modify_res (cookie_of md) res = do
    headers ← res_cookie_headers E md res.headers
    pure (record res { headers = headers })
  modify_res (url _) res = do tell (error (codes "modify response url not supported")); pure res
