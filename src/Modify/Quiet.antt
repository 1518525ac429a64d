-- ===== src/Modify/Quiet.antt =====
-- Changes of requests and responses send nothing and start nothing.
use good_mitm.Prelude.{ℕ, Option-cases, Bool-cases, inl, inr, List}
use good_mitm.Text.{Text, from_utf8}
use good_mitm.Env.{Env, Result, ok, err}
use good_mitm.Io.{Request, Response}
use good_mitm.Io.Local.{OnlyLogs, OnlyLogs-bind}
use good_mitm.TextModify.{TextModify, exec_action}
use good_mitm.TextModify.Quiet.{exec_action-OnlyLogs}
use good_mitm.HeaderModify.{modify_header}
use good_mitm.HeaderModify.Quiet.{modify_header-OnlyLogs}
use good_mitm.CookieModify.{req_cookie_headers, res_cookie_headers}
use good_mitm.CookieModify.Quiet.{req_cookie_headers-OnlyLogs, res_cookie_headers-OnlyLogs}
use good_mitm.Modify.{
  Modify, url, header, cookie_of, body_text, is_text, set_uri, modify_req_url, modify_bytes,
  read_req, modify_req_body, read_res, modify_res_body, modify_req, modify_res,
}

module _ (E : Env) where
  set_uri-OnlyLogs : (req : Request E) (r : Result E.Uri Text) → OnlyLogs (set_uri E req r)
  unfolding set_uri
  set_uri-OnlyLogs req (ok uri) = tt
  set_uri-OnlyLogs req (err e) = (tt, tt)

  modify_bytes-OnlyLogs : (t : TextModify) (content : List ℕ) → OnlyLogs (modify_bytes E t content)
  unfolding modify_bytes
  modify_bytes-OnlyLogs t content = elim (Option-cases (from_utf8 content)) [
    | inl bad ↦ rw (bad, modify_bytes) tt
    | inr (text, good) ↦ rw (good, modify_bytes) (exec_action-OnlyLogs E t text)
  ]

  read_req-OnlyLogs :
      (t : TextModify) (req : Request E) (r : Result (List ℕ) Text) → OnlyLogs (read_req E t req r)
  unfolding read_req
  read_req-OnlyLogs t req (err e) = tt
  read_req-OnlyLogs t req (ok content) =
      OnlyLogs-bind (modify_bytes E t content) _ (modify_bytes-OnlyLogs t content) (λ _. tt)

  read_res-OnlyLogs :
      (t : TextModify) (res : Response E) (r : Result (List ℕ) Text) → OnlyLogs (read_res E t res r)
  unfolding read_res
  read_res-OnlyLogs t res (err e) = tt
  read_res-OnlyLogs t res (ok content) =
      OnlyLogs-bind (modify_bytes E t content) _ (modify_bytes-OnlyLogs t content) (λ _. tt)

  modify_req_url-OnlyLogs : (t : TextModify) (req : Request E) → OnlyLogs (modify_req_url E t req)
  unfolding modify_req_url
  modify_req_url-OnlyLogs t req =
      let old = E.uri_to_string req.uri in
      OnlyLogs-bind (exec_action E t old) _ (exec_action-OnlyLogs E t old)
        (λ text. set_uri-OnlyLogs req (E.uri_from_str text))

  pub modify_req-OnlyLogs : (md : Modify) (req : Request E) → OnlyLogs (modify_req E md req)
  unfolding modify_req
  modify_req-OnlyLogs (url t) req =
      OnlyLogs-bind (modify_req_url E t req) _ (modify_req_url-OnlyLogs t req) (λ _. tt)
  modify_req-OnlyLogs (header hm) req =
      OnlyLogs-bind (modify_header E hm req.headers) _ (modify_header-OnlyLogs E hm req.headers)
        (λ _. tt)
  modify_req-OnlyLogs (cookie_of md) req =
      OnlyLogs-bind (req_cookie_headers E md req.headers) _
        (req_cookie_headers-OnlyLogs E md req.headers) (λ _. tt)
  modify_req-OnlyLogs (body_text t) req = elim (Bool-cases (is_text E req.headers)) [
    | inl text ↦ rw (text, modify_req_body) (read_req-OnlyLogs t req (E.to_bytes req.body))
    | inr other ↦ rw (other, modify_req_body) tt
  ]

  pub modify_res-OnlyLogs : (md : Modify) (res : Response E) → OnlyLogs (modify_res E md res)
  unfolding modify_res
  modify_res-OnlyLogs (url t) res = (tt, tt)
  modify_res-OnlyLogs (header hm) res =
      OnlyLogs-bind (modify_header E hm res.headers) _ (modify_header-OnlyLogs E hm res.headers)
        (λ _. tt)
  modify_res-OnlyLogs (cookie_of md) res =
      OnlyLogs-bind (res_cookie_headers E md res.headers) _
        (res_cookie_headers-OnlyLogs E md res.headers) (λ _. tt)
  modify_res-OnlyLogs (body_text t) res = elim (Bool-cases (is_text E res.headers)) [
    | inl text ↦ rw (text, modify_res_body) (read_res-OnlyLogs t res (E.to_bytes res.body))
    | inr other ↦ rw (other, modify_res_body) tt
  ]
