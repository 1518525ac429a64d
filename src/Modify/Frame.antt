-- ===== src/Modify/Frame.antt =====
-- A change of one part of a message leaves the other parts alone.
use good_mitm.Prelude.{ℕ, ◌≡◌, refl, Bool-cases, Option, none, some, inl, inr, List, ◌⊎◌}
use good_mitm.Text.{Text}
use good_mitm.Env.{Env, Result, ok, err}
use good_mitm.Io.{Request, Response}
use good_mitm.Io.Ensures.{Ensures, Ensures-bind, Ensures-at}
use good_mitm.TextModify.{TextModify, exec_action}
use good_mitm.HeaderModify.{modify_header}
use good_mitm.CookieModify.{req_cookie_headers, res_cookie_headers}
use good_mitm.Modify.{
  Modify, url, header, cookie_of, body_text, modify_req, modify_res, modify_req_url,
  modify_req_body, modify_res_body, modify_bytes, set_uri, read_req, read_res, is_text,
}

pub data Part : Type 0 where
  uri headers body : Part

-- The part of a message that a change is about.
unfoldable pub target : Modify → Part
target (url _) = uri
target (header _) = headers
target (cookie_of _) = headers
target (body_text _) = body

module _ (E : Env) where
  -- Two requests that differ in the given part at most.
  abbrev pub SameBut : Part → Request E → Request E → Type 0
  SameBut uri r s = record r { uri = s.uri } ≡ s
  SameBut headers r s = record r { headers = s.headers } ≡ s
  SameBut body r s = record r { body = s.body } ≡ s

  -- Two responses that differ in the given part at most; there is no address in a response.
  abbrev pub SameResBut : Part → Response E → Response E → Type 0
  SameResBut uri r s = r ≡ s
  SameResBut headers r s = record r { headers = s.headers } ≡ s
  SameResBut body r s = record r { body = s.body } ≡ s

  -- `P` holds of the request, if there is one.
  abbrev pub IfSome : (Request E → Type 0) → Option (Request E) → Type 0
  IfSome P none = Unit
  IfSome P (some r) = P r

  set_uri-SameBut :
      (req : Request E) (r : Result E.Uri Text) → Ensures (SameBut uri req) (set_uri E req r)
  unfolding set_uri
  set_uri-SameBut req (ok u) = refl
  set_uri-SameBut req (err e) = refl

  read_req-SameBut :
      (bm : TextModify) (req : Request E) (r : Result (List ℕ) Text)
      → Ensures (IfSome (SameBut body req)) (read_req E bm req r)
  unfolding read_req
  read_req-SameBut bm req (err e) = tt
  read_req-SameBut bm req (ok content) =
      Ensures-bind _ (modify_bytes E bm content) _ (λ bytes _. refl)

  -- `modify_req`, if it does not panic and gives a request, changes no part of the request but the
  -- one that the change is about.
  pub modify_req-SameBut :
      (md : Modify) (req : Request E)
      → Ensures (IfSome (SameBut (target md) req)) (modify_req E md req)
  unfolding modify_req target
  modify_req-SameBut (url md) req = Ensures-bind _ (modify_req_url E md req) _ (λ r made.
      Ensures-at _ (modify_req_url E md req) made (
        Ensures-bind _ (exec_action E md (E.uri_to_string req.uri)) _
          (λ text _. set_uri-SameBut req (E.uri_from_str text))))
  modify_req-SameBut (header hm) req =
      Ensures-bind _ (modify_header E hm req.headers) _ (λ h _. refl)
  modify_req-SameBut (cookie_of md) req =
      Ensures-bind _ (req_cookie_headers E md req.headers) _ (λ h _. refl)
  modify_req-SameBut (body_text bm) req = elim (Bool-cases (is_text E req.headers)) [
    | inl text ↦ rw (text, modify_req_body) (read_req-SameBut bm req (E.to_bytes req.body))
    | inr other ↦ rw (other, modify_req_body) refl
  ]

  read_res-SameResBut :
      (bm : TextModify) (res : Response E) (r : Result (List ℕ) Text)
      → Ensures (λ s. SameResBut body res s ⊎ ((e : Text) × (r ≡ err e))) (read_res E bm res r)
  unfolding read_res
  read_res-SameResBut bm res (err e) = inr (e, refl)
  read_res-SameResBut bm res (ok content) =
      Ensures-bind _ (modify_bytes E bm content) _ (λ bytes _. inl refl)

  -- `modify_res`, if it does not panic, changes no part of the response but the one that the change
  -- is about, unless the body of the response cannot be read.
  pub modify_res-SameResBut :
      (md : Modify) (res : Response E)
      → Ensures
          (λ s. SameResBut (target md) res s ⊎ ((e : Text) × (E.to_bytes res.body ≡ err e)))
          (modify_res E md res)
  unfolding modify_res target
  modify_res-SameResBut (url md) res = inl refl
  modify_res-SameResBut (header hm) res =
      Ensures-bind _ (modify_header E hm res.headers) _ (λ h _. inl refl)
  modify_res-SameResBut (cookie_of md) res =
      Ensures-bind _ (res_cookie_headers E md res.headers) _ (λ h _. inl refl)
  modify_res-SameResBut (body_text bm) res = elim (Bool-cases (is_text E res.headers)) [
    | inl text ↦ rw (text, modify_res_body) (read_res-SameResBut bm res (E.to_bytes res.body))
    | inr other ↦ rw (other, modify_res_body) (inl refl)
  ]
