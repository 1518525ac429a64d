-- ===== src/Js/Scripted.antt =====
-- What a script cannot change.
use good_mitm.Prelude.{ℕ, ◌≡◌, refl, Option, none, some, List}
use good_mitm.Text.{Text}
use good_mitm.Env.{Env, JsValue, undefined, other, string, object}
use good_mitm.Io.{Request, Response}
use good_mitm.Io.Ensures.{Ensures, Ensures-bind}
use good_mitm.Js.{
  modify_req, modify_res, take_request, take_response, returned_headers, returned_uri, js_get,
}
use good_mitm.Text.{codes}

module _ (E : Env) where
  -- The same method and version.
  abbrev pub SameLine : Request E → Request E → Type 0
  SameLine req r = (r.method ≡ req.method) × (r.version ≡ req.version)

  abbrev pub SameLineIfSome : Request E → Option (Request E) → Type 0
  SameLineIfSome req none = Unit
  SameLineIfSome req (some r) = SameLine req r

  abbrev pub SameStatusIfSome : Response E → Option (Response E) → Type 0
  SameStatusIfSome res none = Unit
  SameStatusIfSome res (some r) = (r.status ≡ res.status) × (r.version ≡ res.version)

  take_request-SameLine :
      (req : Request E) (bytes : List ℕ) (v : Option JsValue)
      → Ensures (SameLineIfSome req) (take_request E req bytes v)
  unfolding take_request
  take_request-SameLine req bytes none = tt
  take_request-SameLine req bytes (some undefined) = tt
  take_request-SameLine req bytes (some other) = tt
  take_request-SameLine req bytes (some (string s)) = tt
  take_request-SameLine req bytes (some (object o)) =
      Ensures-bind _ (returned_headers E (js_get (codes "headers") o) req.headers) _ (λ h _.
        Ensures-bind (SameLineIfSome req) (returned_uri E (js_get (codes "url") o) req.uri) _
          (λ u _. (refl, refl)))

  -- If running a script on a request does not panic and gives a request, this has the method
  -- and the version of the old one.
  pub modify_req-SameLine :
      (code : Text) (req : Request E) → Ensures (SameLineIfSome req) (modify_req E code req)
  unfolding modify_req
  modify_req-SameLine code req = take_request-SameLine req _ _

  take_response-SameStatus :
      (res : Response E) (bytes : List ℕ) (v : Option JsValue)
      → Ensures (SameStatusIfSome res) (take_response E res bytes v)
  unfolding take_response
  take_response-SameStatus res bytes none = tt
  take_response-SameStatus res bytes (some undefined) = tt
  take_response-SameStatus res bytes (some other) = tt
  take_response-SameStatus res bytes (some (string s)) = tt
  take_response-SameStatus res bytes (some (object o)) =
      Ensures-bind _ (returned_headers E (js_get (codes "headers") o) res.headers) _
        (λ h _. (refl, refl))

  -- If running a script on a response does not panic and gives a response, this has the status
  -- and the version of the old one.
  modify_res-SameStatus :
      (code : Text) (res : Response E) → Ensures (SameStatusIfSome res) (modify_res E code res)
  unfolding modify_res
  modify_res-SameStatus code res = take_response-SameStatus res _ _
