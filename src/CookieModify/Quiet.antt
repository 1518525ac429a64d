-- ===== src/CookieModify/Quiet.antt =====
-- Changes of cookies send nothing and start nothing.
use good_mitm.Prelude.{Option, none, some, Bool-cases, inl, inr, List, [], ◌∷◌, unwrap_or, or_else}
use good_mitm.Text.{Text}
use good_mitm.Env.{Env, cookie, set_cookie}
use good_mitm.Io.{unwrap}
use good_mitm.Io.Local.{OnlyLogs, OnlyLogs-bind, OnlyLogs-unwrap}
use good_mitm.TextModify.{TextModify}
use good_mitm.TextModify.Quiet.{exec_action-OnlyLogs}
use good_mitm.HeaderModify.{MapModify}
use good_mitm.CookieModify.{
  read_cookies, read_set_cookies, new_cookie_value, cookie_value_of, modify_jar, modify_jars,
  cookie_header, append_set_cookies, req_cookie_headers, res_cookie_headers,
}

module _ (E : Env) where
  read_cookies-OnlyLogs : (v : Option E.HeaderValue) → OnlyLogs (read_cookies E v)
  unfolding read_cookies
  read_cookies-OnlyLogs none = tt
  read_cookies-OnlyLogs (some v) =
      OnlyLogs-bind (unwrap (E.value_to_str v)) _ (OnlyLogs-unwrap E (E.value_to_str v)) (λ _. tt)

  read_set_cookies-OnlyLogs :
      (vs : List E.HeaderValue) (jar : E.CookieJar) → OnlyLogs (read_set_cookies E vs jar)
  unfolding read_set_cookies
  read_set_cookies-OnlyLogs [] jar = tt
  read_set_cookies-OnlyLogs (v ∷ more) jar =
      OnlyLogs-bind (unwrap (E.value_to_str v)) _ (OnlyLogs-unwrap E (E.value_to_str v))
        (λ text. read_set_cookies-OnlyLogs more _)

  new_cookie_value-OnlyLogs :
      (t : Option TextModify) (origin : Text) → OnlyLogs (new_cookie_value E t origin)
  unfolding new_cookie_value
  new_cookie_value-OnlyLogs none origin = tt
  new_cookie_value-OnlyLogs (some t) origin = exec_action-OnlyLogs E t origin

  modify_jar-OnlyLogs : (md : MapModify) (jar : E.CookieJar) → OnlyLogs (modify_jar E md jar)
  unfolding modify_jar
  modify_jar-OnlyLogs md jar =
      let origin = unwrap_or [] (cookie_value_of E md.key jar) in
      elim (Bool-cases md.remove) [
        | inl removes ↦ rw (removes, modify_jar) tt
        | inr sets ↦
            rw (sets, modify_jar)
              (OnlyLogs-bind (new_cookie_value E md.value origin) _
                (new_cookie_value-OnlyLogs md.value origin) (λ _. tt))
      ]

  modify_jars-OnlyLogs : (md : MapModify) (a b : E.CookieJar) → OnlyLogs (modify_jars E md a b)
  unfolding modify_jars
  modify_jars-OnlyLogs md a b =
      let origin =
        unwrap_or [] (or_else (cookie_value_of E md.key a) (cookie_value_of E md.key b)) in
      elim (Bool-cases md.remove) [
        | inl removes ↦ rw (removes, modify_jars) tt
        | inr sets ↦
            rw (sets, modify_jars)
              (OnlyLogs-bind (new_cookie_value E md.value origin) _
                (new_cookie_value-OnlyLogs md.value origin) (λ _. tt))
      ]

  append_set_cookies-OnlyLogs :
      (cs : List E.Cookie) (headers : E.HeaderMap) → OnlyLogs (append_set_cookies E cs headers)
  unfolding append_set_cookies
  append_set_cookies-OnlyLogs [] headers = tt
  append_set_cookies-OnlyLogs (c ∷ more) headers =
      let made = E.value_from_str (E.cookie_to_string c) in
      OnlyLogs-bind (unwrap made) _ (OnlyLogs-unwrap E made)
        (λ v. append_set_cookies-OnlyLogs more _)

  pub req_cookie_headers-OnlyLogs :
      (md : MapModify) (headers : E.HeaderMap) → OnlyLogs (req_cookie_headers E md headers)
  unfolding req_cookie_headers
  req_cookie_headers-OnlyLogs md headers =
      let had = E.headers_get (E.standard cookie) headers in
      OnlyLogs-bind (read_cookies E had) _ (read_cookies-OnlyLogs had) (λ jar.
        OnlyLogs-bind (modify_jar E md jar) _ (modify_jar-OnlyLogs md jar) (λ jar'.
          let made = E.value_from_str (cookie_header E jar') in
          OnlyLogs-bind (unwrap made) _ (OnlyLogs-unwrap E made) (λ _. tt)))

  pub res_cookie_headers-OnlyLogs :
      (md : MapModify) (headers : E.HeaderMap) → OnlyLogs (res_cookie_headers E md headers)
  unfolding res_cookie_headers
  res_cookie_headers-OnlyLogs md headers =
      let had = E.headers_get (E.standard cookie) headers in
      let sets = E.headers_get_all (E.standard set_cookie) headers in
      OnlyLogs-bind (read_cookies E had) _ (read_cookies-OnlyLogs had) (λ jar.
        OnlyLogs-bind (read_set_cookies E sets E.jar_new) _
          (read_set_cookies-OnlyLogs sets E.jar_new)
          (λ set_jar.
            OnlyLogs-bind (modify_jars E md jar set_jar) _ (modify_jars-OnlyLogs md jar set_jar)
              (λ jars.
                let made = E.value_from_str (cookie_header E jars.0) in
                OnlyLogs-bind (unwrap made) _ (OnlyLogs-unwrap E made)
                  (λ v. append_set_cookies-OnlyLogs (E.jar_iter jars.1) _))))
