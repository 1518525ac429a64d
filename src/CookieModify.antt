-- ===== src/CookieModify.antt =====
-- The `Cookie` cases of `modify_req` and `modify_res`, of crates/rule/src/action/modify.rs
pub mod Quiet
pub mod Jars
pub mod Rereads
use good_mitm.Prelude.{Option, none, some, List, [], ◌∷◌, map, if◌then◌else◌, unwrap_or, or_else}
use good_mitm.Text.{Text, codes, split, join}
use good_mitm.Env.{Env, cookie, set_cookie}
use good_mitm.Io.{Io, pure, unwrap, ◌>>=◌}
use good_mitm.TextModify.{TextModify, exec_action}
use good_mitm.HeaderModify.{MapModify}

module _ (E : Env) where
  -- Every piece that is a cookie goes into the jar.
  add_cookies : List Text → E.CookieJar → E.CookieJar
  add_cookies [] jar = jar
  add_cookies (c ∷ more) jar = elim (E.cookie_parse c) [
    | none ↦ add_cookies more jar
    | some parsed ↦ add_cookies more (E.jar_add parsed jar)
  ]

  pub read_cookies : Option E.HeaderValue → Io E E.CookieJar
  unfolding add_cookies
  read_cookies none = pure E.jar_new
  read_cookies (some cookies) = do
    text ← unwrap (E.value_to_str cookies)
    pure (add_cookies (split (codes "; ") text) E.jar_new)

  read_set_cookies : List E.HeaderValue → E.CookieJar → Io E E.CookieJar
  read_set_cookies [] jar = pure jar
  read_set_cookies (sc ∷ more) jar = do
    text ← unwrap (E.value_to_str sc)
    read_set_cookies more
        (elim (E.cookie_parse text) [ none ↦ jar | some parsed ↦ E.jar_add parsed jar ])

  -- The value that the new cookie gets, from the old value.
  pub new_cookie_value : Option TextModify → Text → Io E Text
  new_cookie_value none origin = pure []
  new_cookie_value (some text_md) origin = exec_action E text_md origin

  abbrev pub cookie_value_of : Text → E.CookieJar → Option Text
  cookie_value_of key jar = elim (E.jar_get key jar) [
    | none ↦ none
    | some c ↦ some (E.cookie_value c)
  ]

  -- The jar of a request after the change.
  unfoldable pub modify_jar : MapModify → E.CookieJar → Io E E.CookieJar
  unfolding new_cookie_value
  modify_jar md jar = if md.remove then pure (E.jar_remove (E.cookie_named md.key) jar) else do
    value ← new_cookie_value md.value (unwrap_or [] (cookie_value_of md.key jar))
    pure (E.jar_add (E.cookie_new md.key value) jar)

  -- The two jars of a response after the change.
  unfoldable pub modify_jars :
      MapModify → E.CookieJar → E.CookieJar → Io E (E.CookieJar × E.CookieJar)
  unfolding new_cookie_value
  modify_jars md cookies set_cookies =
      if md.remove
      then pure (
        E.jar_remove (E.cookie_named md.key) cookies,
        E.jar_remove (E.cookie_named md.key) set_cookies,
      )
      else do
        value ← new_cookie_value md.value (
            unwrap_or []
              (or_else (cookie_value_of md.key cookies) (cookie_value_of md.key set_cookies)))
        pure (
          E.jar_add (E.cookie_new md.key value) cookies,
          E.jar_add (E.cookie_new md.key value) set_cookies,
        )

  -- The `Cookie` header for a jar.
  unfoldable pub cookie_header : E.CookieJar → Text
  cookie_header jar = join (codes "; ") (map E.cookie_to_string (E.jar_iter jar))

  append_set_cookies : List E.Cookie → E.HeaderMap → Io E E.HeaderMap
  append_set_cookies [] headers = pure headers
  append_set_cookies (sc ∷ more) headers = do
    value ← unwrap (E.value_from_str (E.cookie_to_string sc))
    append_set_cookies more (E.headers_append (E.standard set_cookie) value headers)

  unfoldable pub req_cookie_headers : MapModify → E.HeaderMap → Io E E.HeaderMap
  unfolding read_cookies modify_jar cookie_header
  req_cookie_headers md headers = do
    jar ← read_cookies (E.headers_get (E.standard cookie) headers)
    jar' ← modify_jar md jar
    value ← unwrap (E.value_from_str (cookie_header jar'))
    pure (E.headers_insert (E.standard cookie) value headers)

  unfoldable pub res_cookie_headers : MapModify → E.HeaderMap → Io E E.HeaderMap
  unfolding read_cookies read_set_cookies modify_jars cookie_header append_set_cookies
  res_cookie_headers md headers = do
    jar ← read_cookies (E.headers_get (E.standard cookie) headers)
    set_jar ← read_set_cookies (E.headers_get_all (E.standard set_cookie) headers) E.jar_new
    jars ← modify_jars md jar set_jar
    value ← unwrap (E.value_from_str (cookie_header jars.0))
    let inserted = E.headers_insert (E.standard cookie) value headers
    append_set_cookies (E.jar_iter jars.1) (E.headers_remove (E.standard set_cookie) inserted)
