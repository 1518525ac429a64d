-- ===== src/HeaderModify.antt =====
-- `MapModify` and `modify_header`, of crates/rule/src/action/modify.rs
pub mod Quiet
pub mod Frame
pub mod Effects
use good_mitm.Prelude.{
  ℕ, Bool, true, false, ◌||◌, Option, none, some, List, [], ◌∷◌, ◌++◌, map, if◌then◌else◌,
  unwrap_or, or_else,
}
use good_mitm.Text.{Text, codes, contains, replace, split, join, from_utf8}
use good_mitm.Env.{Env, ok, err, Standard, content_type, cookie, set_cookie}
use good_mitm.Io.{Io, Request, Response, error, pure, crash, tell, unwrap, ◌>>=◌, ◌>>◌}
use good_mitm.Filter.{get_regex}
use good_mitm.TextModify.{TextModify, set, complex, exec_action}

pub record MapModify : Type 0 where
  pub key : Text
  pub value : Option TextModify
  pub remove : Bool

module _ (E : Env) where
  -- The new value of a header, from the text of the old one.
  unfoldable pub new_value : TextModify → Text → Io E E.HeaderValue
  new_value text_md old = do
    new_header_value ← exec_action E text_md old
    unwrap (E.value_from_str new_header_value)

  -- The write at one key, by the name it is parsed to.
  modify_value : TextModify → Option E.HeaderName → E.HeaderMap → Io E E.HeaderMap
  unfolding new_value
  -- the key is no name of a header: there is no such header, and none can be added
  modify_value text_md none headers = do exec_action E text_md []; crash
  modify_value text_md (some name) headers = elim (E.headers_get name headers) [
    | some h ↦ do
      value ← new_value text_md (unwrap_or [] (E.value_to_str h))
      pure (E.headers_set_first name value headers)
    | none ↦ do value ← new_value text_md []; pure (E.headers_append name value headers)
  ]

  modify_present : Text → Option TextModify → E.HeaderMap → Io E E.HeaderMap
  unfolding modify_value
  modify_present key none headers = pure headers
  modify_present key (some text_md) headers = modify_value text_md (E.name_from_str key) headers

  remove_key : Option E.HeaderName → E.HeaderMap → E.HeaderMap
  remove_key none headers = headers
  remove_key (some name) headers = E.headers_remove name headers

  unfoldable pub modify_header : MapModify → E.HeaderMap → Io E E.HeaderMap
  unfolding modify_present remove_key
  modify_header md headers =
      if md.remove
      then pure (remove_key (E.name_from_str md.key) headers)
      else modify_present md.key md.value headers
