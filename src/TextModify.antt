-- ===== src/TextModify.antt =====
-- `TextModify`, of crates/rule/src/action/modify.rs
pub mod Quiet
pub mod Replacing
use good_mitm.Prelude.{
  ℕ, Bool, true, false, ◌||◌, Option, none, some, List, [], ◌∷◌, ◌++◌, map, if◌then◌else◌,
  unwrap_or, or_else,
}
use good_mitm.Text.{Text, codes, contains, replace, split, join, from_utf8}
use good_mitm.Env.{Env, ok, err, Standard, content_type, cookie, set_cookie}
use good_mitm.Io.{Io, Request, Response, error, pure, tell, unwrap, ◌>>=◌, ◌>>◌}
use good_mitm.Filter.{get_regex}

pub record TextModifyComplex : Type 0 where
  pub origin : Option Text
  pub re : Option Text
  pub new : Text

pub data TextModify : Type 0 where
  set : Text → TextModify
  complex : TextModifyComplex → TextModify

module _ (E : Env) where
  exec_complex : TextModifyComplex → Option Text → Option Text → Text → Io E Text
  exec_complex md (some origin) re text = pure (replace text origin md.new)
  exec_complex md none (some re) text = do
    compiled ← get_regex E re
    unwrap (E.regex_replace_all compiled text md.new)
  exec_complex md none none text = pure md.new

  unfoldable pub exec_action : TextModify → Text → Io E Text
  unfolding exec_complex
  exec_action (set new) text = pure new
  exec_action (complex md) text = exec_complex md md.origin md.re text
