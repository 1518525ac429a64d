-- ===== src/TextModify/Quiet.antt =====
-- Changes of texts send nothing and start nothing.
use good_mitm.Prelude.{Option, none, some}
use good_mitm.Text.{Text}
use good_mitm.Env.{Env}
use good_mitm.Io.Local.{OnlyLogs, OnlyLogs-bind, OnlyLogs-unwrap}
use good_mitm.Filter.{get_regex}
use good_mitm.Filter.Quiet.{get_regex-OnlyLogs}
use good_mitm.TextModify.{TextModify, TextModifyComplex, set, complex, exec_complex, exec_action}

module _ (E : Env) where
  exec_complex-OnlyLogs :
      (md : TextModifyComplex) (origin re : Option Text) (text : Text)
      → OnlyLogs (exec_complex E md origin re text)
  unfolding exec_complex
  exec_complex-OnlyLogs md (some o) re text = tt
  exec_complex-OnlyLogs md none none text = tt
  exec_complex-OnlyLogs md none (some re) text =
      OnlyLogs-bind (get_regex E re) _ (get_regex-OnlyLogs E re)
        (λ r. OnlyLogs-unwrap E (E.regex_replace_all r text md.new))

  pub exec_action-OnlyLogs : (t : TextModify) (text : Text) → OnlyLogs (exec_action E t text)
  unfolding exec_action
  exec_action-OnlyLogs (set new) text = tt
  exec_action-OnlyLogs (complex md) text = exec_complex-OnlyLogs md md.origin md.re text
