-- ===== src/HeaderModify/Quiet.antt =====
-- Changes of headers send nothing and start nothing.
use good_mitm.Prelude.{Option, none, some, Option-cases, Bool-cases, inl, inr, [], unwrap_or}
use good_mitm.Text.{Text}
use good_mitm.Env.{Env}
use good_mitm.Io.Local.{OnlyLogs, OnlyLogs-bind, OnlyLogs-unwrap}
use good_mitm.TextModify.{TextModify, exec_action}
use good_mitm.TextModify.Quiet.{exec_action-OnlyLogs}
use good_mitm.HeaderModify.{MapModify, new_value, modify_value, modify_present, modify_header}

module _ (E : Env) where
  new_value-OnlyLogs : (t : TextModify) (old : Text) → OnlyLogs (new_value E t old)
  unfolding new_value
  new_value-OnlyLogs t old =
      OnlyLogs-bind (exec_action E t old) _ (exec_action-OnlyLogs E t old)
        (λ text. OnlyLogs-unwrap E (E.value_from_str text))

  modify_value-OnlyLogs :
      (t : TextModify) (name : Option E.HeaderName) (headers : E.HeaderMap)
      → OnlyLogs (modify_value E t name headers)
  unfolding modify_value
  modify_value-OnlyLogs t none headers =
      OnlyLogs-bind (exec_action E t []) _ (exec_action-OnlyLogs E t []) (λ _. tt)
  modify_value-OnlyLogs t (some n) headers = elim (Option-cases (E.headers_get n headers)) [
    | inl absent ↦
        rw (absent, modify_value)
          (OnlyLogs-bind (new_value E t []) _ (new_value-OnlyLogs t []) (λ _. tt))
    | inr (v, present) ↦
        let old = unwrap_or [] (E.value_to_str v) in
        rw (present, modify_value)
          (OnlyLogs-bind (new_value E t old) _ (new_value-OnlyLogs t old) (λ _. tt))
  ]

  modify_present-OnlyLogs :
      (key : Text) (value : Option TextModify) (headers : E.HeaderMap)
      → OnlyLogs (modify_present E key value headers)
  unfolding modify_present
  modify_present-OnlyLogs key none headers = tt
  modify_present-OnlyLogs key (some t) headers =
      modify_value-OnlyLogs t (E.name_from_str key) headers

  pub modify_header-OnlyLogs :
      (md : MapModify) (headers : E.HeaderMap) → OnlyLogs (modify_header E md headers)
  unfolding modify_header
  modify_header-OnlyLogs md headers = elim (Bool-cases md.remove) [
    | inl removes ↦ rw (removes, modify_header) tt
    | inr sets ↦ rw (sets, modify_header) (modify_present-OnlyLogs md.key md.value headers)
  ]
