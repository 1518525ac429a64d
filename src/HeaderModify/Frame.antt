-- ===== src/HeaderModify/Frame.antt =====
-- `modify_header` leaves every other header alone.
use good_mitm.Prelude.{
  ◌≡◌, ◌≢◌, refl, sym, Bool-cases, Option, none, some, Option-cases, inl, inr, [], unwrap_or, ap,
}
use good_mitm.Env.{Env}
use good_mitm.Env.Laws.{HeadersLaws}
use good_mitm.Io.{Io}
use good_mitm.Io.Ensures.{Ensures, Ensures-bind}
use good_mitm.TextModify.{TextModify, exec_action}
use good_mitm.HeaderModify.{
  MapModify, modify_header, modify_value, modify_present, remove_key, new_value,
}

module _ (E : Env) (laws : HeadersLaws E) (m : E.HeaderName) (headers : E.HeaderMap) where
  -- The header `m` is in the result what it was.
  abbrev pub Keeps : Io E E.HeaderMap → Type 0
  Keeps = Ensures (λ after. E.headers_get_all m after ≡ E.headers_get_all m headers)

  remove_key-Keeps :
      (name : Option E.HeaderName)
      → name ≢ some m
      → E.headers_get_all m (remove_key E name headers) ≡ E.headers_get_all m headers
  unfolding remove_key
  remove_key-Keeps none apart = refl
  remove_key-Keeps (some n) apart =
      laws.get_all-remove_ne n m headers (λ e. apart (ap some (sym e)))

  modify_value-Keeps :
      (t : TextModify) (name : Option E.HeaderName)
      → name ≢ some m
      → Keeps (modify_value E t name headers)
  unfolding modify_value
  modify_value-Keeps t none apart = Ensures-bind _ (exec_action E t []) _ (λ _ _. tt)
  modify_value-Keeps t (some n) apart =
      let other = λ (e : m ≡ n). apart (ap some (sym e)) in
      elim (Option-cases (E.headers_get n headers)) [
        | inl absent ↦
            rw (absent, modify_value)
              (Ensures-bind _ (new_value E t []) _
                (λ v _. laws.get_all-append_ne n m v headers other))
        | inr (h, present) ↦
            rw (present, modify_value)
              (Ensures-bind _ (new_value E t (unwrap_or [] (E.value_to_str h))) _
                (λ v _. laws.get_all-set_first_ne n m v headers other))
      ]

  -- A header that the key does not name is the same after `modify_header`, if that does not panic.
  pub modify_header-Keeps :
      (md : MapModify) → E.name_from_str md.key ≢ some m → Keeps (modify_header E md headers)
  unfolding modify_header
  modify_header-Keeps md apart = elim (Bool-cases md.remove) [
    | inl removes ↦ rw (removes, modify_header) (remove_key-Keeps (E.name_from_str md.key) apart)
    | inr sets ↦
        rw (sets, modify_header)
          (elim (Option-cases md.value) [
            | inl nothing ↦ rw (nothing, modify_present) refl
            | inr (t, given) ↦
                rw (given, modify_present) (modify_value-Keeps t (E.name_from_str md.key) apart)
          ])
  ]
