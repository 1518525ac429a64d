-- ===== src/CookieModify/Jars.antt =====
-- What a change of a cookie does to a jar.
use good_mitm.Prelude.{
  ◌≡◌, ◌≢◌, ◌⊎◌, sym, ap, ◌∙◌, true, false, Bool-cases, inl, inr, none, some, [], unwrap_or,
  or_else,
}
use good_mitm.Text.{Text}
use good_mitm.Env.{Env}
use good_mitm.Env.Laws.{CookieLaws}
use good_mitm.Io.{done}
use good_mitm.Io.Ensures.{Ensures, Ensures-bind}
use good_mitm.HeaderModify.{MapModify}
use good_mitm.CookieModify.{new_cookie_value, cookie_value_of, modify_jar, modify_jars}

module _ (E : Env) (laws : CookieLaws E) (md : MapModify) where
  -- From the jar, with the text that the new value is made of: the cookie is gone, or it is a new one
  -- with the value that the change makes, and every other cookie is what it was.
  pub record JarChanged (origin : Text) (jar jar' : E.CookieJar) : Type 0 where
    pub at_key :
        ((md.remove ≡ true) × (E.jar_get md.key jar' ≡ none))
        ⊎ ((v : Text) × (md.remove ≡ false)
            × ((new_cookie_value E md.value origin).1 ≡ done v)
            × (E.jar_get md.key jar' ≡ some (E.cookie_new md.key v)))
    pub others : (k : Text) → k ≢ md.key → E.jar_get k jar' ≡ E.jar_get k jar

  removed :
      (origin : Text) (jar : E.CookieJar)
      → md.remove ≡ true
      → JarChanged origin jar (E.jar_remove (E.cookie_named md.key) jar)
  removed origin jar removes = record {
    at_key = inl (
      removes,
      ap (λ k. E.jar_get k (E.jar_remove (E.cookie_named md.key) jar))
            (sym (laws.name-named md.key))
          ∙ laws.get-remove (E.cookie_named md.key) jar,
    );
    others = λ k other.
        laws.get-remove_ne k (E.cookie_named md.key) jar (λ e. other (e ∙ laws.name-named md.key));
  }

  added :
      (origin v : Text) (jar : E.CookieJar)
      → md.remove ≡ false
      → (new_cookie_value E md.value origin).1 ≡ done v
      → JarChanged origin jar (E.jar_add (E.cookie_new md.key v) jar)
  added origin v jar sets made = record {
    at_key = inr (
      v,
      sets,
      made,
      ap (λ k. E.jar_get k (E.jar_add (E.cookie_new md.key v) jar)) (sym (laws.name-new md.key v))
          ∙ laws.get-add (E.cookie_new md.key v) jar,
    );
    others = λ k other.
        laws.get-add_ne k (E.cookie_new md.key v) jar (λ e. other (e ∙ laws.name-new md.key v));
  }

  -- If the change of a request's cookies does not panic, the jar has lost the cookie of the key, or
  -- has it with the value that the change makes of the old one; every other cookie is what it was.
  modify_jar-JarChanged :
      (jar : E.CookieJar)
      → Ensures (JarChanged (unwrap_or [] (cookie_value_of E md.key jar)) jar) (modify_jar E md jar)
  unfolding modify_jar
  modify_jar-JarChanged jar =
      let origin = unwrap_or [] (cookie_value_of E md.key jar) in
      elim (Bool-cases md.remove) [
        | inl removes ↦ simp removes (removed origin jar removes)
        | inr sets ↦ simp sets (
            Ensures-bind _ (new_cookie_value E md.value origin) _
              (λ v made. added origin v jar sets made))
      ]

  -- If the change of a response's cookies does not panic, both its jars are changed so, with one new
  -- value, which is made of the old one in the first jar that has the cookie.
  pub modify_jars-JarChanged :
      (jar set_jar : E.CookieJar)
      → Ensures
          (λ jars.
            JarChanged
              (unwrap_or []
                (or_else (cookie_value_of E md.key jar) (cookie_value_of E md.key set_jar)))
              jar
              jars.0
            × JarChanged
                (unwrap_or []
                  (or_else (cookie_value_of E md.key jar) (cookie_value_of E md.key set_jar)))
                set_jar
                jars.1)
          (modify_jars E md jar set_jar)
  unfolding modify_jars
  modify_jars-JarChanged jar set_jar =
      let origin =
        unwrap_or [] (or_else (cookie_value_of E md.key jar) (cookie_value_of E md.key set_jar)) in
      elim (Bool-cases md.remove) [
        | inl removes ↦ simp removes (removed origin jar removes, removed origin set_jar removes)
        | inr sets ↦ simp sets (
            Ensures-bind _ (new_cookie_value E md.value origin) _
              (λ v made. (added origin v jar sets made, added origin v set_jar sets made)))
      ]
