-- ===== src/HeaderModify/Effects.antt =====
-- What `modify_header` does at the header that its key names, and when it returns.
use good_mitm.Prelude.{
  ◌≡◌, refl, ◌∙◌, Bool-cases, Bool, true, false, Option, none, some, Option-cases, inl, inr, List,
  [], ◌∷◌, ◌++◌, unwrap_or, ap, head?,
}
use good_mitm.Text.{Text}
use good_mitm.Env.{Env}
use good_mitm.Env.Laws.{HeadersLaws}
use good_mitm.Io.{done}
use good_mitm.Io.Ensures.{Ensures, Ensures-bind, Returns, Returns-bind}
use good_mitm.TextModify.{TextModify}
use good_mitm.HeaderModify.{MapModify, modify_header, modify_value, modify_present, new_value}

module _ (E : Env) where
  -- The text that a change of the header starts from: that of its first value, or the empty one.
  abbrev pub first_text : List E.HeaderValue → Text
  first_text [] = []
  first_text (v ∷ rest) = unwrap_or [] (E.value_to_str v)

  -- The values that a change by `t` leaves of the old ones.
  abbrev pub ChangedBy : TextModify → List E.HeaderValue → List E.HeaderValue → Type 0
  ChangedBy t [] new = (v : E.HeaderValue) × ((new_value E t []).1 ≡ done v) × (new ≡ v ∷ [])
  ChangedBy t (old ∷ rest) new =
      (v : E.HeaderValue) × ((new_value E t (unwrap_or [] (E.value_to_str old))).1 ≡ done v)
      × (new ≡ v ∷ rest)

  abbrev pub ChangedTo : Bool → Option TextModify → List E.HeaderValue → List E.HeaderValue → Type 0
  ChangedTo true value old new = new ≡ []
  ChangedTo false none old new = new ≡ old
  ChangedTo false (some t) old new = ChangedBy t old new

  module _ (laws : HeadersLaws E) (n : E.HeaderName) (headers : E.HeaderMap) where
    -- The values of the header before the change.
    abbrev before : List E.HeaderValue
    before = E.headers_get_all n headers

    modify_value-ChangedBy :
        (t : TextModify) (old : List E.HeaderValue)
        → before ≡ old
        → Ensures
            (λ after. ChangedBy t old (E.headers_get_all n after))
            (modify_value E t (some n) headers)
    unfolding modify_value
    modify_value-ChangedBy t [] e =
        rw (laws.get-get_all n headers ∙ ap head? e, modify_value)
          (Ensures-bind _ (new_value E t []) _
            (λ v made. (v, made, laws.get_all-append n v headers ∙ ap (λ l. l ++ (v ∷ [])) e)))
    modify_value-ChangedBy t (old ∷ rest) e =
        rw (laws.get-get_all n headers ∙ ap head? e, modify_value)
          (Ensures-bind _ (new_value E t (unwrap_or [] (E.value_to_str old))) _
            (λ v made. (v, made, laws.get_all-set_first n v old rest headers e)))

    -- `modify_header` with a key that names the header `n`, if it does not panic, leaves no value of
    -- it when it removes, the old values when no value is given, and otherwise the old values with
    -- the first one changed, or the one new value where there was none.
    pub modify_header-ChangedTo :
        (md : MapModify)
        → E.name_from_str md.key ≡ some n
        → Ensures
            (λ after. ChangedTo md.remove md.value before (E.headers_get_all n after))
            (modify_header E md headers)
    unfolding modify_header
    modify_header-ChangedTo md named = elim (Bool-cases md.remove) [
      | inl removes ↦ rw (removes, named, modify_header) (laws.get_all-remove n headers)
      | inr sets ↦
          rw (sets, modify_header)
            (elim (Option-cases md.value) [
              | inl nothing ↦ rw (nothing, modify_present) refl
              | inr (t, given) ↦
                  rw (given, named, modify_present) (modify_value-ChangedBy t before refl)
            ])
    ]

    value-Returns :
        (t : TextModify) (old : List E.HeaderValue)
        → before ≡ old
        → Returns (new_value E t (first_text old))
        → Returns (modify_value E t (some n) headers)
    unfolding modify_value
    value-Returns t [] e (v, made) =
        rw (laws.get-get_all n headers ∙ ap head? e, modify_value)
          (Returns-bind (new_value E t []) _ made (_, refl))
    value-Returns t (old ∷ rest) e (v, made) =
        rw (laws.get-get_all n headers ∙ ap head? e, modify_value)
          (Returns-bind (new_value E t (unwrap_or [] (E.value_to_str old))) _ made (_, refl))

    -- If the key is a header's name, and the new value, where one is given, can be made,
    -- `modify_header` does not panic.
    pub modify_header-Returns :
        (md : MapModify)
        → E.name_from_str md.key ≡ some n
        → ((t : TextModify) → md.value ≡ some t → Returns (new_value E t (first_text before)))
        → Returns (modify_header E md headers)
    unfolding modify_header
    modify_header-Returns md named good = elim (Bool-cases md.remove) [
      | inl removes ↦ rw (removes, modify_header) (_, refl)
      | inr sets ↦
          rw (sets, modify_header)
            (elim (Option-cases md.value) [
              | inl nothing ↦ rw (nothing, modify_present) (_, refl)
              | inr (t, given) ↦
                  rw (given, named, modify_present) (value-Returns t before refl (good t given))
            ])
    ]
