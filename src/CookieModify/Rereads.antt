-- ===== src/CookieModify/Rereads.antt =====
-- The `Cookie` header that is written, read back.
use mathlib.Core.Path.{subst}
use mathlib.Core.List.{Memᴰ}
use good_mitm.Prelude.{
  ◌≡◌, refl, sym, ◌∙◌, ap, All, Bool-cases, Option-cases, inl, inr, true, Option, some, List, [],
  ◌∷◌, map,
}
use good_mitm.Text.Laws.{eq_sound, eq_refl}
use good_mitm.Env.Laws.{CookieLaws}
use good_mitm.Text.{Text, eq, codes, split, join}
use good_mitm.Text.Split.{IsPlain, split-join}
use good_mitm.Env.{Env}
use good_mitm.Io.{pure}
use good_mitm.CookieModify.{add_cookies, read_cookies, cookie_header}

module _ (E : Env) where
  -- The cookies, put into the jar one after the other.
  abbrev pub put_all : List E.Cookie → E.CookieJar → E.CookieJar
  put_all [] jar = jar
  put_all (c ∷ more) jar = put_all more (E.jar_add c jar)

  -- The text of the cookie has no semicolon, and is parsed as the cookie.
  pub record IsReadable (c : E.Cookie) : Type 0 where
    pub plain : IsPlain (E.cookie_to_string c)
    pub parses : E.cookie_parse (E.cookie_to_string c) ≡ some c

  All-IsPlain : (cs : List E.Cookie) → All IsReadable cs → All IsPlain (map E.cookie_to_string cs)
  All-IsPlain [] h = tt
  All-IsPlain (c ∷ cs) (r, h) = (r.plain, All-IsPlain cs h)

  add_cookies-put_all :
      (cs : List E.Cookie) (jar : E.CookieJar)
      → All IsReadable cs
      → add_cookies E (map E.cookie_to_string cs) jar ≡ put_all cs jar
  unfolding add_cookies
  add_cookies-put_all [] jar h = refl
  add_cookies-put_all (c ∷ cs) jar (r, h) =
      rw (r.parses, add_cookies) (add_cookies-put_all cs (E.jar_add c jar) h)

  -- A `Cookie` header with the text for a jar is read as the cookies of the jar.
  read_cookies-cookie_header :
      (jar : E.CookieJar) (v : E.HeaderValue) (c : E.Cookie) (cs : List E.Cookie)
      → E.value_to_str v ≡ some (cookie_header E jar)
      → E.jar_iter jar ≡ c ∷ cs
      → All IsReadable (c ∷ cs)
      → read_cookies E (some v) ≡ pure (put_all (c ∷ cs) E.jar_new)
  unfolding read_cookies cookie_header
  read_cookies-cookie_header jar v c cs text items h =
      let pieces : split (codes "; ") (join (codes "; ") (map E.cookie_to_string (E.jar_iter jar)))
          ≡ map E.cookie_to_string (c ∷ cs) =
        ap (λ l. split (codes "; ") (join (codes "; ") (map E.cookie_to_string l))) items
        ∙ split-join (E.cookie_to_string c) (map E.cookie_to_string cs) (All-IsPlain (c ∷ cs) h) in
      rw (text, read_cookies, pieces, add_cookies-put_all (c ∷ cs) E.jar_new h) refl

  module _ (laws : CookieLaws E) where
    -- What the jar lists is what it holds.
    pub record IsListed (jar : E.CookieJar) : Type 0 where
      pub holds : All (λ c. E.jar_get (E.cookie_name c) jar ≡ some c) (E.jar_iter jar)
      pub lists :
          (k : Text) (c : E.Cookie)
          → E.jar_get k jar ≡ some c
          → Memᴰ c (E.jar_iter jar) × (E.cookie_name c ≡ k)

    module _ (k : Text) (o : Option E.Cookie) where
      -- A cookie of the name is the given one.
      abbrev Agrees : List E.Cookie → Type 0
      Agrees = All (λ c. E.cookie_name c ≡ k → some c ≡ o)

      jar_add-get :
          (c : E.Cookie) (j : E.CookieJar)
          → (E.cookie_name c ≡ k → some c ≡ o)
          → E.jar_get k j ≡ o
          → E.jar_get k (E.jar_add c j) ≡ o
      jar_add-get c j agrees before = elim (Bool-cases (eq (E.cookie_name c) k)) [
        | inl hit ↦
            let same = eq_sound (E.cookie_name c) k hit in
            subst (λ n. E.jar_get n (E.jar_add c j) ≡ some c) same (laws.get-add c j) ∙ agrees same
        | inr miss ↦
            laws.get-add_ne k c j (λ same.
              let hit : eq (E.cookie_name c) k ≡ true =
                subst (λ n. eq n k ≡ true) same (eq_refl k) in
              absurd cc)
            ∙ before
      ]

      put_all-keeps :
          (cs : List E.Cookie) (j : E.CookieJar)
          → Agrees cs
          → E.jar_get k j ≡ o
          → E.jar_get k (put_all cs j) ≡ o
      put_all-keeps [] j h before = before
      put_all-keeps (c ∷ cs) j (agrees, h) before =
          put_all-keeps cs (E.jar_add c j) h (jar_add-get c j agrees before)

      put_all-finds :
          (c : E.Cookie) (cs : List E.Cookie) (j : E.CookieJar)
          → Memᴰ c cs
          → E.cookie_name c ≡ k
          → Agrees cs
          → E.jar_get k (put_all cs j) ≡ o
      put_all-finds c [] j m named h = elim m [ ]
      put_all-finds c (d ∷ ds) j (Memᴰ.head same) named (agrees, h) =
          let named' = ap E.cookie_name (sym same) ∙ named in
          put_all-keeps ds (E.jar_add d j) h (
            subst (λ n. E.jar_get n (E.jar_add d j) ≡ some d) named' (laws.get-add d j)
            ∙ agrees named')
      put_all-finds c (d ∷ ds) j (Memᴰ.tail m) named (_, h) =
          put_all-finds c ds (E.jar_add d j) m named h

    holds-Agrees :
        (jar : E.CookieJar) (k : Text) (cs : List E.Cookie)
        → All (λ c. E.jar_get (E.cookie_name c) jar ≡ some c) cs
        → Agrees k (E.jar_get k jar) cs
    holds-Agrees jar k [] h = tt
    holds-Agrees jar k (c ∷ cs) (is, h) =
        (λ named. sym (subst (λ n. E.jar_get n jar ≡ some c) named is), holds-Agrees jar k cs h)

    put_all-jar_iter :
        (jar : E.CookieJar) (k : Text)
        → IsListed jar
        → E.jar_get k (put_all (E.jar_iter jar) E.jar_new) ≡ E.jar_get k jar
    put_all-jar_iter jar k listed =
        let agrees = holds-Agrees jar k (E.jar_iter jar) listed.holds in
        elim (Option-cases (E.jar_get k jar)) [
          | inl absent ↦
              put_all-keeps k (E.jar_get k jar) (E.jar_iter jar) E.jar_new agrees
                (laws.get-new k ∙ sym absent)
          | inr (c, present) ↦
              let (m, named) = listed.lists k c present in
              put_all-finds k (E.jar_get k jar) c (E.jar_iter jar) E.jar_new m named agrees
        ]

    -- If a jar that is not empty holds just the cookies it lists, and the text of each of them
    -- has no semicolon and is parsed as the cookie, then a `Cookie` header with the text that is
    -- written for the jar is read as a jar that has for every name the same cookie. It rests on
    -- the documented behaviour of jars.
    pub cookie_header-read_cookies :
        (jar : E.CookieJar) (v : E.HeaderValue) (c : E.Cookie) (cs : List E.Cookie)
        → IsListed jar
        → E.value_to_str v ≡ some (cookie_header E jar)
        → E.jar_iter jar ≡ c ∷ cs
        → All IsReadable (c ∷ cs)
        → (jar' : E.CookieJar) × (read_cookies E (some v) ≡ pure jar')
          × ((k : Text) → E.jar_get k jar' ≡ E.jar_get k jar)
    cookie_header-read_cookies jar v c cs listed text items readable = (
      put_all (c ∷ cs) E.jar_new,
      read_cookies-cookie_header jar v c cs text items readable,
      λ k.
          subst (λ l. E.jar_get k (put_all l E.jar_new) ≡ E.jar_get k jar) items
            (put_all-jar_iter jar k listed),
    )
