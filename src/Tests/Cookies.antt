-- ===== src/Tests/Cookies.antt =====
-- The theorems on cookies.
use mathlib.Core.List.{Memᴰ}
use good_mitm.Text.Laws.{eq_sound}
use good_mitm.Prelude.{
  ◌≡◌, refl, sym, ap, ◌∙◌, Bool, true, List, if◌then◌else◌, false, some, [], ◌∷◌, unwrap_or,
  or_else,
}
use good_mitm.Text.{Text, eq, codes, join}
use good_mitm.Io.{pure}
use good_mitm.Io.Ensures.{Ensures}
use good_mitm.TextModify.{set}
use good_mitm.HeaderModify.{MapModify}
use good_mitm.CookieModify.{cookie_value_of, read_cookies, cookie_header, modify_jars}
use good_mitm.CookieModify.Rereads.{IsReadable, IsListed, cookie_header-read_cookies}
use good_mitm.CookieModify.Jars.{JarChanged, modify_jars-JarChanged}
use good_mitm.Tests.Sample.{found, env, cookies}
use good_mitm.Tests.Headers.{Entries, get_all}

abbrev change : MapModify
change = record { key = codes "id"; value = some (set (codes "7")); remove = false }

abbrev jar : Entries
jar = (codes "id", codes "1") ∷ (codes "theme", codes "dark") ∷ []

modify_jars-JarChanged_example :
    Ensures
      (λ jars.
        JarChanged env cookies change
          (unwrap_or []
            (or_else (cookie_value_of env change.key []) (cookie_value_of env change.key jar)))
          []
          jars.0
        × JarChanged env cookies change
            (unwrap_or []
              (or_else (cookie_value_of env change.key []) (cookie_value_of env change.key jar)))
            jar
            jars.1)
      (modify_jars env change [] jar)
modify_jars-JarChanged_example = modify_jars-JarChanged env cookies change [] jar

id-IsReadable : IsReadable env (codes "id", codes "1")
id-IsReadable = record { plain = (refl, (refl, (refl, (refl, tt)))); parses = refl }

theme-IsReadable : IsReadable env (codes "theme", codes "dark")
theme-IsReadable = record {
  plain = (refl, (refl, (refl, (refl, (refl, (refl, (refl, (refl, (refl, (refl, tt))))))))));
  parses = refl;
}

-- A value of the jar for a name, by whether it is either of the names there.
abbrev values : Bool → Bool → List Text
values a b = let rest = if b then codes "dark" ∷ [] else [] in if a then codes "1" ∷ rest else rest

jar_lists : (k : Text) (c : Text × Text) → env.jar_get k jar ≡ some c → Memᴰ c jar × (c.0 ≡ k)
unfolding get_all
jar_lists k c e = by_name (eq (codes "id") k) (eq (codes "theme") k) refl refl e
  where
    same : (name v : Text) → eq name k ≡ true → some (k, v) ≡ some c → (c ≡ (name, v)) × (c.0 ≡ k)
    same name v hit e =
        let it : (k, v) ≡ c = cc in
        let named = eq_sound name k hit in
        (sym it ∙ ap (λ n. (n, v)) (sym named), ap (λ p. p.0) (sym it))

    by_name :
        (a b : Bool)
        → eq (codes "id") k ≡ a
        → eq (codes "theme") k ≡ b
        → found k (values a b) ≡ some c
        → Memᴰ c jar × (c.0 ≡ k)
    by_name true b ea eb e =
        let (is, named) = same (codes "id") (codes "1") ea e in (Memᴰ.head is, named)
    by_name false true ea eb e =
        let (is, named) = same (codes "theme") (codes "dark") eb e in
        (Memᴰ.tail (Memᴰ.head is), named)
    by_name false false ea eb e = absurd cc

jar-IsListed : IsListed env cookies jar
unfolding get_all eq
jar-IsListed = record { holds = (refl, (refl, tt)); lists = jar_lists }

cookie_header-read_cookies_example :
    (jar' : Entries) × (read_cookies env (some (codes "id=1; theme=dark")) ≡ pure jar')
    × ((k : Text) → env.jar_get k jar' ≡ env.jar_get k jar)
unfolding cookie_header join
cookie_header-read_cookies_example =
    cookie_header-read_cookies env cookies jar (codes "id=1; theme=dark") (codes "id", codes "1")
      ((codes "theme", codes "dark") ∷ []) jar-IsListed refl refl
      (id-IsReadable, (theme-IsReadable, tt))
