-- ===== src/Tests/Headers.antt =====
-- A multimap of headers as a list of entries, which meets the laws of `HeaderMap`.
use good_mitm.Prelude.{
  ◌≡◌, ◌≢◌, refl, sym, ap, ◌∙◌, false, Bool-cases, inl, inr, List, [], ◌∷◌, ◌++◌, arith,
  if◌then◌else◌,
}
use good_mitm.Text.{Text, codes, eq}
use good_mitm.Text.Laws.{eq_iff, eq_refl}
use good_mitm.Env.{
  Standard, accept_encoding, content_type, content_length, content_disposition, cookie, set_cookie,
  host, location, strict_transport_security, access_control_allow_origin,
  access_control_allow_methods,
}

abbrev pub Entries : Type 0
Entries = List (Text × Text)

unfoldable pub get_all : Text → Entries → List Text
unfolding eq
get_all n [] = []
get_all n ((m, v) ∷ h) = if eq m n then v ∷ get_all n h else get_all n h

unfoldable pub remove : Text → Entries → Entries
unfolding eq
remove n [] = []
remove n ((m, v) ∷ h) = if eq m n then remove n h else (m, v) ∷ remove n h

unfoldable pub set_first : Text → Text → Entries → Entries
unfolding eq
set_first n v [] = []
set_first n v ((m, w) ∷ h) = if eq m n then (m, v) ∷ h else (m, w) ∷ set_first n v h

abbrev pub append : Text → Text → Entries → Entries
append n v h = h ++ ((n, v) ∷ [])

abbrev pub insert : Text → Text → Entries → Entries
insert n v h = (n, v) ∷ remove n h

eq_of_ne : (m n : Text) → m ≢ n → eq m n ≡ false
eq_of_ne m n h = elim (Bool-cases (eq m n)) [ inl e ↦ absurd (h ((eq_iff m n).0 e)) | inr e ↦ e ]

pub ne_of_eq : (m n : Text) → eq m n ≡ false → m ≢ n
ne_of_eq m n h e = cc ((eq_iff m n).1 e)

pub get_all-remove : (n : Text) (h : Entries) → get_all n (remove n h) ≡ []
unfolding get_all remove
get_all-remove n [] = refl
get_all-remove n ((m, v) ∷ h) = ground (arith, get_all-remove n h)

pub get_all-remove_ne : (n m : Text) (h : Entries) → m ≢ n → get_all m (remove n h) ≡ get_all m h
unfolding get_all remove
get_all-remove_ne n m [] apart = refl
get_all-remove_ne n m ((k, v) ∷ h) apart =
    ground (arith, get_all-remove_ne n m h apart, eq_iff k n, eq_iff k m)

pub get_all-append : (n v : Text) (h : Entries) → get_all n (append n v h) ≡ get_all n h ++ (v ∷ [])
unfolding get_all
get_all-append n v [] = rw (eq_refl n, get_all)
get_all-append n v ((k, w) ∷ h) = ground (arith, get_all-append n v h)

pub get_all-append_ne :
    (n m v : Text) (h : Entries) → m ≢ n → get_all m (append n v h) ≡ get_all m h
unfolding get_all
get_all-append_ne n m v [] apart = rw (eq_of_ne n m (λ e. apart (sym e)), get_all)
get_all-append_ne n m v ((k, w) ∷ h) apart = ground (arith, get_all-append_ne n m v h apart)

pub get_all-insert : (n v : Text) (h : Entries) → get_all n (insert n v h) ≡ v ∷ []
unfolding get_all
get_all-insert n v h = rw (eq_refl n, get_all-remove n h)

pub get_all-insert_ne :
    (n m v : Text) (h : Entries) → m ≢ n → get_all m (insert n v h) ≡ get_all m h
unfolding get_all
get_all-insert_ne n m v h apart =
    rw (eq_of_ne n m (λ e. apart (sym e))) (get_all-remove_ne n m h apart)

pub get_all-set_first :
    (n v w : Text) (rest : List Text) (h : Entries)
    → get_all n h ≡ w ∷ rest
    → get_all n (set_first n v h) ≡ v ∷ rest
unfolding get_all set_first
get_all-set_first n v w rest [] e = cc
get_all-set_first n v w rest ((k, x) ∷ h) e = ground (arith, get_all-set_first n v w rest h)

pub get_all-set_first_ne :
    (n m v : Text) (h : Entries) → m ≢ n → get_all m (set_first n v h) ≡ get_all m h
unfolding get_all set_first
get_all-set_first_ne n m v [] apart = refl
get_all-set_first_ne n m v ((k, x) ∷ h) apart =
    ground (arith, get_all-set_first_ne n m v h apart, eq_iff k n, eq_iff k m)

abbrev pub name_of : Standard → Text
name_of accept_encoding = codes "accept-encoding"
name_of content_type = codes "content-type"
name_of content_length = codes "content-length"
name_of content_disposition = codes "content-disposition"
name_of cookie = codes "cookie"
name_of set_cookie = codes "set-cookie"
name_of host = codes "host"
name_of location = codes "location"
name_of strict_transport_security = codes "strict-transport-security"
name_of access_control_allow_origin = codes "access-control-allow-origin"
name_of access_control_allow_methods = codes "access-control-allow-methods"

abbrev is_name : Text → Standard → Standard → Standard
is_name t s otherwise = if eq t (name_of s) then s else otherwise

standard_of : Text → Standard
unfolding eq
standard_of t = is_name t accept_encoding (
    is_name t content_type (
      is_name t content_length (
        is_name t content_disposition (
          is_name t cookie (
            is_name t set_cookie (
              is_name t host (
                is_name t location (
                  is_name t strict_transport_security
                    (is_name t access_control_allow_origin access_control_allow_methods)))))))))

standard_of-name_of : (s : Standard) → standard_of (name_of s) ≡ s
unfolding standard_of
standard_of-name_of accept_encoding = refl
standard_of-name_of content_type = refl
standard_of-name_of content_length = refl
standard_of-name_of content_disposition = refl
standard_of-name_of cookie = refl
standard_of-name_of set_cookie = refl
standard_of-name_of host = refl
standard_of-name_of location = refl
standard_of-name_of strict_transport_security = refl
standard_of-name_of access_control_allow_origin = refl
standard_of-name_of access_control_allow_methods = refl

pub name_of-injective : (a b : Standard) → name_of a ≡ name_of b → a ≡ b
name_of-injective a b e = sym (standard_of-name_of a) ∙ ap standard_of e ∙ standard_of-name_of b
