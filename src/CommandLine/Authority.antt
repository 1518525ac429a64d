-- ===== src/CommandLine/Authority.antt =====
-- The certificate authority that the command `run` loads.
use good_mitm.Prelude.{ℕ, ◌≡◌, some, List, [], ◌∷◌, head?}
use mathlib.Core.Path.{subst}
use good_mitm.Text.{Text, from_utf8}
use good_mitm.Env.{Env, Result, ok, err}
use good_mitm.Io.{unwrap}
use good_mitm.Io.Ensures.{Ensures, Ensures-bind, Ensures-at, Ensures-unwrap, unwrap-eq_done}
use good_mitm.CertificateAuthority.{
  Crypto, CacheLibrary, CertifiedKey, CertificateAuthority, new, expect,
}
use good_mitm.CertificateAuthority.Root.{RootLibrary}
use good_mitm.CommandLine.{Disk, load_private_key, load_ca_cert, load_authority}

head?-eq_some :
    {A : Type 0} (xs : List A) {x : A} → head? xs ≡ some x → (more : List A) × (xs ≡ x ∷ more)
head?-eq_some [] e = absurd cc
head?-eq_some (y ∷ ys) e = (ys, cc)

expect-eq_some : {A B : Type 0} (r : Result A B) {a : A} → expect r ≡ some a → r ≡ ok a
expect-eq_some (ok b) e = cc
expect-eq_some (err b) e = absurd cc

module _ (E : Env) (R : Crypto) (L : RootLibrary R) (K : CacheLibrary (CertifiedKey R))
    (disk : Disk) where
  -- The key is the first one in the file.
  pub record KeyIn (path : Text) (key : R.PrivateKey) : Type 0 where
    pub bytes : List ℕ
    pub more : List R.PrivateKey
    pub file : disk.files path ≡ some bytes
    pub first : L.pkcs8_private_keys bytes ≡ some (key ∷ more)

  -- The certificate is the first one in the file, which holds the bytes.
  pub record CertIn (path : Text) (cert : R.CaCert) (bytes : List ℕ) : Type 0 where
    pub more : List R.CaCert
    pub file : disk.files path ≡ some bytes
    pub first : L.certs bytes ≡ some (cert ∷ more)

  load_private_key-KeyIn : (path : Text) → Ensures (KeyIn path) (load_private_key E R L K disk path)
  unfolding load_private_key
  load_private_key-KeyIn path = Ensures-bind _ (unwrap (disk.files path)) _ (λ bytes file.
      Ensures-bind _ (unwrap (L.pkcs8_private_keys bytes)) _ (λ keys parsed.
        Ensures-unwrap E _ (head? keys) (λ key is.
          let (more, same) = head?-eq_some keys is in
          record {
            bytes = bytes;
            more = more;
            file = unwrap-eq_done E (disk.files path) file;
            first =
                subst (λ ks. L.pkcs8_private_keys bytes ≡ some ks) same
                  (unwrap-eq_done E (L.pkcs8_private_keys bytes) parsed);
          })))

  load_ca_cert-CertIn :
      (path : Text) → Ensures (λ r. CertIn path r.0 r.1) (load_ca_cert E R L K disk path)
  unfolding load_ca_cert
  load_ca_cert-CertIn path = Ensures-bind _ (unwrap (disk.files path)) _ (λ bytes file.
      Ensures-bind _ (unwrap (L.certs bytes)) _ (λ certs parsed.
        Ensures-bind _ (unwrap (head? certs)) _ (λ cert is.
          let (more, same) = head?-eq_some certs (unwrap-eq_done E (head? certs) is) in
          record {
            more = more;
            file = unwrap-eq_done E (disk.files path) file;
            first =
                subst (λ cs. L.certs bytes ≡ some cs) same
                  (unwrap-eq_done E (L.certs bytes) parsed);
          })))

  -- The authority is made of the first key and the first certificate of the files, keeps up to a
  -- thousand keys, and gives out the text of the second file.
  pub record AuthorityOf (key_path cert_path : Text) (ca : CertificateAuthority R K) : Type 0 where
    pub key : R.PrivateKey
    pub cert : R.CaCert
    pub text : Text
    pub bytes : List ℕ
    pub key_in : KeyIn key_path key
    pub cert_in : CertIn cert_path cert bytes
    pub is_text : from_utf8 bytes ≡ some text
    pub made : new R K key cert text 1000 ≡ ok ca

  pub load_authority-AuthorityOf :
      (key cert : Text) → Ensures (AuthorityOf key cert) (load_authority E R L K disk key cert)
  unfolding load_authority
  load_authority-AuthorityOf key cert =
      Ensures-bind _ (load_private_key E R L K disk key) _ (λ k read_key.
        Ensures-bind _ (load_ca_cert E R L K disk cert) _ (λ c read_cert.
          Ensures-bind _ (unwrap (from_utf8 c.1)) _ (λ text decoded.
            Ensures-unwrap E _ (expect (new R K k c.0 text 1000)) (λ ca made. record {
              key = k;
              cert = c.0;
              text = text;
              bytes = c.1;
              key_in =
                  Ensures-at _ (load_private_key E R L K disk key) read_key
                    (load_private_key-KeyIn key);
              cert_in =
                  Ensures-at _ (load_ca_cert E R L K disk cert) read_cert
                    (load_ca_cert-CertIn cert);
              is_text = unwrap-eq_done E (from_utf8 c.1) decoded;
              made = expect-eq_some (new R K k c.0 text 1000) made;
            }))))
