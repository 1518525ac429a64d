-- ===== src/CertificateAuthority/Root.antt =====
-- `gen_ca` of crates/core/src/ca.rs: the certificate that signs the others
use good_mitm.Prelude.{ℕ, ◌≡◌, Option, some, List, [], ◌∷◌}
use good_mitm.Text.{Text, codes, from_utf8}
use good_mitm.Env.{Result, ok}
use good_mitm.CertificateAuthority.{Crypto, KeyUsage, digital_signature, key_cert_sign, crl_sign}

-- `DnType`, `BasicConstraints` and `IsCa` of `rcgen`, as far as the program names them
pub data DnType : Type 0 where
  common_name organization_name country_name locality_name : DnType

pub data BasicConstraints : Type 0 where
  unconstrained : BasicConstraints

pub data IsCa : Type 0 where
  ca : BasicConstraints → IsCa

-- What the program sets of `CertificateParams` for its own certificate; the distinguished name is
-- what is pushed, in order.
pub record RootParams : Type 0 where
  pub distinguished_name : List (DnType × Text)
  pub key_usages : List KeyUsage
  pub is_ca : IsCa

-- `rcgen` for this certificate, and `rustls_pemfile`. `none` is an error.
pub record RootLibrary (R : Crypto) : Type 0 where
  pub from_root_params : RootParams → Result R.Certificate R.RcgenError
  pub serialize_pem : R.Certificate → Result Text R.RcgenError
  pub serialize_private_key_pem : R.Certificate → Text
  pub pkcs8_private_keys : List ℕ → Option (List R.PrivateKey)
  pub certs : List ℕ → Option (List R.CaCert)

-- What is written as PEM is a text that is read back as the one key and the one certificate, and
-- the key of a certificate that was generated is one that the certificate can be loaded with.
pub record RootLaws (R : Crypto) (L : RootLibrary R) : Type 0 where
  pub key_of : R.Certificate → R.PrivateKey
  pub read-key :
      (c : R.Certificate)
      → L.pkcs8_private_keys (L.serialize_private_key_pem c) ≡ some (key_of c ∷ [])
  pub text-pem :
      (c : R.Certificate) (pem : Text) → L.serialize_pem c ≡ ok pem → from_utf8 pem ≡ some pem
  pub read-pem :
      (c : R.Certificate) (pem : Text)
      → L.serialize_pem c ≡ ok pem
      → (cert : R.CaCert) × (L.certs pem ≡ some (cert ∷ []))
  pub loads :
      (p : RootParams) (c : R.Certificate) (pem : Text) (cert : R.CaCert)
      → L.from_root_params p ≡ ok c
      → L.serialize_pem c ≡ ok pem
      → L.certs pem ≡ some (cert ∷ [])
      → (key_pair : R.KeyPair) × (params : R.CaParams) × (R.key_from_der (key_of c) ≡ ok key_pair)
        × (R.ca_params_from_der cert key_pair ≡ ok params)

abbrev pub root_params : RootParams
root_params = record {
  distinguished_name =
      (common_name, codes "Good-MITM")
      ∷ (organization_name, codes "Good-MITM")
      ∷ (country_name, codes "CN")
      ∷ (locality_name, codes "CN")
      ∷ [];
  key_usages = digital_signature ∷ key_cert_sign ∷ crl_sign ∷ [];
  is_ca = ca unconstrained;
}

abbrev pub gen_root : (R : Crypto) → RootLibrary R → Result R.Certificate R.RcgenError
gen_root R L = L.from_root_params root_params
