-- ===== src/CertificateAuthority.antt =====
-- crates/core/src/ca.rs: the certificates for the servers that the proxy stands in for, and their
-- cache
pub mod Fresh
pub mod Served
pub mod Root
use good_mitm.Prelude.{
  ℕ, Option, none, some, List, [], ◌∷◌, head?, ◌+◌, ◌-◌, ◌*◌, if◌then◌else◌, leb, ◌≡◌, ◌⊎◌, ◌≤◌,
}
use good_mitm.Text.{Text}
use good_mitm.Env.{Result, ok, err}

-- `rcgen::KeyUsagePurpose` and `rcgen::ExtendedKeyUsagePurpose`, as far as the program names them
pub data KeyUsage : Type 0 where
  digital_signature key_cert_sign crl_sign : KeyUsage

pub data ExtendedKeyUsage : Type 0 where
  server_auth : ExtendedKeyUsage

-- What the program sets of `rcgen::CertificateParams` for a server. Times are in seconds from the
-- first time that `OffsetDateTime` has.
pub record LeafParams (KeyPair Alg : Type 0) : Type 0 where
  pub serial_number : ℕ
  pub not_before : ℕ
  pub not_after : ℕ
  pub subject_alt_names : List Text
  pub common_name : Text
  pub key_usages : List KeyUsage
  pub extended_key_usages : List ExtendedKeyUsage
  pub alg : Alg
  pub key_pair : KeyPair

-- `rcgen`, `rustls` and `time`. `none` is an error that the program does not look at.
pub record Crypto : Type 1 where
  pub PrivateKey : Type 0
  pub CaCert : Type 0
  pub KeyPair : Type 0
  pub Alg : Type 0
  pub CaParams : Type 0
  pub Certificate : Type 0
  pub Der : Type 0
  pub SigningKey : Type 0
  pub RcgenError : Type 0
  pub key_from_der : PrivateKey → Result KeyPair RcgenError
  pub compatible_algs : KeyPair → List Alg
  pub ca_params_from_der : CaCert → KeyPair → Result CaParams RcgenError
  pub from_ca_params : CaParams → Option Certificate
  pub from_params : LeafParams KeyPair Alg → Option Certificate
  pub serialize_with_signer : Certificate → Certificate → Option Der
  pub any_supported_type : PrivateKey → Option SigningKey
  -- the last time that `OffsetDateTime` has
  pub max_time : ℕ

-- `moka::sync::Cache` from names to keys, with the time of each call.
pub record CacheLibrary (K : Type 0) : Type 1 where
  pub Cache : Type 0
  pub build : ℕ → ℕ → Cache
  pub time_to_live : Cache → ℕ
  pub get : ℕ → Text → Cache → Option K
  pub insert : ℕ → Text → K → Cache → Cache

-- What is in the cache was put there for the name, and not longer ago than the time to live. It may
-- be gone before.
pub record CacheLaws (K : Type 0) (L : CacheLibrary K) : Type 0 where
  pub get-build : (now capacity ttl : ℕ) (n : Text) → L.get now n (L.build capacity ttl) ≡ none
  pub ttl-build : (capacity ttl : ℕ) → L.time_to_live (L.build capacity ttl) ≡ ttl
  pub ttl-insert :
      (t : ℕ) (n : Text) (k : K) (c : L.Cache)
      → L.time_to_live (L.insert t n k c) ≡ L.time_to_live c
  pub get-insert :
      (now t : ℕ) (n m : Text) (k found : K) (c : L.Cache)
      → L.get now n (L.insert t m k c) ≡ some found
      → ((n ≡ m) × (found ≡ k) × (now ≤ t + L.time_to_live c)) ⊎ (L.get now n c ≡ some found)

abbrev pub cert_ttl_days : ℕ
cert_ttl_days = 365

abbrev pub day : ℕ
day = 86400

-- `CERT_TTL_DAYS * 24 * 60 * 60 / 2`
abbrev pub cert_cache_ttl_seconds : ℕ
cert_cache_ttl_seconds = 15768000

-- The times at which a call reads the clock, in the order of the code.
pub record Clock : Type 0 where
  pub looked : ℕ
  pub before : ℕ
  pub after : ℕ
  pub stored : ℕ

infixl 5 ◌>>=◌
abbrev pub ◌>>=◌ : {A B : Type 0} → Option A → (A → Option B) → Option B
none >>= f = none
some a >>= f = f a

-- `expect`: `none` is a panic.
abbrev pub expect : {A B : Type 0} → Result A B → Option A
expect (ok a) = some a
expect (err e) = none

module _ (C : Crypto) where
  -- `CertifiedKey`, of the one certificate and the key.
  abbrev pub CertifiedKey : Type 0
  CertifiedKey = C.Der × C.SigningKey

  abbrev pub saturating_add : ℕ → ℕ → ℕ
  saturating_add t d = if leb (t + d) C.max_time then t + d else C.max_time

  -- The parameters of a certificate, by the two readings of the clock.
  abbrev pub leaf_params : ℕ → ℕ → ℕ → Text → C.Alg → C.KeyPair → LeafParams C.KeyPair C.Alg
  leaf_params serial before after server_name alg key_pair = record {
    serial_number = serial;
    not_before = before - day;
    not_after = saturating_add after (cert_ttl_days * day);
    subject_alt_names = server_name ∷ [];
    common_name = server_name;
    key_usages = digital_signature ∷ [];
    extended_key_usages = server_auth ∷ [];
    alg = alg;
    key_pair = key_pair;
  }

  module _ (K : CacheLibrary CertifiedKey) where
    pub record CertificateAuthority : Type 0 where
      pub private_key : C.PrivateKey
      pub ca_cert : C.CaCert
      pub ca_cert_string : Text
      pub cache : K.Cache

    -- `none` is `Ok(())`
    unfoldable pub validate : CertificateAuthority → Option C.RcgenError
    validate self = elim (C.key_from_der self.private_key) [
      | err e ↦ some e
      | ok key_pair ↦ elim (C.ca_params_from_der self.ca_cert key_pair) [
        | err e ↦ some e
        | ok params ↦ none
      ]
    ]

    unfoldable pub new :
        C.PrivateKey → C.CaCert → Text → ℕ → Result CertificateAuthority C.RcgenError
    unfolding validate
    new private_key ca_cert ca_cert_string cache_size =
        let ca : CertificateAuthority = record {
          private_key = private_key;
          ca_cert = ca_cert;
          ca_cert_string = ca_cert_string;
          cache = K.build cache_size cert_cache_ttl_seconds;
        } in
        elim (validate ca) [ some e ↦ err e | none ↦ ok ca ]

    unfoldable pub gen_cert : CertificateAuthority → ℕ → Clock → Text → Option C.Der
    gen_cert self serial clock server_name = do
      key_pair ← expect (C.key_from_der self.private_key)
      alg ← head? (C.compatible_algs key_pair)
      let params = leaf_params serial clock.before clock.after server_name alg key_pair
      key_pair' ← expect (C.key_from_der self.private_key)
      ca_cert_params ← expect (C.ca_params_from_der self.ca_cert key_pair')
      ca_cert ← C.from_ca_params ca_cert_params
      cert ← C.from_params params
      C.serialize_with_signer cert ca_cert

    abbrev pub get_cert : CertificateAuthority → Text
    get_cert self = self.ca_cert_string

    -- The key for a name that the cache does not have, and the cache with it.
    unfoldable pub issue : CertificateAuthority → ℕ → Clock → Text → Option (CertifiedKey × K.Cache)
    unfolding gen_cert
    issue self serial clock server_name = do
      cert ← gen_cert self serial clock server_name
      key ← C.any_supported_type self.private_key
      some ((cert, key), K.insert clock.stored server_name (cert, key) self.cache)

    unfoldable pub get_certified_key :
        CertificateAuthority → ℕ → Clock → Text → Option (CertifiedKey × K.Cache)
    unfolding issue
    get_certified_key self serial clock server_name =
        elim (K.get clock.looked server_name self.cache) [
          | some server_cfg ↦ some (server_cfg, self.cache)
          | none ↦ issue self serial clock server_name
        ]

    -- The key for the name in a hello, if it has one.
    unfoldable pub resolve :
        CertificateAuthority → ℕ → Clock → Option Text → Option (Option CertifiedKey × K.Cache)
    unfolding get_certified_key
    resolve self serial clock none = some (none, self.cache)
    resolve self serial clock (some name) = do
      answer ← get_certified_key self serial clock name
      some (some answer.0, answer.1)
