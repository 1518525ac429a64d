-- ===== src/CertificateAuthority/Served.antt =====
-- An authority from its making on.
use good_mitm.Prelude.{ℕ, ◌≡◌, refl, sym, ◌≤◌, some, head?}
use mathlib.Core.Path.{subst}
use good_mitm.Text.{Text}
use good_mitm.Env.{Result, ok, err}
use good_mitm.CertificateAuthority.{
  Crypto, CacheLibrary, CacheLaws, Clock, CertifiedKey, LeafParams, CertificateAuthority,
  cert_cache_ttl_seconds, new, get_certified_key,
}
use good_mitm.CertificateAuthority.Fresh.{
  IsPrompt, Ensured, Ensured-at, Ensured-of, Valid, CacheGood, get_certified_key-Valid,
}

-- A key and a certificate with which an authority can sign: the key has an algorithm, is of a type that
-- is supported and fits the certificate; certificates are made of parameters that carry the key
-- and its first algorithm; and what is made of the authority's certificate signs these.
pub record CanSign (C : Crypto) (private_key : C.PrivateKey) (ca_cert : C.CaCert) : Type 0 where
  pub supported : (s : C.SigningKey) × (C.any_supported_type private_key ≡ some s)
  pub has_alg :
      (k : C.KeyPair)
      → C.key_from_der private_key ≡ ok k
      → (a : C.Alg) × (head? (C.compatible_algs k) ≡ some a)
  pub fits :
      (k : C.KeyPair) (p : C.CaParams)
      → C.key_from_der private_key ≡ ok k
      → C.ca_params_from_der ca_cert k ≡ ok p
      → (c : C.Certificate) × (C.from_ca_params p ≡ some c)
  pub makes :
      (k : C.KeyPair) (p : LeafParams C.KeyPair C.Alg)
      → C.key_from_der private_key ≡ ok k
      → p.key_pair ≡ k
      → head? (C.compatible_algs k) ≡ some p.alg
      → (c : C.Certificate) × (C.from_params p ≡ some c)
  pub signs :
      (k : C.KeyPair) (p : C.CaParams) (leaf signer : C.Certificate)
      → C.ca_params_from_der ca_cert k ≡ ok p
      → C.from_ca_params p ≡ some signer
      → (d : C.Der) × (C.serialize_with_signer leaf signer ≡ some d)

module _ (C : Crypto) (K : CacheLibrary (CertifiedKey C)) where
  -- The states of an authority: it is made, and then keys are asked for, one call after the other,
  -- each at some time, for some name, with some serial number.
  pub data Served : ℕ → CertificateAuthority C K → Type 0 where
    made_new :
        (private_key : C.PrivateKey) (ca_cert : C.CaCert) (text : Text) (size : ℕ)
        (ca : CertificateAuthority C K) (t : ℕ)
        → new C K private_key ca_cert text size ≡ ok ca
        → Served t ca
    asked :
        (t : ℕ) (ca : CertificateAuthority C K) (serial : ℕ) (clock : Clock) (name : Text)
        (key : CertifiedKey C) (cache : K.Cache)
        → Served t ca
        → t ≤ clock.looked
        → IsPrompt C clock
        → get_certified_key C K ca serial clock name ≡ some (key, cache)
        → Served clock.stored (record ca { cache = cache })

  -- What a successful `new` has found: the key and the certificate can be read.
  pub record Checked (ca : CertificateAuthority C K) : Type 0 where
    pub key_pair : C.KeyPair
    pub ca_params : C.CaParams
    pub key_read : C.key_from_der ca.private_key ≡ ok key_pair
    pub ca_read : C.ca_params_from_der ca.ca_cert key_pair ≡ ok ca_params

  -- The authority as `new` makes it.
  abbrev start : C.PrivateKey → C.CaCert → Text → ℕ → CertificateAuthority C K
  start private_key ca_cert text size = record {
    private_key = private_key;
    ca_cert = ca_cert;
    ca_cert_string = text;
    cache = K.build size cert_cache_ttl_seconds;
  }

  module _ (private_key : C.PrivateKey) (ca_cert : C.CaCert) (text : Text) (size : ℕ) where
    abbrev pub IsStart : CertificateAuthority C K → Type 0
    IsStart ca =
        Checked ca × (ca.cache ≡ K.build size cert_cache_ttl_seconds) × (ca.ca_cert_string ≡ text)

    pub new-Checked :
        (ca : CertificateAuthority C K) → new C K private_key ca_cert text size ≡ ok ca → IsStart ca
    unfolding new
    new-Checked ca e = from_key (C.key_from_der private_key) refl
      where
        from_ca :
            (k : C.KeyPair) (r : Result C.CaParams C.RcgenError)
            → C.key_from_der private_key ≡ ok k
            → C.ca_params_from_der ca_cert k ≡ r
            → IsStart ca
        from_ca k (ok p) ek ep =
            let made : new C K private_key ca_cert text size
                ≡ ok (start private_key ca_cert text size) =
              rw (ek, ep, new) refl in
            let same : start private_key ca_cert text size ≡ ca = cc in
            subst IsStart same
              (record { key_pair = k; ca_params = p; key_read = ek; ca_read = ep }, refl, refl)
        from_ca k (err x) ek ep =
            let made : new C K private_key ca_cert text size ≡ err x = rw (ek, ep, new) refl in
            absurd cc

        from_key : (r : Result C.KeyPair C.RcgenError) → C.key_from_der private_key ≡ r → IsStart ca
        from_key (ok k) ek = from_ca k (C.ca_params_from_der ca_cert k) ek refl
        from_key (err x) ek =
            let made : new C K private_key ca_cert text size ≡ err x = rw (ek, new) refl in
            absurd cc

  module _ (laws : CacheLaws (CertifiedKey C) K) where
    Served-Good : (t : ℕ) (ca : CertificateAuthority C K) → Served t ca → CacheGood C K t ca.cache
    Served-Good t ca (made_new pk cert text size _ _ e) =
        let (_, built, _) = new-Checked pk cert text size ca e in
        subst (CacheGood C K t) (sym built) (
          laws.ttl-build size cert_cache_ttl_seconds,
          λ now n k late found.
              let nothing = laws.get-build now size cert_cache_ttl_seconds n in absurd cc,
        )
    Served-Good t ca (asked t' ca' serial clock name key cache before le prompt e) =
        (Ensured-at _ (get_certified_key C K ca' serial clock name) e (
          get_certified_key-Valid C K ca' serial clock name laws prompt t' le
            (Served-Good t' ca' before))).1

    -- Whatever an authority was asked before, each key that it gives out has a certificate for
    -- the name that was asked for, valid when it was looked for and for 180 days more; if each
    -- call takes a day at most on a clock that goes forward, a year can be added to the time that it
    -- reads for the end of the certificate within the range of `OffsetDateTime`, and the cache does
    -- as it is documented.
    pub Served-Valid :
        (t : ℕ) (ca : CertificateAuthority C K) (serial : ℕ) (clock : Clock) (name : Text)
        → Served t ca
        → t ≤ clock.looked
        → IsPrompt C clock
        → Ensured
            (λ answer. Valid C name clock.looked answer.0)
            (get_certified_key C K ca serial clock name)
    Served-Valid t ca serial clock name served le prompt =
        let got =
          get_certified_key-Valid C K ca serial clock name laws prompt t le
            (Served-Good t ca served) in
        Ensured-of _ (get_certified_key C K ca serial clock name)
          (λ answer e. (Ensured-at _ (get_certified_key C K ca serial clock name) e got).0)
