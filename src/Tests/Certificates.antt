-- ===== src/Tests/Certificates.antt =====
-- The theorems on the certificate authority, with a cache of one key.
use good_mitm.Prelude.{
  ℕ, ◌≡◌, refl, inl, ◌+◌, ◌≤◌, ◌&&◌, Bool, true, false, Option, none, some, [], ◌∷◌, if◌then◌else◌,
  leb, arith,
}
use good_mitm.Text.{Text, codes, eq}
use good_mitm.Text.Laws.{eq_iff}
use good_mitm.Env.{ok}
use good_mitm.CertificateAuthority.{
  Crypto, CacheLibrary, CacheLaws, Clock, CertifiedKey, CertificateAuthority,
  cert_cache_ttl_seconds, new, validate, get_certified_key,
}
use good_mitm.CertificateAuthority.Fresh.{Ensured, Valid}
use good_mitm.CertificateAuthority.Served.{Served, made_new, Served-Valid}

abbrev Slot : Type 0 → Type 0
Slot K = ℕ × Option (ℕ × Text × K)

abbrev slot_get : {K : Type 0} → ℕ → Text → Slot K → Option K
slot_get now n (ttl, none) = none
slot_get now n (ttl, some (t, m, k)) = if eq n m && leb now (t + ttl) then some k else none

abbrev pub cache : (K : Type 0) → CacheLibrary K
cache K = record {
  Cache = Slot K;
  build = λ capacity ttl. (ttl, none);
  time_to_live = λ c. c.0;
  get = slot_get;
  insert = λ t n k c. (c.0, some (t, n, k));
}

cache_laws : (K : Type 0) → CacheLaws K (cache K)
cache_laws K = record {
  get-build = λ now capacity ttl n. refl;
  ttl-build = λ capacity ttl. refl;
  ttl-insert = λ t n k c. refl;
  get-insert = λ now t n m k found c e. inl (slot_found now t c.0 n m k found e);
}
  where
    slot_found :
        (now t ttl : ℕ) (n m : Text) (k found : K)
        → (if eq n m && leb now (t + ttl) then some k else none) ≡ some found
        → (n ≡ m) × (found ≡ k) × (now ≤ t + ttl)
    slot_found now t ttl n m k found e =
        let (same, early, it) = hit (eq n m) (leb now (t + ttl)) k found e in
        ((eq_iff n m).0 same, it, ground arith)
      where
        hit :
            (a b : Bool) (k found : K)
            → (if a && b then some k else none) ≡ some found
            → (a ≡ true) × (b ≡ true) × (found ≡ k)
        hit true true k found e = (refl, refl, cc)
        hit true false k found e = absurd cc
        hit false b k found e = absurd cc

abbrev pub crypto : Crypto
crypto = record {
  PrivateKey = Text;
  CaCert = Text;
  KeyPair = Text;
  Alg = Text;
  CaParams = Text;
  Certificate = Text;
  Der = Text;
  SigningKey = Text;
  RcgenError = Text;
  key_from_der = λ k. ok k;
  compatible_algs = λ k. k ∷ [];
  ca_params_from_der = λ c k. ok c;
  from_ca_params = λ p. some p;
  from_params = λ p. some p.common_name;
  serialize_with_signer = λ leaf signer. some leaf;
  any_supported_type = λ k. some k;
  max_time = 1000000000000;
}

abbrev pub authority : CertificateAuthority crypto (cache (CertifiedKey crypto))
authority = record {
  private_key = codes "key";
  ca_cert = codes "ca";
  ca_cert_string = codes "text";
  cache = (cert_cache_ttl_seconds, none);
}

abbrev clock : Clock
clock = record { looked = 700000000; before = 700000001; after = 700000002; stored = 700000003 }

begun : Served crypto (cache (CertifiedKey crypto)) 5 authority
unfolding new validate
begun = made_new (codes "key") (codes "ca") (codes "text") 1000 authority 5 refl

Served-Valid_example :
    Ensured
      (λ answer. Valid crypto (codes "zu1k.com") 700000000 answer.0)
      (get_certified_key crypto (cache (CertifiedKey crypto)) authority 7 clock (codes "zu1k.com"))
Served-Valid_example =
    Served-Valid crypto (cache (CertifiedKey crypto)) (cache_laws (CertifiedKey crypto)) 5 authority
      7 clock (codes "zu1k.com") begun (omega arith)
      (record {
        looked_first = omega arith;
        before_after = omega arith;
        after_stored = omega arith;
        within_day = omega arith;
        in_range = omega arith;
      })
