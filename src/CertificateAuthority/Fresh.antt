-- ===== src/CertificateAuthority/Fresh.antt =====
-- The certificates that are handed out are for the name that was asked for, and valid for long.
use good_mitm.Prelude.{
  ℕ, ◌≡◌, refl, sym, ap, ◌∙◌, inl, inr, ◌+◌, ◌-◌, ◌*◌, ◌≤◌, Option, none, some, Option-cases, [],
  ◌∷◌, arith, head?,
}
use mathlib.Core.Path.{subst}
use good_mitm.Text.{Text}
use good_mitm.CertificateAuthority.{
  Crypto, CacheLibrary, CacheLaws, Clock, LeafParams, day, cert_ttl_days, cert_cache_ttl_seconds,
  CertifiedKey, leaf_params, CertificateAuthority, saturating_add, expect, ◌>>=◌, gen_cert, issue,
  get_certified_key,
}

-- The clock goes forward, a call takes a day at most, and the last time is far away.
pub record IsPrompt (C : Crypto) (clock : Clock) : Type 0 where
  pub looked_first : clock.looked ≤ clock.before
  pub before_after : clock.before ≤ clock.after
  pub after_stored : clock.after ≤ clock.stored
  pub within_day : clock.stored ≤ clock.looked + day
  pub in_range : clock.after + cert_ttl_days * day ≤ C.max_time

-- How long a certificate that is handed out is valid from then on, at least: 180 days.
abbrev pub margin : ℕ
margin = 15552000

-- Every value of the option is one of `P`.
abbrev pub Ensured {ℓ} : {A : Type 0} → (A → Type ℓ) → Option A → Type ℓ
Ensured P none = Unit
Ensured P (some a) = P a

pub Ensured-bind {ℓ} :
    {A B : Type 0} (P : B → Type ℓ) (m : Option A) (f : A → Option B)
    → ((a : A) → m ≡ some a → Ensured P (f a))
    → Ensured P (m >>= f)
Ensured-bind P none f h = tt
Ensured-bind P (some a) f h = h a refl

pub Ensured-at {ℓ} :
    {A : Type 0} (P : A → Type ℓ) (m : Option A) {a : A} → m ≡ some a → Ensured P m → P a
Ensured-at P m e h = subst (Ensured P) e h

pub Ensured-of {ℓ} :
    {A : Type 0} (P : A → Type ℓ) (m : Option A) → ((a : A) → m ≡ some a → P a) → Ensured P m
Ensured-of P none h = tt
Ensured-of P (some a) h = h a refl

module _ (C : Crypto) where
  -- The certificate of the key is signed over parameters for the name, which are valid from `begin`
  -- to `end`.
  pub record Made (name : Text) (begin end : ℕ) (key : CertifiedKey C) : Type 0 where
    pub params : LeafParams C.KeyPair C.Alg
    pub leaf : C.Certificate
    pub signer : C.Certificate
    pub made : C.from_params params ≡ some leaf
    pub signed : C.serialize_with_signer leaf signer ≡ some key.0
    pub named : params.subject_alt_names ≡ name ∷ []
    pub begins : params.not_before ≡ begin
    pub ends : params.not_after ≡ end

  -- The key has a certificate for the name, valid now and for 180 days more.
  abbrev pub Valid : Text → ℕ → CertifiedKey C → Type 0
  Valid name now key =
      (begin end : ℕ) × (begin ≤ now) × (now + margin ≤ end) × Made name begin end key

  -- In range, the end of a certificate is a year after its making.
  saturating-in_range : (t d : ℕ) → t + d ≤ C.max_time → saturating_add C t d ≡ t + d
  saturating-in_range t d h = ground arith

  module _ (K : CacheLibrary (CertifiedKey C)) where
    -- What is found in the cache, from a time on, is valid when it is found.
    abbrev pub CacheValid : ℕ → K.Cache → Type 0
    CacheValid t c =
        (now : ℕ) (n : Text) (k : CertifiedKey C) → t ≤ now → K.get now n c ≡ some k → Valid n now k

    -- The cache keeps its time to live, and holds valid keys from the time on.
    abbrev pub CacheGood : ℕ → K.Cache → Type 0
    CacheGood t c = (K.time_to_live c ≡ cert_cache_ttl_seconds) × CacheValid t c

    module _ (self : CertificateAuthority C K) (serial : ℕ) (clock : Clock) (name : Text) where
      gen_cert-Made :
          Ensured
            (λ der.
              (key : C.SigningKey)
              → Made name
                  (clock.before - day)
                  (saturating_add C clock.after (cert_ttl_days * day))
                  (der, key))
            (gen_cert C K self serial clock name)
      unfolding gen_cert
      gen_cert-Made = Ensured-bind _ (expect (C.key_from_der self.private_key)) _ (λ key_pair _.
          Ensured-bind _ (head? (C.compatible_algs key_pair)) _ (λ alg _.
            Ensured-bind _ (expect (C.key_from_der self.private_key)) _ (λ key_pair' _.
              Ensured-bind _ (expect (C.ca_params_from_der self.ca_cert key_pair')) _
                (λ ca_params _. Ensured-bind _ (C.from_ca_params ca_params) _ (λ signer _.
                  let params = leaf_params C serial clock.before clock.after name alg key_pair in
                  Ensured-bind _ (C.from_params params) _ (λ leaf made.
                    Ensured-of _ (C.serialize_with_signer leaf signer) (λ der signed key. record {
                      params = params;
                      leaf = leaf;
                      signer = signer;
                      made = made;
                      signed = signed;
                      named = refl;
                      begins = refl;
                      ends = refl;
                    })))))))

      issue-Made :
          Ensured
            (λ answer.
              Made name
                (clock.before - day)
                (saturating_add C clock.after (cert_ttl_days * day))
                answer.0
              × (answer.1 ≡ K.insert clock.stored name answer.0 self.cache))
            (issue C K self serial clock name)
      unfolding issue
      issue-Made = Ensured-bind _ (gen_cert C K self serial clock name) _ (λ der generated.
          Ensured-bind _ (C.any_supported_type self.private_key) _ (λ key _.
            (Ensured-at _ (gen_cert C K self serial clock name) generated gen_cert-Made key, refl)))

      module _ (laws : CacheLaws (CertifiedKey C) K) (prompt : IsPrompt C clock) where
        -- A key that is made at such a time is valid as long as the cache may hold it.
        Made-Valid :
            (now : ℕ) (key : CertifiedKey C)
            → clock.looked ≤ now
            → now ≤ clock.stored + cert_cache_ttl_seconds
            → Made name
                (clock.before - day)
                (saturating_add C clock.after (cert_ttl_days * day))
                key
            → Valid name now key
        Made-Valid now key late early made =
            let first = prompt.looked_first in
            let second = prompt.before_after in
            let third = prompt.after_stored in
            let within = prompt.within_day in
            (
              clock.before - day,
              clock.after + cert_ttl_days * day,
              omega arith,
              omega arith,
              subst (λ end. Made name (clock.before - day) end key)
                  (saturating-in_range clock.after (cert_ttl_days * day) prompt.in_range) made,
            )

        -- A key that is put into a cache of valid keys leaves one.
        insert-CacheValid :
            (t : ℕ) (key : CertifiedKey C)
            → t ≤ clock.stored
            → K.time_to_live self.cache ≡ cert_cache_ttl_seconds
            → CacheValid t self.cache
            → Made name
                (clock.before - day)
                (saturating_add C clock.after (cert_ttl_days * day))
                key
            → CacheValid clock.stored (K.insert clock.stored name key self.cache)
        insert-CacheValid t key le ttl valid made now n k late found =
            elim (laws.get-insert now clock.stored n name key k self.cache found) [
              | inl (same, it, early) ↦
                  subst (λ m. Valid m now k) (sym same)
                    (subst (Valid name now) (sym it) (
                      Made-Valid now key (omega arith)
                        (subst (λ d. now ≤ clock.stored + d) ttl early) made))
              | inr old ↦ valid now n k (omega arith) old
            ]

        issue-Valid :
            (t : ℕ)
            → t ≤ clock.looked
            → CacheGood t self.cache
            → Ensured
                (λ answer. Valid name clock.looked answer.0 × CacheGood clock.stored answer.1)
                (issue C K self serial clock name)
        issue-Valid t le (ttl, valid) =
            let first = prompt.looked_first in
            let second = prompt.before_after in
            let third = prompt.after_stored in
            Ensured-of _ (issue C K self serial clock name) (λ answer issued.
              let (made, stored) =
                Ensured-at _ (issue C K self serial clock name) issued issue-Made in
              (
                Made-Valid clock.looked answer.0 (omega arith) (omega arith) made,
                (
                  ap K.time_to_live stored
                      ∙ laws.ttl-insert clock.stored name answer.0 self.cache
                      ∙ ttl,
                  subst (CacheValid clock.stored) (sym stored)
                      (insert-CacheValid t answer.0 (omega arith) ttl valid made),
                ),
              ))

        pub get_certified_key-Valid :
            (t : ℕ)
            → t ≤ clock.looked
            → CacheGood t self.cache
            → Ensured
                (λ answer. Valid name clock.looked answer.0 × CacheGood clock.stored answer.1)
                (get_certified_key C K self serial clock name)
        unfolding get_certified_key
        get_certified_key-Valid t le (ttl, valid) =
            let first = prompt.looked_first in
            let second = prompt.before_after in
            let third = prompt.after_stored in
            elim (Option-cases (K.get clock.looked name self.cache)) [
              | inl absent ↦ rw (absent, get_certified_key) (issue-Valid t le (ttl, valid))
              | inr (key, present) ↦
                  rw (present, get_certified_key)
                    (
                      valid clock.looked name key le present,
                      (ttl, λ now n k late found. valid now n k (omega arith) found),
                    )
            ]
