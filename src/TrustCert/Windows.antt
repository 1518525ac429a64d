-- ===== src/TrustCert/Windows.antt =====
-- crates/trust_cert/src/windows.rs
use Prim.Native.Nat.{◌^◌}
use good_mitm.Prelude.{
  ℕ, ◌≡◌, ◌↔◌, refl, ◌%◌, inl, inr, Option-cases, Bool, true, false, Option, none, some, List, [],
  ◌∷◌, length, if◌then◌else◌,
}
use good_mitm.Text.{Text, codes}
use good_mitm.Io.{Outcome, done, panic}

-- The system that the code runs on; the certificate is given by what `serialize_der` returns.
pub record WindowsSystem : Type 0 where
  pub der : Option (List ℕ)
  -- the flags for the encoding, `X509_ASN_ENCODING.0 | PKCS_7_ASN_ENCODING.0`
  pub encoding : ℕ
  -- whether opening the store, adding the bytes of the given length, and closing succeed
  pub opens : Text → Bool
  pub adds : ℕ → List ℕ → ℕ → Bool
  pub closes : Bool

-- The calls of the system.
pub data StoreCall : Type 0 where
  open_store : Text → StoreCall
  add_replacing : ℕ → List ℕ → ℕ → StoreCall
  close_store : StoreCall

module _ (s : WindowsSystem) where
  closed : Bool → List StoreCall × Outcome (Unit {0})
  closed ok = (close_store ∷ [], if ok then done tt else panic)

  added : List ℕ → Bool → List StoreCall × Outcome (Unit {0})
  unfolding closed
  added cert ok =
      let rest = closed s.closes in
      let call = add_replacing s.encoding cert (length cert % 2 ^ 32) in
      if ok then (call ∷ rest.0, rest.1) else (call ∷ [], panic)

  opened : List ℕ → Bool → List StoreCall × Outcome (Unit {0})
  unfolding added
  opened cert ok =
      let rest = added cert (s.adds s.encoding cert (length cert % 2 ^ 32)) in
      let call = open_store (codes "ROOT") in
      if ok then (call ∷ rest.0, rest.1) else (call ∷ [], panic)

  unfoldable pub install_cert : List StoreCall × Outcome (Unit {0})
  unfolding opened
  install_cert = elim s.der [
    | none ↦ ([], panic)
    | some cert ↦ opened cert (s.opens (codes "ROOT"))
  ]

  -- Every call succeeds, and these are the calls.
  pub record Installed (cert : List ℕ) : Type 0 where
    pub serialized : s.der ≡ some cert
    pub store_opened : s.opens (codes "ROOT") ≡ true
    pub cert_added : s.adds s.encoding cert (length cert % 2 ^ 32) ≡ true
    pub store_closed : s.closes ≡ true
    pub calls :
        install_cert.0
        ≡ open_store (codes "ROOT")
          ∷ add_replacing s.encoding cert (length cert % 2 ^ 32)
          ∷ close_store
          ∷ []

  -- The installation ends without a panic exactly if the certificate can be serialized, the store of
  -- roots opened, the certificate added to it and the store closed; these are then the calls, in this
  -- order.
  pub install_cert_iff : (install_cert.1 ≡ done tt) ↔ ((cert : List ℕ) × Installed cert)
  unfolding install_cert opened added closed
  install_cert_iff = (
    all_done,
    λ (cert, is).
        rw (install_cert, is.serialized, is.store_opened, is.cert_added, is.store_closed) refl,
  )
    where
      by_close :
          (cert : List ℕ) (a b c : Bool)
          → s.der ≡ some cert
          → s.opens (codes "ROOT") ≡ a
          → s.adds s.encoding cert (length cert % 2 ^ 32) ≡ b
          → s.closes ≡ c
          → install_cert.1 ≡ done tt
          → Installed cert
      by_close cert true true true d o a c h = record {
        serialized = d;
        store_opened = o;
        cert_added = a;
        store_closed = c;
        calls = rw (install_cert, d, o, a) refl;
      }
      by_close cert true true false d o a c h =
          let ends : install_cert.1 ≡ panic = rw (install_cert, d, o, a, c) refl in absurd cc
      by_close cert true false _ d o a c h =
          let ends : install_cert.1 ≡ panic = rw (install_cert, d, o, a) refl in absurd cc
      by_close cert false _ _ d o a c h =
          let ends : install_cert.1 ≡ panic = rw (install_cert, d, o) refl in absurd cc

      all_done : install_cert.1 ≡ done tt → (cert : List ℕ) × Installed cert
      all_done h = elim (Option-cases s.der) [
        | inl none_left ↦
            let ends : install_cert.1 ≡ panic = rw (install_cert, none_left) refl in absurd cc
        | inr (cert, d) ↦ (
          cert,
          by_close cert (s.opens (codes "ROOT")) (s.adds s.encoding cert (length cert % 2 ^ 32))
              s.closes d refl refl refl h,
        )
      ]
