-- ===== src/TrustCert/Stores.antt =====
-- Where a certificate is put, and what is said of it.
use good_mitm.Prelude.{
  if◌then◌else◌, Bool-cases, inl, inr, ◌≡◌, Bool, true, Option, none, some, List, [], ◌∷◌, ◌++◌,
}
use good_mitm.Text.{Text, codes, replace, replace_from, starts_with}
use good_mitm.Io.{done}
use good_mitm.TrustCert.{
  System, Act, printed, wrote, ran, get_ca_root, chosen_store, register, store_cert, install_cert,
  join,
}

-- The folders that the systems have for certificates, in the order of preference, each with the file
-- and the command for it.
abbrev pub stores : List (Text × Text × Text × List Text)
stores =
    (
      codes "/etc/pki/ca-trust/source/anchors/",
      codes "/etc/pki/ca-trust/source/anchors/good-mitm.pem",
      codes "update-ca-trust",
      codes "extract" ∷ [],
    )
    ∷ (
      codes "/usr/local/share/ca-certificates/",
      codes "/usr/local/share/ca-certificates/good-mitm.crt",
      codes "update-ca-certificates",
      [],
    )
    ∷ (
      codes "/etc/ca-certificates/trust-source/anchors/",
      codes "/etc/ca-certificates/trust-source/anchors/good-mitm.crt",
      codes "trust",
      codes "extract-compat" ∷ [],
    )
    ∷ (
      codes "/usr/share/pki/trust/anchors",
      codes "/usr/share/pki/trust/anchors/good-mitm.pem",
      codes "update-ca-certificates",
      [],
    )
    ∷ []

-- The store of the first folder that exists.
abbrev pub first_store :
    (Text → Bool) → List (Text × Text × Text × List Text) → Option (Text × Text × List Text)
first_store exists [] = none
first_store exists ((folder, file, command, args) ∷ more) =
    if exists folder then some (file, command, args) else first_store exists more

-- What is to happen for a certificate and a store.
abbrev pub performed : System → Text → Option (Text × Text × List Text) → List Act
performed s cert none =
    wrote (codes "good-mitm.pem") cert
    ∷ printed (
        codes "Installing to the system store is not yet supported on this Linux "
        ++ ((0xF0 ∷ 0x9F ∷ 0x98 ∷ 0xA3 ∷ [])
            ++ codes " but Firefox and/or Chrome/Chromium will still work."))
    ∷ printed (
        codes "You can also manually install the root certificate at "
        ++ (join (get_ca_root s) (codes "good-mitm.pem") ++ codes "."))
    ∷ []
performed s cert (some (file, command, args)) = wrote file cert ∷ ran command args ∷ []

module _ (s : System) (cert : Text) where
  -- With root's rights, a certificate that can be written, and commands that start, the certificate
  -- is written once: to the store of the first folder that exists, whose command is then run, or,
  -- if none exists, to `good-mitm.pem` in the working folder, while what is printed names a file of
  -- the folder of `get_ca_root`.
  pub install_cert_lem :
      s.egid ≡ 0
      → s.pem ≡ some cert
      → ((n t : Text) → s.writes n t ≡ true)
      → ((c : Text) (a : List Text) → s.starts c a ≡ true)
      → install_cert s ≡ (performed s cert (first_store s.exists stores), done tt)
  unfolding install_cert chosen_store store_cert register replace replace_from starts_with
  install_cert_lem root serialized writes starts =
      elim (Bool-cases (s.exists (codes "/etc/pki/ca-trust/source/anchors/"))) [
        | inl e1 ↦ simp (root, serialized, e1, writes, starts)
        | inr n1 ↦ elim (Bool-cases (s.exists (codes "/usr/local/share/ca-certificates/"))) [
          | inl e2 ↦ simp (root, serialized, n1, e2, writes, starts)
          | inr n2 ↦
              elim (Bool-cases (s.exists (codes "/etc/ca-certificates/trust-source/anchors/"))) [
                | inl e3 ↦ simp (root, serialized, n1, n2, e3, writes, starts)
                | inr n3 ↦ elim (Bool-cases (s.exists (codes "/usr/share/pki/trust/anchors"))) [
                  | inl e4 ↦ simp (root, serialized, n1, n2, n3, e4, writes, starts)
                  | inr n4 ↦ simp (root, serialized, n1, n2, n3, n4, writes)
                ]
              ]
        ]
      ]
