-- ===== src/TrustCert.antt =====
-- crates/trust_cert/src/linux.rs
pub mod Stores
pub mod Windows
use good_mitm.Prelude.{
  ℕ, ◌==◌, ◌||◌, Bool, true, false, Option, none, some, List, [], ◌∷◌, ◌++◌, if◌then◌else◌,
  is_empty,
}
use good_mitm.Text.{Text, codes, starts_with, ends_with, replace}
use good_mitm.Io.{Outcome, done, panic}

-- The system that the code runs on; the certificate is given by what `serialize_pem` returns.
pub record System : Type 0 where
  pub egid : ℕ
  pub exists : Text → Bool
  pub var : Text → Option Text
  pub pem : Option Text
  -- whether writing the text to the file, and starting the command, succeed
  pub writes : Text → Text → Bool
  pub starts : Text → List Text → Bool

-- What the code does to the system.
pub data Act : Type 0 where
  printed : Text → Act
  wrote : Text → Text → Act
  ran : Text → List Text → Act

-- `Path::join`
unfoldable pub join : Text → Text → Text
join dir name =
    if starts_with name (codes "/")
    then name
    else if is_empty dir || ends_with dir (codes "/")
    then dir ++ name
    else dir ++ (codes "/" ++ name)

-- The text that ends `get_ca_root`.
abbrev with_mitm : Text → Text
with_mitm dir = if is_empty dir then dir else join dir (codes "mitm")

unfoldable pub get_ca_root : System → Text
unfolding join
get_ca_root s = elim (s.var (codes "CAROOT")) [
  | some v ↦ v
  | none ↦ elim (s.var (codes "XDG_DATA_HOME")) [
    | some v ↦ v
    | none ↦ elim (s.var (codes "HOME")) [
      | some v ↦ join (join v (codes ".local")) (codes "share")
      | none ↦ with_mitm []
    ]
  ]
]

-- The name of the file, the command and its arguments.
abbrev pub Store : Type 0
Store = Text × Text × List Text

unfoldable pub chosen_store : System → Store
chosen_store s =
    if s.exists (codes "/etc/pki/ca-trust/source/anchors/")
    then (
      codes "/etc/pki/ca-trust/source/anchors/{cert-name}.pem",
      codes "update-ca-trust",
      codes "extract" ∷ [],
    )
    else if s.exists (codes "/usr/local/share/ca-certificates/")
    then (
      codes "/usr/local/share/ca-certificates/{cert-name}.crt",
      codes "update-ca-certificates",
      [],
    )
    else if s.exists (codes "/etc/ca-certificates/trust-source/anchors/")
    then (
      codes "/etc/ca-certificates/trust-source/anchors/{cert-name}.crt",
      codes "trust",
      codes "extract-compat" ∷ [],
    )
    else if s.exists (codes "/usr/share/pki/trust/anchors")
    then (codes "/usr/share/pki/trust/anchors/{cert-name}.pem", codes "update-ca-certificates", [])
    else (codes "good-mitm.pem", [], [])

-- What follows the writing of the file.
unfoldable pub register : System → Text → List Text → List Act × Outcome (Unit {0})
unfolding get_ca_root
register s [] args = (
  printed (
        codes "Installing to the system store is not yet supported on this Linux "
        ++ ((0xF0 ∷ 0x9F ∷ 0x98 ∷ 0xA3 ∷ [])
            ++ codes " but Firefox and/or Chrome/Chromium will still work."))
      ∷ printed (
          codes "You can also manually install the root certificate at "
          ++ (join (get_ca_root s) (codes "good-mitm.pem") ++ codes "."))
      ∷ [],
  done tt,
)
register s command args = (ran command args ∷ [], if s.starts command args then done tt else panic)

abbrev pub system_trust_name : Text → Text
system_trust_name file = replace file (codes "{cert-name}") (codes "good-mitm")

-- The writing of a certificate to a store.
unfoldable pub store_cert : System → Text → Store → List Act × Outcome (Unit {0})
unfolding register
store_cert s cert (file, command, args) =
    let name = system_trust_name file in
    if s.writes name cert
    then (let after = register s command args in (wrote name cert ∷ after.0, after.1))
    else ([], panic)

unfoldable pub install_cert : System → List Act × Outcome (Unit {0})
unfolding store_cert chosen_store
install_cert s =
    if s.egid == 0
    then elim s.pem [ none ↦ ([], panic) | some cert ↦ store_cert s cert (chosen_store s) ]
    else (printed (codes "Please run with root permission") ∷ [], done tt)
