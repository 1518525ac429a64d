-- ===== src/Tests/Trust.antt =====
-- The theorems on the trust in the certificate.
use good_mitm.Prelude.{◌↔◌, ℕ, List, ◌≡◌, refl, true, none, some, [], ◌∷◌, if◌then◌else◌}
use good_mitm.Text.{codes, eq}
use good_mitm.Io.{done}
use good_mitm.TrustCert.Windows
use good_mitm.TrustCert.Windows.{WindowsSystem, Installed, install_cert_iff}
use good_mitm.TrustCert.{System, wrote, ran, install_cert}
use good_mitm.TrustCert.Stores.{install_cert_lem}

-- A system with the second of the folders.
abbrev system : System
system = record {
  egid = 0;
  exists = λ p. eq p (codes "/usr/local/share/ca-certificates/");
  var = λ name. if eq name (codes "HOME") then some (codes "/root") else none;
  pem = some (codes "pem");
  writes = λ name text. true;
  starts = λ command args. true;
}

install_cert_lem_example : install_cert system ≡ (
  wrote (codes "/usr/local/share/ca-certificates/good-mitm.crt") (codes "pem")
      ∷ ran (codes "update-ca-certificates") []
      ∷ [],
  done tt,
)
unfolding eq
install_cert_lem_example =
    install_cert_lem system (codes "pem") refl refl (λ name text. refl) (λ command args. refl)

-- A system that does every call.
abbrev windows : WindowsSystem
windows = record {
  der = some (codes "der");
  encoding = 65537;
  opens = λ name. true;
  adds = λ encoding bytes count. true;
  closes = true;
}

install_cert_iff_example :
    ((Windows.install_cert windows).1 ≡ done tt) ↔ ((cert : List ℕ) × Installed windows cert)
install_cert_iff_example = install_cert_iff windows
