-- ===== src/CommandLine.antt =====
-- src/main.rs and src/ca.rs: the commands `run` and `genca`
pub mod Authority
pub mod Configured
pub mod Generated
pub mod Handout
use good_mitm.Prelude.{
  ℕ, Bool, true, false, ◌||◌, ◌&&◌, Option, none, some, List, [], ◌∷◌, ◌++◌, head?, map,
  if◌then◌else◌,
}
use good_mitm.Text.{Text, codes, eq, from_utf8}
use good_mitm.Env.{Env, Result, ok, err}
use good_mitm.Io.{Io, Outcome, done, panic, info, pure, tell, unwrap, ◌>>=◌, ◌>>◌}
use good_mitm.Handler.{RuleHandlerCtx, rule_http_handler}
use good_mitm.CertificateAuthority.{
  Crypto, CacheLibrary, CertifiedKey, CertificateAuthority, new, expect,
}
use good_mitm.CertificateAuthority.Root.{RootLibrary, gen_root}
use good_mitm.Client.{Connectors}
use good_mitm.Proxy.{Sockets, Proxy}
use good_mitm.RuleFile.{Files, Loaded, load_rules_amd_mitm_filters}
use good_mitm.TrustCert.{System, Act, install_cert}

-- The files with what is in them, the folders, and the error, if any, with which the system refuses
-- to create a folder or to write a file.
pub record Disk : Type 0 where
  pub files : Text → Option (List ℕ)
  pub folders : Text → Bool
  pub refuses : Text → Option Text

abbrev taken : Option (List ℕ) → Bool
taken none = false
taken (some bytes) = true

-- `fs::create_dir`; `none` is an error.
unfoldable pub create_dir : Text → Disk → Option Disk
create_dir path disk = elim (disk.refuses path) [
  | some e ↦ none
  | none ↦
      if disk.folders path || taken (disk.files path)
      then none
      else some (record disk { folders = λ p. eq p path || disk.folders p })
]

-- `fs::write`
unfoldable pub write : Text → List ℕ → Disk → Result Disk Text
write path bytes disk = elim (disk.refuses path) [
  | some e ↦ err e
  | none ↦ ok (record disk { files = λ p. if eq p path then some bytes else disk.files p })
]

-- What `genca` does besides writing.
pub data Note : Type 0 where
  printed : Text → Note
  logged : Text → Note
  trusting : Act → Note

abbrev logged_error : Text → Disk → Result Disk Text → List Note × Disk
logged_error message disk (ok disk') = ([], disk')
logged_error message disk (err e) = (logged (message ++ e) ∷ [], disk)

module _ (R : Crypto) (L : RootLibrary R) where
  -- The two files of `gen_ca`.
  unfoldable pub stored : R.Certificate → Text → Disk → List Note × Outcome R.Certificate × Disk
  stored cert cert_crt disk =
      let first =
        logged_error (codes "cert file write failed: ") disk
          (write (codes "ca/cert.crt") cert_crt disk) in
      let private_key = L.serialize_private_key_pem cert in
      let second =
        logged_error (codes "private key file write failed: ") first.1
          (write (codes "ca/private.key") private_key first.1) in
      (printed cert_crt ∷ (first.0 ++ (printed private_key ∷ second.0)), done cert, second.1)

  unfoldable pub gen_ca : Disk → List Note × Outcome R.Certificate × Disk
  unfolding stored
  gen_ca disk = elim (gen_root R L) [
    | err e ↦ ([], panic, disk)
    | ok cert ↦ elim (L.serialize_pem cert) [
      | err e ↦ ([], panic, disk)
      | ok cert_crt ↦ elim (create_dir (codes "ca") disk) [
        | none ↦ ([], panic, disk)
        | some disk' ↦ stored cert cert_crt disk'
      ]
    ]
  ]

-- The options of `run`
pub record Run : Type 0 where
  pub key : Text
  pub cert : Text
  pub rule : Text
  pub bind : Text
  pub proxy : Option Text

abbrev pub default_key : Text
default_key = codes "ca/private.key"

abbrev pub default_cert : Text
default_cert = codes "ca/cert.crt"

-- What the options are parsed to: a path, an address, and `hyper_proxy::Proxy::new` of a URI.
pub record Parsers (E : Env) (C : Connectors E) (S : Sockets) (F : Files) : Type 0 where
  pub rule_path : Text → F.FilePath
  pub socket_addr : Text → Option S.SocketAddr
  pub upstream : Text → Option C.UpstreamProxy

module _ (E : Env) (R : Crypto) (K : CacheLibrary (CertifiedKey R)) (C : Connectors E)
    (S : Sockets) where
  abbrev pub Started : Type 0
  Started = Result (Proxy E R K C S RuleHandlerCtx) Text

module _ (E : Env) (R : Crypto) (L : RootLibrary R) (K : CacheLibrary (CertifiedKey R))
    (disk : Disk) where
  unfoldable pub load_private_key : Text → Io E R.PrivateKey
  load_private_key path = do
    tell (info (codes "CA Private key use: " ++ path))
    private_key_bytes ← unwrap (disk.files path)
    private_key ← unwrap (L.pkcs8_private_keys private_key_bytes)
    unwrap (head? private_key)

  -- The certificate, and the text it stands in.
  unfoldable pub load_ca_cert : Text → Io E (R.CaCert × List ℕ)
  load_ca_cert path = do
    tell (info (codes "CA Certificate use: " ++ path))
    ca_cert_bytes ← unwrap (disk.files path)
    certs ← unwrap (L.certs ca_cert_bytes)
    ca_cert ← unwrap (head? certs)
    pure (ca_cert, ca_cert_bytes)

  unfoldable pub load_authority : Text → Text → Io E (CertificateAuthority R K)
  unfolding load_private_key load_ca_cert
  load_authority key cert = do
    private_key ← load_private_key key
    ca_cert ← load_ca_cert cert
    text ← unwrap (from_utf8 ca_cert.1)
    unwrap (expect (new R K private_key ca_cert.0 text 1000))

  module _ (C : Connectors E) (S : Sockets) (F : Files) where
    module _ (P : Parsers E C S F) where
      upstream_proxy : Option Text → Io E (Option C.UpstreamProxy)
      upstream_proxy none = pure none
      upstream_proxy (some proxy) = do uri ← unwrap (P.upstream proxy); pure (some uri)

      unfoldable pub configured :
          Run → CertificateAuthority R K → Result Loaded Text → Io E (Started E R K C S)
      unfolding upstream_proxy
      configured opts ca (err e) = pure (err e)
      configured opts ca (ok (rules, mitm_filters)) = do
        listen_addr ← unwrap (P.socket_addr opts.bind)
        upstream ← upstream_proxy opts.proxy
        pure (
            ok (record {
              listen_addr = listen_addr;
              ca = ca;
              upstream_proxy = upstream;
              mitm_filters = mitm_filters;
              handler = rule_http_handler E rules;
            }))

      -- The proxy whose `start_proxy` the command spawns; or the error it returns.
      unfoldable pub run : Run → Io E (Started E R K C S)
      unfolding load_authority configured
      run opts = do
        ca ← load_authority opts.key opts.cert
        tell (info (codes "Http Proxy listen on: http://" ++ opts.bind))
        loaded ← load_rules_amd_mitm_filters E F (P.rule_path opts.rule)
        configured opts ca loaded

module _ (R : Crypto) (L : RootLibrary R) (system : System) where
  -- `trust_cert` on Linux
  abbrev trust_cert :
      List Note × Outcome R.Certificate × Disk → List Note × Outcome (Unit {0}) × Disk
  trust_cert (notes, panic, disk) = (notes, panic, disk)
  trust_cert (notes, done cert, disk) =
      let installed = install_cert system in (notes ++ map trusting installed.0, installed.1, disk)

  abbrev forgotten :
      List Note × Outcome R.Certificate × Disk → List Note × Outcome (Unit {0}) × Disk
  forgotten (notes, panic, disk) = (notes, panic, disk)
  forgotten (notes, done cert, disk) = (notes, done tt, disk)

  -- `genca`; `feature` is whether `trust-cert` is on, `trust` is the option.
  unfoldable pub genca : Bool → Bool → Disk → List Note × Outcome (Unit {0}) × Disk
  unfolding gen_ca
  genca feature trust disk =
      if trust && feature then trust_cert (gen_ca R L disk) else forgotten (gen_ca R L disk)
