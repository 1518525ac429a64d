-- ===== src/CommandLine/Generated.antt =====
-- What `genca` writes is what `run` reads.
use good_mitm.Prelude.{◌≡◌, refl, false, ◌||◌, none, some, if◌then◌else◌}
use good_mitm.Text.{Text, codes, eq}
use good_mitm.Env.{Env, ok}
use good_mitm.Io.{done}
use good_mitm.CertificateAuthority.{
  Crypto, CacheLibrary, CertifiedKey, CertificateAuthority, new, validate, cert_cache_ttl_seconds,
}
use good_mitm.CertificateAuthority.Root.{RootLibrary, RootLaws, gen_root, root_params}
use good_mitm.Prelude.{List, Option}
use good_mitm.Io.{unwrap}
use good_mitm.Io.Ensures.{done-bind}
use good_mitm.Handler.{RuleHandlerCtx, rule_http_handler}
use good_mitm.CertificateAuthority.{get_cert}
use good_mitm.Client.{Connectors}
use good_mitm.Proxy.{Sockets, Proxy}
use good_mitm.Rule.{Rule}
use good_mitm.RuleFile.{Files, load_rules_amd_mitm_filters}
use good_mitm.CommandLine.{
  Run, Parsers, run, configured, upstream_proxy, Disk, create_dir, write, stored, gen_ca,
  default_key, default_cert, load_private_key, load_ca_cert, load_authority,
}

-- There is no `ca` yet, and the system lets it be made and filled.
pub record IsReady (disk : Disk) : Type 0 where
  pub no_folder : disk.folders (codes "ca") ≡ false
  pub no_file : disk.files (codes "ca") ≡ none
  pub makes : disk.refuses (codes "ca") ≡ none
  pub takes_cert : disk.refuses default_cert ≡ none
  pub takes_key : disk.refuses default_key ≡ none

abbrev put : Text → Text → Disk → Disk
put path bytes disk = record disk { files = λ p. if eq p path then some bytes else disk.files p }

write-allowed :
    (path bytes : Text) (disk : Disk)
    → disk.refuses path ≡ none
    → write path bytes disk ≡ ok (put path bytes disk)
unfolding write
write-allowed path bytes disk free = rw (free, write) refl

create_dir-free :
    (path : Text) (disk : Disk)
    → disk.refuses path ≡ none
    → disk.folders path ≡ false
    → disk.files path ≡ none
    → create_dir path disk ≡ some (record disk { folders = λ p. eq p path || disk.folders p })
unfolding create_dir
create_dir-free path disk free no_folder no_file = rw (free, no_folder, no_file, create_dir) refl

-- The disk with the folder and the two files.
abbrev with_ca : Text → Text → Disk → Disk
with_ca cert key disk = record disk {
  files = λ p.
      if eq p default_key then some key else if eq p default_cert then some cert else disk.files p;
  folders = λ p. eq p (codes "ca") || disk.folders p;
}

module _ (R : Crypto) (L : RootLibrary R) (disk : Disk) where
  gen_ca-with_ca :
      (cert : R.Certificate) (pem : Text)
      → gen_root R L ≡ ok cert
      → L.serialize_pem cert ≡ ok pem
      → IsReady disk
      → ((gen_ca R L disk).1 ≡ done cert)
        × ((gen_ca R L disk).2 ≡ with_ca pem (L.serialize_private_key_pem cert) disk)
  unfolding gen_ca stored
  gen_ca-with_ca cert pem generated printed ready =
      let key = L.serialize_private_key_pem cert in
      let with_folder = record disk { folders = λ p. eq p (codes "ca") || disk.folders p } in
      let made = create_dir-free (codes "ca") disk ready.makes ready.no_folder ready.no_file in
      let first = write-allowed default_cert pem with_folder ready.takes_cert in
      let second =
        write-allowed default_key key (put default_cert pem with_folder) ready.takes_key in
      rw (gen_ca, generated, printed, made, stored, first, second) (refl, refl)

  module _ (E : Env) (K : CacheLibrary (CertifiedKey R)) (laws : RootLaws R L) where
    -- If there is no `ca` yet, nothing is refused, and the libraries make a certificate, then
    -- `gen_ca` ends with it, and on the disk that it leaves, `run` with its default paths loads an
    -- authority that has the key of the certificate, and whose text is the PEM that was printed.
    gen_ca-load_authority :
        (cert : R.Certificate) (pem : Text)
        → gen_root R L ≡ ok cert
        → L.serialize_pem cert ≡ ok pem
        → IsReady disk
        → ((gen_ca R L disk).1 ≡ done cert)
          × (ca : CertificateAuthority R K) × ((load_authority E R L K
                (gen_ca R L disk).2
                default_key
                default_cert).1
              ≡ done ca)
          × (ca.private_key ≡ laws.key_of cert)
          × (ca.ca_cert_string ≡ pem)
    unfolding load_authority load_private_key load_ca_cert new validate eq
    gen_ca-load_authority cert pem generated printed ready =
        let (ca_cert, read) = laws.read-pem cert pem printed in
        let (key_pair, params, has_key, has_cert) =
          laws.loads root_params cert pem ca_cert generated printed read in
        let (ends, leaves) = gen_ca-with_ca cert pem generated printed ready in
        (
          ends,
          record {
            private_key = laws.key_of cert;
            ca_cert = ca_cert;
            ca_cert_string = pem;
            cache = K.build 1000 cert_cache_ttl_seconds;
          },
          rw
              (
                leaves,
                laws.read-key cert,
                read,
                laws.text-pem cert pem printed,
                new,
                validate,
                has_key,
                has_cert,
              )
              refl,
          refl,
          refl,
        )

    module _ (C : Connectors E) (S : Sockets) (F : Files) (P : Parsers E C S F) where
      -- The options name the files of `genca`, an address, a proxy behind if any, and a path from which
      -- the rules and the patterns are loaded.
      pub record IsUsable (opts : Run) (rules : List Rule) (patterns : List Text) : Type 0 where
        pub own_key : opts.key ≡ default_key
        pub own_cert : opts.cert ≡ default_cert
        pub address : (addr : S.SocketAddr) × (P.socket_addr opts.bind ≡ some addr)
        pub upstream :
            (proxy : Text)
            → opts.proxy ≡ some proxy
            → (u : C.UpstreamProxy) × (P.upstream proxy ≡ some u)
        pub loads :
            (load_rules_amd_mitm_filters E F (P.rule_path opts.rule)).1
            ≡ done (ok (rules, patterns))

      upstream_proxy-done :
          (o : Option Text)
          → ((proxy : Text) → o ≡ some proxy → (u : C.UpstreamProxy) × (P.upstream proxy ≡ some u))
          → (up : Option C.UpstreamProxy) × ((upstream_proxy E R L K
                (gen_ca R L disk).2
                C
                S
                F
                P
                o).1
              ≡ done up)
      unfolding upstream_proxy
      upstream_proxy-done none h = (none, refl)
      upstream_proxy-done (some proxy) h = let (u, e) = h proxy refl in (some u, rw e refl)

      -- If there is no `ca` yet, nothing is refused, and the libraries make a certificate, then
      -- on the disk that `gen_ca` leaves, `run` with the default paths, rules that can be loaded
      -- and options that can be parsed starts a proxy. Its authority has the key of the generated
      -- certificate, it hands out the PEM that was printed, and its patterns are those that were
      -- loaded. It rests on the documented behaviour of the libraries that write and read PEM.
      pub gen_ca-run :
          (cert : R.Certificate) (pem : Text) (opts : Run) (rules : List Rule)
          (patterns : List Text)
          → gen_root R L ≡ ok cert
          → L.serialize_pem cert ≡ ok pem
          → IsReady disk
          → IsUsable opts rules patterns
          → (p : Proxy E R K C S RuleHandlerCtx) × ((run E R L K (gen_ca R L disk).2 C S F P opts).1
              ≡ done (ok p))
            × (p.ca.private_key ≡ laws.key_of cert)
            × (get_cert R K p.ca ≡ pem)
            × (p.mitm_filters ≡ patterns)
      unfolding run configured upstream_proxy
      gen_ca-run cert pem opts rules patterns generated printed ready usable =
          let (_, ca, loaded, key, text) = gen_ca-load_authority cert pem generated printed ready in
          let (addr, bound) = usable.address in
          let (up, parsed) = upstream_proxy-done opts.proxy usable.upstream in
          (
            record {
              listen_addr = addr;
              ca = ca;
              upstream_proxy = up;
              mitm_filters = patterns;
              handler = rule_http_handler E rules;
            },
            rw (usable.own_key, usable.own_cert)
                (done-bind (load_authority E R L K (gen_ca R L disk).2 default_key default_cert) _
                  loaded
                  (done-bind (load_rules_amd_mitm_filters E F (P.rule_path opts.rule)) _
                    usable.loads
                    (done-bind (unwrap (P.socket_addr opts.bind)) _ (rw bound refl) (
                      done-bind (upstream_proxy E R L K (gen_ca R L disk).2 C S F P opts.proxy) _
                        parsed refl)))),
            key,
            text,
            refl,
          )
