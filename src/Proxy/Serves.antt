-- ===== src/Proxy/Serves.antt =====
-- What a proxy serves once it is started.
use good_mitm.Prelude.{
  ◌≡◌, ap, refl, ◌∙◌, inl, inr, Option, none, some, Option-cases, List, [], ◌∷◌, map, filter_map,
}
use mathlib.Core.List.{Memᴰ}
use good_mitm.Io.{Io, Event}
use good_mitm.Env.{Env, Result, ok, err}
use good_mitm.Mitm.{MitmProxy}
use good_mitm.CertificateAuthority.{Crypto, CacheLibrary, CertifiedKey}
use good_mitm.Client.{Connectors, HttpClient, Error, io, gen_client}
use good_mitm.Serve.{Network, connection_task, started}
use good_mitm.Proxy.{Sockets, Proxy, mitm_proxy, setup, accept_loop, start_proxy}

module _ (E : Env) (R : Crypto) (K : CacheLibrary (CertifiedKey R)) (C : Connectors E) (S : Sockets)
    {D : Type 0} (self : Proxy E R K C S D) where
  pub setup-mitm_proxy :
      (m : MitmProxy E D)
      → setup E R K C S self ≡ ok m
      → (c : HttpClient E C) × (mitm_proxy E R K C S self c ≡ m)
  unfolding setup
  setup-mitm_proxy m is = by_client (gen_client E C self.upstream_proxy) refl
    where
      by_client :
          (r : Result (HttpClient E C) Error)
          → gen_client E C self.upstream_proxy ≡ r
          → (c : HttpClient E C) × (mitm_proxy E R K C S self c ≡ m)
      by_client (err e) made =
          let ends : setup E R K C S self ≡ err e = rw (made, setup) refl in absurd cc
      by_client (ok c) made = elim (Option-cases (S.bind self.listen_addr)) [
        | inr (e, refused) ↦
            let ends : setup E R K C S self ≡ err (io e) = rw (made, refused, setup) refl in
            absurd cc
        | inl free ↦
            let ends : setup E R K C S self ≡ ok (mitm_proxy E R K C S self c) =
              rw (made, free, setup) refl in
            (c, cc)
      ]

module _ (E : Env) (R : Crypto) (K : CacheLibrary (CertifiedKey R)) (C : Connectors E) (S : Sockets)
    (N : Network E) {D : Type 0} (self : Proxy E R K C S D) where
  accept_loop_lem :
      (m : MitmProxy E D) (accepts : List (Option N.Stream))
      → accept_loop E R K C S N m accepts
        ≡ map (connection_task E N m) (filter_map (λ s. s) accepts)
  unfolding accept_loop
  accept_loop_lem m [] = refl
  accept_loop_lem m (none ∷ more) = accept_loop_lem m more
  accept_loop_lem m (some s ∷ more) = ap (λ r. connection_task E N m s ∷ r) (accept_loop_lem m more)

  pub start_proxy-tasks :
      (m : MitmProxy E D) (accepts : List (Option N.Stream)) (tasks : List (Io E (Unit {0})))
      → setup E R K C S self ≡ ok m
      → start_proxy E R K C S N self accepts ≡ ok tasks
      → tasks ≡ map (connection_task E N m) (filter_map (λ s. s) accepts)
  unfolding start_proxy
  start_proxy-tasks m accepts tasks made is =
      let ends : start_proxy E R K C S N self accepts ≡ ok (accept_loop E R K C S N m accepts) =
        rw (made, start_proxy) refl in
      let same : tasks ≡ accept_loop E R K C S N m accepts = cc in same ∙ accept_loop_lem m accepts

-- What happens once the tasks are started: what they do, and what the tasks do that are started then.
pub data Occurs (E : Env) (N : Network E) {D : Type 0} (m : MitmProxy E D)
    (tasks : List (Io E (Unit {0}))) : Event E → Type 0 where
  in_connection :
      {e : Event E} (task : Io E (Unit {0}))
      → Memᴰ task tasks
      → Memᴰ e task.0
      → Occurs E N m tasks e
  in_started :
      {e : Event E} (cause : Event E)
      → Occurs E N m tasks cause
      → Memᴰ e (started E N m cause).0
      → Occurs E N m tasks e
