-- ===== src/Mitm/Connect.antt =====
-- What the proxy does with a request to open a tunnel.
use good_mitm.Prelude.{
  ◌≡◌, ◌↔◌, refl, Bool, true, false, Option, none, some, List, [], ◌∷◌, if◌then◌else◌, unwrap_or,
}
use mathlib.Core.List.{Memᴰ}
use good_mitm.Text.{Text, codes}
use good_mitm.Env.{Env, ok}
use good_mitm.Env.Laws.{WildLaws}
use good_mitm.Io.{
  Event, Request, Response, Outcome, done, panic, spawned_tls, spawned_tunnel, pure, unwrap,
  continue, ◌>>=◌,
}
use good_mitm.Filter.{Filter, init, mitm_filtter_pattern, lower_host}
use good_mitm.Filter.Matching.{Matches}
use good_mitm.MitmFilter.{new, filter}
use good_mitm.MitmFilter.Covers.{Covers, filter_iff}
use good_mitm.Mitm.{MitmProxy, proxy_req, route, finish_proxy, process_connect, allow_all_cros}
use good_mitm.RuleFile.{FileRule, into_vec}
use good_mitm.RuleFile.Loading.{patterns_of}
use good_mitm.RuleFile.Intercepted.{from_rule-filter}

module _ (E : Env) where
  -- Opening up the answer leaves the events as they are.
  allow_all_cros-quiet : (res : Response E) → (allow_all_cros E res).0 ≡ []
  unfolding allow_all_cros
  allow_all_cros-quiet res = unwrapped (E.value_from_str (codes "*")) _
    where
      unwrapped :
          {B : Type 0} (o : Option E.HeaderValue) (f : E.HeaderValue → Outcome B)
          → (unwrap {E = E} o >>= λ v. ([], f v)).0 ≡ []
      unwrapped none f = refl
      unwrapped (some v) f = refl

  pub finish_proxy-quiet : (res : Response E) → (finish_proxy E (ok res)).0 ≡ []
  unfolding finish_proxy
  finish_proxy-quiet res = rw (allow_all_cros-quiet res) (mapped (allow_all_cros E res).1 ok)
    where
      mapped :
          {A B : Type 0} (o : Outcome A) (f : A → B) → (continue {E = E} o (λ a. pure (f a))).0 ≡ []
      mapped (done a) f = refl
      mapped panic f = refl

  module _ {D : Type 0} (self : MitmProxy E D) where
    -- A request to open a tunnel makes the proxy do one thing, by the filter of its hosts.
    proxy_req-connect :
        (req : Request E)
        → E.method_is_connect req.method ≡ true
        → (proxy_req E self req).0
          ≡ (if filter E self.mitm_filter req then spawned_tls req else spawned_tunnel req) ∷ []
    unfolding proxy_req process_connect
    proxy_req-connect req connect = rw (connect, route) (simp finish_proxy-quiet)

    chosen_iff :
        (req : Request E) (b : Bool) (events : List (Event E)) {P : Type 0}
        → events ≡ (if b then spawned_tls req else spawned_tunnel req) ∷ []
        → (b ≡ true) ↔ P
        → ((events ≡ spawned_tls req ∷ []) ↔ P) × ((events ≡ spawned_tunnel req ∷ []) ↔ ¬ P)
    chosen_iff req true events is (to, from) =
        (((λ h. to refl), λ p. is), ((λ h. cc), λ none_matches. absurd (none_matches (to refl))))
    chosen_iff req false events is (to, from) =
        (((λ h. cc), λ p. let hit = from p in cc), ((λ h p. let hit = from p in cc), λ h. is))

    -- On a request to open a tunnel, a proxy made for some patterns starts the task that serves TLS on
    -- the connection, and does nothing else, exactly if one of the patterns matches the host; it
    -- starts the task that joins the connection to the server, and does nothing else, exactly if none
    -- does.
    pub proxy_req-Covers_iff :
        (patterns : List Text) (req : Request E)
        → self.mitm_filter ≡ new patterns
        → E.method_is_connect req.method ≡ true
        → (((proxy_req E self req).0 ≡ spawned_tls req ∷ []) ↔ Covers E patterns req)
          × (((proxy_req E self req).0 ≡ spawned_tunnel req ∷ []) ↔ ¬ Covers E patterns req)
    proxy_req-Covers_iff patterns req given connect =
        chosen_iff req (filter E (new patterns) req) (proxy_req E self req).0
          (rw (proxy_req-connect req connect, given) refl) (filter_iff E patterns req)

    -- What the rules of a file promise: if a filter of one of them gives a pattern, once
    -- initialised, and matches a request to open a tunnel, whose host is in lower case, then
    -- the proxy that takes its patterns from the file starts the task that serves TLS on the
    -- connection, and nothing else. It rests on the documented behaviour of `WildMatch`.
    pub proxy_req-intercepts :
        (rules : List FileRule) (r : FileRule) (f : Filter) (p : Text) (req : Request E)
        → WildLaws E
        → self.mitm_filter ≡ new (patterns_of E rules)
        → Memᴰ r rules
        → Memᴰ f (into_vec r.filters)
        → mitm_filtter_pattern (init E f) ≡ some p
        → lower_host E req ≡ unwrap_or [] (E.uri_host req.uri)
        → Matches E (init E f) req
        → E.method_is_connect req.method ≡ true
        → (proxy_req E self req).0 ≡ spawned_tls req ∷ []
    proxy_req-intercepts rules r f p req wild patterns listed given pattern low matched connect =
        rw
          (
            proxy_req-connect req connect,
            patterns,
            from_rule-filter E rules r f p req wild listed given pattern low matched,
          )
          refl
