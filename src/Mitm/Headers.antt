-- ===== src/Mitm/Headers.antt =====
-- The headers of what the proxy sends and answers.
use good_mitm.Prelude.{ℕ, ◌≡◌, ◌≢◌, refl, sym, ap, ◌∙◌, Option, none, some, List, [], ◌∷◌, head?}
use mathlib.Core.Path.{subst}
use good_mitm.Text.{codes, to_decimal}
use good_mitm.Env.{
  Env, Standard, accept_encoding, content_length, host, strict_transport_security,
  access_control_allow_origin, access_control_allow_methods, Result, ok, err,
}
use good_mitm.Env.Laws.{HeadersLaws}
use good_mitm.Io.{Request, Response, unwrap}
use good_mitm.Io.Ensures.{unwrap-eq_done, Ensures, Ensures-bind, Ensures-at}
use good_mitm.Mitm.{
  MitmProxy, strip_request, fix_length, finish_response, allow_all_cros, finish_proxy, proxy_req,
  route,
}

-- The headers that the server behind the proxy does not get.
pub data IsStripped : Standard → Type 0 where
  no_host : IsStripped host
  no_accept_encoding : IsStripped accept_encoding
  no_content_length : IsStripped content_length

module _ (E : Env) (laws : HeadersLaws E) where
  apart : {a b : Standard} → (a ≡ b → ⊥) → E.standard a ≢ E.standard b
  apart {a} {b} h e = h (laws.standard_injective a b e)

  -- What a request keeps and loses before it is sent.
  pub record Stripped (req out : Request E) : Type 0 where
    pub gone : (s : Standard) → IsStripped s → E.headers_get_all (E.standard s) out.headers ≡ []
    pub kept :
        (m : E.HeaderName)
        → ((s : Standard) → IsStripped s → m ≢ E.standard s)
        → E.headers_get_all m out.headers ≡ E.headers_get_all m req.headers
    pub rest : record req { headers = out.headers } ≡ out

  -- Of a request that the proxy strips before it sends it, the values of `Host`, `Accept-Encoding` and `Content-Length` are gone,
  -- those of every other header are what they were, and the rest of the request is the same.
  pub strip_request-Stripped : (req : Request E) → Stripped req (strip_request E req)
  unfolding strip_request
  strip_request-Stripped req =
      let n = E.standard host in
      let a = E.standard accept_encoding in
      let l = E.standard content_length in
      let h1 = E.headers_remove n req.headers in
      let h2 = E.headers_remove a h1 in
      record {
        gone = gone_from;
        kept = λ m other.
            laws.get_all-remove_ne l m h2 (other content_length no_content_length)
            ∙ laws.get_all-remove_ne a m h1 (other accept_encoding no_accept_encoding)
            ∙ laws.get_all-remove_ne n m req.headers (other host no_host);
        rest = refl;
      }
    where
      gone_from :
          (s : Standard)
          → IsStripped s
          → E.headers_get_all (E.standard s) (
              E.headers_remove (E.standard content_length) (
                E.headers_remove
                  (E.standard accept_encoding)
                  (E.headers_remove (E.standard host) req.headers)))
            ≡ []
      gone_from s no_content_length = laws.get_all-remove (E.standard content_length) _
      gone_from s no_accept_encoding =
          laws.get_all-remove_ne _ _ _ (apart (λ e. cc))
          ∙ laws.get_all-remove (E.standard accept_encoding) _
      gone_from s no_host =
          laws.get_all-remove_ne _ _ _ (apart (λ e. cc))
          ∙ laws.get_all-remove_ne _ _ _ (apart (λ e. cc))
          ∙ laws.get_all-remove (E.standard host) req.headers

  -- The values of `Content-Length` for a body with the given lower bound of its size, from the old.
  abbrev pub LengthFixed : ℕ → List E.HeaderValue → List E.HeaderValue → Type 0
  LengthFixed size [] new = new ≡ []
  LengthFixed size (old ∷ rest) new =
      (v : E.HeaderValue) × (E.value_from_str (to_decimal size) ≡ some v) × (new ≡ v ∷ rest)

  pub record Finished (res out : Response E) : Type 0 where
    pub no_hsts : E.headers_get_all (E.standard strict_transport_security) out.headers ≡ []
    pub length_fixed :
        LengthFixed
          (E.body_size_hint_lower res.body)
          (E.headers_get_all (E.standard content_length) res.headers)
          (E.headers_get_all (E.standard content_length) out.headers)
    pub kept :
        (m : E.HeaderName)
        → m ≢ E.standard strict_transport_security
        → m ≢ E.standard content_length
        → E.headers_get_all m out.headers ≡ E.headers_get_all m res.headers
    pub rest : record res { headers = out.headers } ≡ out

  fix_length-Fixed :
      (size : ℕ) (h : E.HeaderMap) (old : List E.HeaderValue)
      → E.headers_get_all (E.standard content_length) h ≡ old
      → Ensures
          (λ h'.
            LengthFixed size old (E.headers_get_all (E.standard content_length) h')
            × ((m : E.HeaderName)
                → m ≢ E.standard content_length
                → E.headers_get_all m h' ≡ E.headers_get_all m h))
          (fix_length E size h)
  unfolding fix_length
  fix_length-Fixed size h [] e =
      rw (laws.get-get_all (E.standard content_length) h ∙ ap head? e, fix_length)
        (e, λ m other. refl)
  fix_length-Fixed size h (old ∷ rest) e =
      rw (laws.get-get_all (E.standard content_length) h ∙ ap head? e, fix_length)
        (Ensures-bind _ (unwrap (E.value_from_str (to_decimal size))) _ (λ v made. (
          (
            v,
            unwrap-eq_done E (E.value_from_str (to_decimal size)) made,
            laws.get_all-set_first _ v old rest h e,
          ),
          λ m other. laws.get_all-set_first_ne _ m v h other,
        )))

  -- If finishing a response does not panic, its `Strict-Transport-Security` is gone, its
  -- `Content-Length`, if it has one, begins with the lower bound of the size of the body, in decimal,
  -- the values of every other header are what they were, and the rest is the same.
  pub finish_response-Finished : (res : Response E) → Ensures (Finished res) (finish_response E res)
  unfolding finish_response
  finish_response-Finished res =
      let cl = E.standard content_length in
      let sts = E.standard strict_transport_security in
      let size = E.body_size_hint_lower res.body in
      Ensures-bind (Finished res) (fix_length E size res.headers) _ (λ h made.
        let (fixed, others) =
          Ensures-at _ (fix_length E size res.headers) made
            (fix_length-Fixed size res.headers _ refl) in
        record {
          no_hsts = laws.get_all-remove sts h;
          length_fixed =
              subst (LengthFixed size (E.headers_get_all cl res.headers))
                (sym (laws.get_all-remove_ne sts cl h (apart (λ e. cc)))) fixed;
          kept = λ m not_sts not_cl. laws.get_all-remove_ne sts m h not_sts ∙ others m not_cl;
          rest = refl;
        })

  -- The response lets every origin read it.
  pub record OpenToAll (out : Response E) : Type 0 where
    pub all : E.HeaderValue
    pub is_star : E.value_from_str (codes "*") ≡ some all
    pub origin : E.headers_get_all (E.standard access_control_allow_origin) out.headers ≡ all ∷ []
    pub methods : E.headers_get_all (E.standard access_control_allow_methods) out.headers ≡ all ∷ []

  allow_all_cros-OpenToAll : (res : Response E) → Ensures OpenToAll (allow_all_cros E res)
  unfolding allow_all_cros
  allow_all_cros-OpenToAll res = open_all (E.value_from_str (codes "*")) refl
    where
      open_all :
          (o : Option E.HeaderValue)
          → E.value_from_str (codes "*") ≡ o
          → Ensures OpenToAll (allow_all_cros E res)
      open_all none e = rw (e, allow_all_cros) tt
      open_all (some v) e =
          rw (e, allow_all_cros)
            (record {
              all = v;
              is_star = e;
              origin =
                  laws.get_all-insert_ne _ _ v _ (apart (λ x. cc))
                  ∙ laws.get_all-insert_ne _ _ v _ (apart (λ x. cc))
                  ∙ laws.get_all-insert (E.standard access_control_allow_origin) v res.headers;
              methods = laws.get_all-insert (E.standard access_control_allow_methods) v _;
            })

  abbrev pub IfAnswered : (Response E → Type 0) → Result (Response E) E.HyperError → Type 0
  IfAnswered P (ok res) = P res
  IfAnswered P (err e) = Unit

  finish_proxy-OpenToAll :
      (r : Result (Response E) E.HyperError) → Ensures (IfAnswered OpenToAll) (finish_proxy E r)
  unfolding finish_proxy
  finish_proxy-OpenToAll (err e) = tt
  finish_proxy-OpenToAll (ok res) =
      Ensures-bind _ (allow_all_cros E res) _ (λ out made.
        Ensures-at OpenToAll (allow_all_cros E res) made (allow_all_cros-OpenToAll res))

  module _ {D : Type 0} where
    -- Every response that `proxy_req` gives, whether to `CONNECT`, from the server, from a rule
    -- or the certificate, carries `*` as the one value of the headers that allow origins and
    -- methods.
    pub proxy_req-OpenToAll :
        (self : MitmProxy E D) (req : Request E)
        → Ensures (IfAnswered OpenToAll) (proxy_req E self req)
    unfolding proxy_req
    proxy_req-OpenToAll self req =
        Ensures-bind (IfAnswered OpenToAll) (route E self req) (finish_proxy E)
          (λ r _. finish_proxy-OpenToAll r)
