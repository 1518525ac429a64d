-- ===== src/Tests/Rules.antt =====
-- The theorems on filters, changes and rules.
use good_mitm.Prelude.{◌≡◌, refl, ◌↔◌, ◌⊎◌, true, false, none, some, [], ◌∷◌, select}
use mathlib.Core.Path.{subst}
use mathlib.Core.Option.{some-injective}
use good_mitm.Text.{Text, codes, ends_with, eq, contains, to_lowercase}
use good_mitm.Env.{err}
use good_mitm.Io.{Request, Response, pure}
use good_mitm.Io.Ensures.{Ensures, Returns}
use good_mitm.Filter.{domain, domain_keyword, domain_suffix, is_match_req}
use good_mitm.Filter.Matching.{Matches, is_match_req_iff}
use good_mitm.TextModify.{complex, exec_action}
use good_mitm.HeaderModify.{MapModify, modify_header, new_value}
use good_mitm.HeaderModify.Frame.{Keeps, modify_header-Keeps}
use good_mitm.HeaderModify.Effects.{ChangedTo, modify_header-ChangedTo, modify_header-Returns}
use good_mitm.Modify.{Modify, body_text, modify_req, modify_res}
use good_mitm.Modify.Frame.{
  IfSome, SameBut, SameResBut, target, modify_req-SameBut, modify_res-SameResBut,
}
use good_mitm.Js
use good_mitm.Js.Scripted.{SameLineIfSome, modify_req-SameLine}
use good_mitm.Rule.{Rule, reject, log_request, log_response, do_req}
use good_mitm.Rule.Passes.{is_on_request, result_of, do_req-select, do_req-last}
use good_mitm.Rule.Requests.{Allowed, do_req-Allowed}
use good_mitm.Tests.Headers.{ne_of_eq, get_all}
use good_mitm.Tests.Sample.{env, headers}

abbrev pub req : Request env
req = record {
  method = codes "GET";
  uri = (codes "http", codes "www.zu1k.com", codes "/a");
  version = true;
  headers =
      (codes "host", codes "www.zu1k.com")
      ∷ (codes "accept-encoding", codes "gzip")
      ∷ (codes "date", codes "2022")
      ∷ [];
  body = some [];
}

abbrev pub res : Response env
res = record {
  status = 200;
  version = true;
  headers = (codes "content-type", codes "text/html") ∷ (codes "content-length", codes "5") ∷ [];
  body = some (codes "a head");
}

-- Tests of the definitions.
host_tests :
    (is_match_req env (domain_suffix (codes "zu1k.com")) req ≡ pure true)
    × (is_match_req env (domain_keyword (codes "csdn")) req ≡ pure false)
unfolding is_match_req contains ends_with to_lowercase
host_tests = (refl, refl)

is_match_req_iff_example :
    (is_match_req env (domain_suffix (codes "zu1k.com")) req ≡ pure true)
    ↔ Matches env (domain_suffix (codes "zu1k.com")) req
is_match_req_iff_example = is_match_req_iff env (domain_suffix (codes "zu1k.com")) req

abbrev date_change : MapModify
date_change = record {
  key = codes "date";
  value = some (complex (record { origin = some (codes "2022"); re = none; new = codes "1999" }));
  remove = false;
}

modify_header-Keeps_example :
    Keeps env headers (codes "host") req.headers (modify_header env date_change req.headers)
unfolding eq
modify_header-Keeps_example =
    modify_header-Keeps env headers (codes "host") req.headers date_change
      (λ e. ne_of_eq (codes "date") (codes "host") refl (some-injective _ _ e))

modify_header-ChangedTo_example :
    Ensures
      (λ after.
        ChangedTo env false date_change.value
          (env.headers_get_all (codes "date") req.headers)
          (env.headers_get_all (codes "date") after))
      (modify_header env date_change req.headers)
modify_header-ChangedTo_example =
    modify_header-ChangedTo env headers (codes "date") req.headers date_change refl

modify_header-Returns_example : Returns (modify_header env date_change req.headers)
unfolding exec_action new_value get_all eq
modify_header-Returns_example =
    modify_header-Returns env headers (codes "date") req.headers date_change refl (λ t e.
      subst (λ x. Returns (new_value env x (codes "2022"))) (some-injective _ t e) (_, refl))

abbrev body_change : Modify
body_change =
    body_text (complex (record { origin = some (codes "head"); re = none; new = codes "tail" }))

modify_req-SameBut_example :
    Ensures (IfSome env (SameBut env (target body_change) req)) (modify_req env body_change req)
modify_req-SameBut_example = modify_req-SameBut env body_change req

modify_res-SameResBut_example :
    Ensures
      (λ s.
        SameResBut env (target body_change) res s ⊎ ((e : Text) × (env.to_bytes res.body ≡ err e)))
      (modify_res env body_change res)
modify_res-SameResBut_example = modify_res-SameResBut env body_change res

modify_req-SameLine_example :
    Ensures (SameLineIfSome env req) (Js.modify_req env (codes "process()") req)
modify_req-SameLine_example = modify_req-SameLine env (codes "process()") req

abbrev pub rejecting : Rule
rejecting = record {
  filters =
      domain_suffix (codes "zu1k.com") ∷ domain_keyword (codes "zu1k") ∷ domain (codes "a") ∷ [];
  actions = reject ∷ log_response ∷ [];
  url = none;
}

do_req-select_example :
    result_of env (record rejecting { actions = select is_on_request rejecting.actions }) req
    ≡ result_of env rejecting req
do_req-select_example = do_req-select env rejecting req

do_req-last_example :
    result_of env (record rejecting { actions = log_request ∷ reject ∷ log_request ∷ [] }) req
    ≡ result_of env (record rejecting { actions = log_request ∷ reject ∷ [] }) req
do_req-last_example =
    do_req-last env rejecting (log_request ∷ []) reject (log_request ∷ []) req refl

do_req-Allowed_example : Ensures (λ d. Allowed env req d.1) (do_req env rejecting req)
do_req-Allowed_example = do_req-Allowed env rejecting req
