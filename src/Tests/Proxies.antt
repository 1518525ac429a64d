-- ===== src/Tests/Proxies.antt =====
-- The theorems on the handler, the loaders and the proxy.
use good_mitm.Prelude.{
  ◌==◌, length, ◌+◌, ◌≤◌, ◌≡◌, refl, Bool, true, false, none, some, List, [], ◌∷◌,
}
use good_mitm.Text.{Text, codes, eq, contains, to_lowercase, ends_with}
use good_mitm.Env.{Result, ok, err}
use good_mitm.Io.{pure, done, info}
use good_mitm.Io.Ensures.{Ensures}
use good_mitm.Filter.{Filter, domain_suffix, domain_keyword, domain, is_match_req}
use good_mitm.HttpHandler.{new_context, response, default_handler}
use good_mitm.Modify.{bad_gateway}
use good_mitm.Rule.{Rule, reject, empty_response}
use good_mitm.Handler.{RuleHandlerCtx, Ctx, match_rules, handle_request, without_accept_encoding}
use good_mitm.Handler.Matched.{match_rules_lem}
use good_mitm.Handler.Bounds.{filter_count, handle_request_bounded}
use good_mitm.Handler.Contexts.{Ran, noted, InContext, handle_request-Ran, handle_request-InContext}
use good_mitm.MitmFilter.{new}
use good_mitm.Mitm.{MitmProxy, finish_response, proxy_req}
use good_mitm.Mitm.Headers.{
  Finished, OpenToAll, IfAnswered, finish_response-Finished, proxy_req-OpenToAll,
}
use good_mitm.Mitm.Lengths.{Announces, finish_response-Announces}
use good_mitm.RuleFile.{
  single, FileRule, Files, Loaded, from_rule, load_from_dir, load_from_file,
  load_rules_amd_mitm_filters,
}
use good_mitm.RuleFile.Loading.{
  file, unreadable, no_file, no_entry, all_rules, all_patterns, load_from_dir_lem,
}
use good_mitm.RuleFile.Fresh.{IfOk, load_rules-IsFresh}
use good_mitm.Tests.Headers.{get_all}
use good_mitm.Tests.Sample.{env, headers, bodies}
use good_mitm.Tests.Rules.{req, res, rejecting}

abbrev start : Ctx env
start = new_context env RuleHandlerCtx (record { rules = [] })

-- A test of the filters of the sample rule on the sample request.
abbrev verdict : Filter → Bool
verdict (domain_suffix _) = true
verdict (domain_keyword _) = true
verdict _ = false

match_rules_lem_example : match_rules env (rejecting ∷ []) req ≡ pure (rejecting ∷ rejecting ∷ [])
unfolding is_match_req to_lowercase ends_with contains eq
match_rules_lem_example =
    match_rules_lem env req verdict (rejecting ∷ []) ((refl, (refl, (refl, tt))), tt)

handle_request-Ran_example :
    Ensures
      (λ result.
        (matched : List Rule) × ((match_rules env
            (rejecting ∷ [])
            (without_accept_encoding env req)).1
          ≡ done matched)
        × Ran env matched (noted env matched start req) (without_accept_encoding env req) result)
      (handle_request env (rejecting ∷ []) start req)
handle_request-Ran_example = handle_request-Ran env (rejecting ∷ []) start req

handle_request-InContext_example :
    Ensures
      (InContext env (λ rule. rule.url ≡ none))
      (handle_request env (rejecting ∷ []) start req)
handle_request-InContext_example =
    handle_request-InContext env (λ rule. rule.url ≡ none) (rejecting ∷ []) start req (refl, tt) tt

abbrev pub elsewhere : Rule
elsewhere = record { filters = domain (codes "a") ∷ []; actions = reject ∷ []; url = none }

-- A rule as it stands in a file.
abbrev pub in_file : FileRule
in_file = record {
  name = codes "reject";
  mitm_list = none;
  filters = single (domain_suffix (codes "Zu1k.com"));
  actions = single reject;
}

-- A folder with a file of one rule, an entry that cannot be read, a folder, and a file that is no
-- YAML.
abbrev pub files : Files
files = record {
  FilePath = Text;
  Entry = Text;
  is_dir = λ p. some true;
  path_to_str = λ p. some p;
  open_file = λ p. elim p [ [] ↦ ok (err (codes "no rules")) | _ ↦ ok (ok (in_file ∷ [])) ];
  read_dir = λ p. some (some (codes "a") ∷ none ∷ some (codes "sub") ∷ some [] ∷ []);
  entry_is_file = λ e. elim e [ [] ↦ some true | c ∷ _ ↦ some (c == b'a') ];
  entry_path = λ e. e;
}

abbrev loaded : Text → Result Loaded Text
loaded [] = err (codes "no rules")
loaded _ = ok ((from_rule env in_file).0 ∷ [], (from_rule env in_file).1)

load_from_dir_lem_example :
    (load_from_dir env files (codes "rules")).1
    ≡ done (
        ok (
          all_rules env files loaded (codes "a" ∷ [] ∷ []),
          all_patterns env files loaded (codes "a" ∷ [] ∷ []),
        ))
unfolding load_from_file from_rule
load_from_dir_lem_example =
    load_from_dir_lem env files loaded (codes "rules")
      (some (codes "a") ∷ none ∷ some (codes "sub") ∷ some [] ∷ []) (codes "a" ∷ [] ∷ []) refl
      (file (codes "a") _ _ refl
        (unreadable _ _ (no_file (codes "sub") _ _ (λ e. cc) (file [] _ _ refl no_entry))))
      (refl, (refl, tt))

load_rules-IsFresh_example :
    Ensures (IfOk env) (load_rules_amd_mitm_filters env files (codes "rules"))
load_rules-IsFresh_example = load_rules-IsFresh env files (codes "rules")

abbrev proxy : MitmProxy env Unit
proxy = record {
  cert = codes "cert";
  client = λ r. ok res;
  http_handler = default_handler env Unit tt;
  mitm_filter = new [];
}

finish_response-Finished_example : Ensures (Finished env headers res) (finish_response env res)
finish_response-Finished_example = finish_response-Finished env headers res

proxy_req-OpenToAll_example :
    Ensures (IfAnswered env headers (OpenToAll env headers)) (proxy_req env proxy req)
proxy_req-OpenToAll_example = proxy_req-OpenToAll env headers proxy req

-- A proxy whose handler turns every request down.
abbrev closed : MitmProxy env Unit
closed = record proxy {
  http_handler = record (default_handler env Unit tt) {
    handle_request =
        λ ctx r. (info (codes "no") ∷ [], done (ctx, response (empty_response env bad_gateway)));
  };
}

handle_request_bounded_example :
    Ensures
      (λ result.
        length result.0.custom_data.rules
        ≤ length start.custom_data.rules + filter_count (rejecting ∷ []))
      (handle_request env (rejecting ∷ []) start req)
handle_request_bounded_example = handle_request_bounded env (rejecting ∷ []) start req

finish_response-Announces_example : Ensures (Announces env headers 6) (finish_response env res)
unfolding get_all eq
finish_response-Announces_example =
    finish_response-Announces env headers res (codes "a head") (codes "5") [] bodies refl refl
