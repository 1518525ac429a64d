-- ===== src/RuleFile/Intercepted.antt =====
-- The rules of a file see to the interception of the hosts that they are about.
use good_mitm.Prelude.{◌≡◌, some, List, [], ◌∷◌, map, unwrap_or, true}
use mathlib.Core.Path.{subst}
use mathlib.Core.List.{Memᴰ}
use mathlib.Core.List.Memᴰ
use good_mitm.Text.{Text}
use good_mitm.Env.{Env}
use good_mitm.Env.Laws.{WildLaws}
use good_mitm.Io.{Request}
use good_mitm.Filter.{Filter, init, mitm_filtter_pattern, lower_host}
use good_mitm.Filter.Matching.{Matches}
use good_mitm.Filter.Pattern.{pattern_covers}
use good_mitm.MitmFilter.{new, filter}
use good_mitm.MitmFilter.Covers.{filter_iff, mem-filter_map}
use good_mitm.RuleFile.{FileRule, into_vec, from_rule}
use good_mitm.RuleFile.Loading.{patterns_of}

mem-patterns_of :
    (E : Env) (rules : List FileRule) (r : FileRule) (p : Text)
    → Memᴰ r rules
    → Memᴰ p (from_rule E r).1
    → Memᴰ p (patterns_of E rules)
mem-patterns_of E [] r p k m = elim k [ ]
mem-patterns_of E (q ∷ rules) r p (Memᴰ.head e) m =
    Memᴰ.append_left (patterns_of E rules) (subst (λ x. Memᴰ p (from_rule E x).1) e m)
mem-patterns_of E (q ∷ rules) r p (Memᴰ.tail k) m =
    Memᴰ.append_right (from_rule E q).1 (mem-patterns_of E rules r p k m)

-- If a filter of a rule of a file gives a pattern, once initialised, and matches a request whose
-- host is in lower case, then a request to connect to that host is intercepted by the proxy that
-- takes its patterns from the file.
pub from_rule-filter :
    (E : Env) (rules : List FileRule) (r : FileRule) (f : Filter) (p : Text) (req : Request E)
    → WildLaws E
    → Memᴰ r rules
    → Memᴰ f (into_vec r.filters)
    → mitm_filtter_pattern (init E f) ≡ some p
    → lower_host E req ≡ unwrap_or [] (E.uri_host req.uri)
    → Matches E (init E f) req
    → filter E (new (patterns_of E rules)) req ≡ true
unfolding from_rule
from_rule-filter E rules r f p req wild listed given pattern low matched =
    (filter_iff E (patterns_of E rules) req).1 (
      p,
      mem-patterns_of E rules r p listed (
          Memᴰ.append_left _ (
            mem-filter_map (map (init E) (into_vec r.filters)) (init E f) p
              (Memᴰ.map (init E) given) pattern)),
      pattern_covers E wild (init E f) p req pattern low matched,
    )
