-- ===== src/Handler/Matched.antt =====
-- Which rules apply to a request, and how often.
use good_mitm.Prelude.{
  ℕ, zero, suc, ◌≡◌, refl, Bool, true, false, Bool-cases, inl, inr, List, [], ◌∷◌, concat, map,
  select, length, if◌then◌else◌, All, All-append,
}
use good_mitm.Env.{Env}
use good_mitm.Io.{Request, pure}
use good_mitm.Io.Ensures.{Ensures, Ensures-bind, Ensures-at}
use good_mitm.Filter.{Filter, is_match_req}
use good_mitm.Rule.{Rule}
use good_mitm.Handler.{match_filters, match_rules}

-- As many copies.
abbrev pub replicate : ℕ → Rule → List Rule
replicate zero r = []
replicate (suc n) r = r ∷ replicate n r

module _ (E : Env) (req : Request E) (test : Filter → Bool) where
  -- The test says of each of the filters whether it matches the request.
  abbrev pub Decides : List Filter → Type 0
  Decides = All (λ f. is_match_req E f req ≡ pure (test f))

  match_filters_lem :
      (rule : Rule) (filters : List Filter)
      → Decides filters
      → match_filters E rule filters req ≡ pure (replicate (length (select test filters)) rule)
  unfolding match_filters
  match_filters_lem rule [] h = refl
  match_filters_lem rule (f ∷ more) (here, h) = elim (Bool-cases (test f)) [
    | inl hit ↦ rw (here, match_filters_lem rule more h, hit, match_filters)
    | inr miss ↦ rw (here, match_filters_lem rule more h, miss, match_filters)
  ]

  -- If no filter panics on the request, then the rules that apply are, in the order of the rules, each
  -- rule as many times as it has filters that match.
  pub match_rules_lem :
      (rules : List Rule)
      → All (λ r. Decides r.filters) rules
      → match_rules E rules req
        ≡ pure (concat (map (λ r. replicate (length (select test r.filters)) r) rules))
  unfolding match_rules
  match_rules_lem [] h = refl
  match_rules_lem (rule ∷ rules) (here, h) =
      rw (match_filters_lem rule rule.filters here, match_rules_lem rules h)

-- The rules that apply are rules of the list: what holds of each rule there holds of each of them.
module _ (E : Env) (P : Rule → Type 0) (req : Request E) where
  match_filters-All :
      (rule : Rule) (filters : List Filter)
      → P rule
      → Ensures (All P) (match_filters E rule filters req)
  unfolding match_filters
  match_filters-All rule [] p = tt
  match_filters-All rule (f ∷ more) p = Ensures-bind (All P) (is_match_req E f req) _ (λ hit _.
      Ensures-bind (All P) (match_filters E rule more req) _ (λ rest made.
        pushed hit rest (
          Ensures-at (All P) (match_filters E rule more req) made (match_filters-All rule more p))))
    where
      pushed :
          (hit : Bool) (rest : List Rule) → All P rest → All P (if hit then rule ∷ rest else rest)
      pushed true rest h = (p, h)
      pushed false rest h = h

  pub match_rules-All :
      (rules : List Rule) → All P rules → Ensures (All P) (match_rules E rules req)
  unfolding match_rules
  match_rules-All [] h = tt
  match_rules-All (rule ∷ rules) (p, h) =
      Ensures-bind (All P) (match_filters E rule rule.filters req) _ (λ here made.
        Ensures-bind (All P) (match_rules E rules req) _ (λ rest made'.
          All-append P here rest
            (Ensures-at (All P) (match_filters E rule rule.filters req) made
              (match_filters-All rule rule.filters p))
            (Ensures-at (All P) (match_rules E rules req) made' (match_rules-All rules h))))
