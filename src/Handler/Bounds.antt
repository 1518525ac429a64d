-- ===== src/Handler/Bounds.antt =====
-- How many rules a request can make the handler run and record.
use good_mitm.Prelude.{
  ℕ, ◌≡◌, ap, ◌+◌, ◌≤◌, Bool, true, false, List, [], ◌∷◌, ◌++◌, length, length-append,
  if◌then◌else◌, arith,
}
use good_mitm.Env.{Env}
use good_mitm.Io.{Request}
use good_mitm.Io.Ensures.{Ensures, Ensures-bind, Ensures-at, Ensures-of}
use good_mitm.Filter.{Filter, is_match_req}
use good_mitm.Rule.{Rule}
use good_mitm.Handler.{Ctx, match_filters, match_rules, handle_request, without_accept_encoding}
use good_mitm.Handler.Contexts.{handle_request-Ran}

-- The number of all filters of the rules.
abbrev pub filter_count : List Rule → ℕ
filter_count [] = 0
filter_count (rule ∷ rules) = length rule.filters + filter_count rules

module _ (E : Env) (req : Request E) where
  abbrev IsAtMost : ℕ → List Rule → Type 0
  IsAtMost n matched = length matched ≤ n

  match_filters-IsAtMost :
      (rule : Rule) (filters : List Filter)
      → Ensures (IsAtMost (length filters)) (match_filters E rule filters req)
  unfolding match_filters
  match_filters-IsAtMost rule [] = omega arith
  match_filters-IsAtMost rule (f ∷ more) = Ensures-bind _ (is_match_req E f req) _ (λ hit _.
      Ensures-bind _ (match_filters E rule more req) _ (λ rest made.
        pushed hit rest
          (Ensures-at _ (match_filters E rule more req) made (match_filters-IsAtMost rule more))))
    where
      pushed :
          (hit : Bool) (rest : List Rule)
          → IsAtMost (length more) rest
          → length (if hit then rule ∷ rest else rest) ≤ length (f ∷ more)
      pushed true rest h = omega (arith, h)
      pushed false rest h = omega (arith, h)

  pub match_rules-IsAtMost :
      (rules : List Rule) → Ensures (IsAtMost (filter_count rules)) (match_rules E rules req)
  unfolding match_rules
  match_rules-IsAtMost [] = omega arith
  match_rules-IsAtMost (rule ∷ rules) =
      Ensures-bind _ (match_filters E rule rule.filters req) _ (λ here made.
        Ensures-bind _ (match_rules E rules req) _ (λ rest made'.
          let first =
            Ensures-at _ (match_filters E rule rule.filters req) made
              (match_filters-IsAtMost rule rule.filters) in
          let others = Ensures-at _ (match_rules E rules req) made' (match_rules-IsAtMost rules) in
          omega (arith, first, others, length-append here rest)))

module _ (E : Env) where
  -- If handling a request does not panic, it adds to the rules in the context at most as many as
  -- the handler's rules have filters, all together.
  pub handle_request_bounded :
      (rules : List Rule) (ctx : Ctx E) (req : Request E)
      → Ensures
          (λ result.
            length result.0.custom_data.rules ≤ length ctx.custom_data.rules + filter_count rules)
          (handle_request E rules ctx req)
  handle_request_bounded rules ctx req =
      Ensures-of _ (handle_request E rules ctx req) (λ result made.
        let (matched, is, ran) =
          Ensures-at _ (handle_request E rules ctx req) made (handle_request-Ran E rules ctx req) in
        let few =
          Ensures-at _ (match_rules E rules (without_accept_encoding E req)) is
            (match_rules-IsAtMost E (without_accept_encoding E req) rules) in
        let parts : length (ran.ran ++ ran.rest) ≡ length matched = ap length ran.first_part in
        let all : length result.0.custom_data.rules ≡ length (ctx.custom_data.rules ++ ran.ran) =
          ap length ran.recorded in
        omega (
          arith,
          few,
          parts,
          all,
          length-append ran.ran ran.rest,
          length-append ctx.custom_data.rules ran.ran,
        ))
