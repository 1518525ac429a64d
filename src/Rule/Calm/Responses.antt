-- ===== src/Rule/Calm/Responses.antt =====
-- Rules that do not panic, on a response.
use good_mitm.Prelude.{All, List, [], ◌∷◌}
use good_mitm.Text.{Text}
use good_mitm.Env.{Env}
use good_mitm.Io.{Io, Response, pure}
use good_mitm.Io.Halting.{Halts, Halts-bind, Returns-Halts}
use good_mitm.LogLines.{log_res}
use good_mitm.Modify
use good_mitm.Js
use good_mitm.Rule.{
  Rule, Action, reject, redirect, modify_request, modify_response, log_response, log_request, js,
  ResStep, next_res, return_res, res_action, res_loop, do_res,
}
use good_mitm.Rule.Calm.{CalmAction, CalmRule}

module _ (E : Env) where
  res_action-Halts :
      (url : Text) (a : Action) (res : Response E) → CalmAction E a → Halts (res_action E url a res)
  unfolding res_action log_res
  res_action-Halts url reject res h = tt
  res_action-Halts url (redirect _) res h = tt
  res_action-Halts url (modify_request _) res h = tt
  res_action-Halts url (modify_response md) res h =
      Halts-bind (Modify.modify_res E md res) _ (Returns-Halts (Modify.modify_res E md res) (h res))
        (λ _ _. tt)
  res_action-Halts url log_response res h = tt
  res_action-Halts url log_request res h = tt
  res_action-Halts url (js code) res h =
      Halts-bind (Js.modify_res E code res) _ (Returns-Halts (Js.modify_res E code res) (h.1 res))
        (λ _ _. tt)

  res_loop-Halts :
      (url : Text) (actions : List Action) (res : Response E)
      → All (CalmAction E) actions
      → Halts (res_loop E url actions res)
  unfolding res_loop
  res_loop-Halts url [] res h = tt
  res_loop-Halts url (a ∷ more) res (ha, h) =
      Halts-bind (res_action E url a res) _ (res_action-Halts url a res ha)
        (λ step _. after (λ r. res_loop-Halts url more r h) step)
    where
      after :
          ((r : Response E) → Halts (res_loop E url more r))
          → (step : ResStep E)
          → Halts (elim step as (λ _. Io E (Response E)) [
            | next_res res' ↦ res_loop E url more res'
            | return_res result ↦ pure result
          ])
      after ih (next_res r) = ih r
      after ih (return_res r) = tt

  pub do_res-Halts : (rule : Rule) (res : Response E) → CalmRule E rule → Halts (do_res E rule res)
  unfolding do_res
  do_res-Halts rule res (_, h) = res_loop-Halts _ rule.actions res h
