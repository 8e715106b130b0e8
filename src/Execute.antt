-- ===== src/Execute.antt =====
-- core/transition.go: what an entry does with a message, by its transition. A call of
-- `execute` is one step on the entry. It ends in the new entry and the messages sent to the
-- extensions, or in a panic (a method call on a nil transition). The handlers call one another
-- through `again`, and the fuel bounds the depth of these calls.
pub mod Overlap
pub mod Steps
pub mod Provider
pub mod Provisioner
pub mod Delete
use Prim.Native.String
use interlook.Prelude.{
  ℕ, zero, suc, String, Bool, true, false, not, ◌&&◌, ◌||◌, Option, none, some, List, [], ◌∷◌, ◌==◌,
  starts_with, eqb, if◌then◌else◌,
}
use interlook.Comm.{Message, add_action, delete_action}
use interlook.Workflow.{
  Transition, provider_state, provider_add_state, provider_delete_state, provisioner_state,
  close_state, WorkflowSteps, is_last_step, deployed_state, undeployed_state,
}
use interlook.Entry.{
  WorkflowEntry, set_error, set_wip, set_target_state, set_last_update, set_next_step, set_state,
  update_service, send_to_extension, close, is_reverse,
}

pub data Outcome : Type 0 where
  out_of_fuel : Outcome
  panic : Outcome
  done : WorkflowEntry → List Message → Outcome

-- What follows a walk along the workflow, if the walk ends.
infixl 5 ◌>>=◌
abbrev pub ◌>>=◌ : Option WorkflowEntry → (WorkflowEntry → Outcome) → Outcome
none >>= f = out_of_fuel
some we >>= f = f we

abbrev pub Handler : Type 0
Handler = Transition → WorkflowEntry → Message → Outcome

abbrev pub call : Handler → Option Transition → WorkflowEntry → Message → Outcome
call again none we msg = panic
call again (some t) we msg = again t we msg

abbrev pub sent : WorkflowEntry × Message → Outcome
sent (we, msg) = done we (msg ∷ [])

module _ (w : WorkflowSteps) (now : ℕ) where
  -- `we.transition.execute(we, msg)`, after a change of the entry
  unfoldable pub provider_execute : Handler → WorkflowEntry → Message → Outcome
  unfolding set_last_update set_target_state set_state set_error
  provider_execute again we msg =
      if msg.action == add_action
      then (let we' = set_target_state deployed_state (set_last_update now we) in
          let we'' = set_state msg false (record we' { transition = some provider_add_state }) in
          call again we''.transition we'' msg)
      else if msg.action == delete_action
      then (let we' = record we { transition = some provider_delete_state } in
          call again we'.transition we' msg)
      else done (set_error (String.◌++◌ "Unhandled action " msg.action) we) []

  unfoldable pub provider_add_execute : Handler → WorkflowEntry → Message → Outcome
  provider_add_execute again we msg =
      if not (msg.action == add_action) || not (starts_with msg.sender "provider.")
      then done we []
      else if eqb we.close_time 0 && (we.error == "" && not (starts_with we.state "provider."))
      then done we []
      else do we' ← set_next_step w we; call again we'.transition we' msg

  unfoldable pub provider_delete_execute : Handler → WorkflowEntry → Message → Outcome
  unfolding set_target_state
  provider_delete_execute again we msg =
      if not (msg.action == delete_action) || not (starts_with msg.sender "provider.")
      then done we []
      else do
        stepped ← (if we.work_in_progress then set_next_step w we else some we)
        we' ← set_next_step w (set_target_state undeployed_state stepped)
        call again we'.transition we' (record msg { service = we'.service })

  -- the end of `provisionerState.execute`, at the next step
  unfoldable pub advance : Handler → Message → WorkflowEntry → Outcome
  unfolding send_to_extension is_reverse
  advance again msg we =
      if is_last_step w we.state (is_reverse we)
      then again close_state (record we { transition = some close_state }) msg
      else sent (send_to_extension now we)

  unfoldable pub provisioner_execute : Handler → WorkflowEntry → Message → Outcome
  unfolding set_wip set_error update_service send_to_extension advance
  provisioner_execute again we msg =
      if we.work_in_progress
      then if not (msg.sender == we.state)
        then done we []
        else if not (msg.error == "")
        then done (set_error msg.error (set_wip now false we)) []
        else set_next_step w (update_service msg we) >>= advance again msg
      else sent (send_to_extension now we)

  unfoldable pub close_execute : WorkflowEntry → Message → Outcome
  unfolding close
  close_execute we msg = done (close now msg.error we) []

  unfoldable pub step_execute : Handler → Handler
  step_execute again provider_state we msg = provider_execute again we msg
  step_execute again provider_add_state we msg = provider_add_execute again we msg
  step_execute again provider_delete_state we msg = provider_delete_execute again we msg
  step_execute again provisioner_state we msg = provisioner_execute again we msg
  step_execute again close_state we msg = close_execute we msg

  unfoldable pub execute : ℕ → Transition → WorkflowEntry → Message → Outcome
  unfolding step_execute
  execute zero t we msg = out_of_fuel
  execute (suc f) t we msg = step_execute (execute f) t we msg
