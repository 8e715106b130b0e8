-- ===== src/Workflow.antt =====
-- core/workflow.go, the first part: the steps of the workflow and the walk along them. The
-- transition of a step is an interface value in Go; its five implementations are the constructors
-- of `Transition`, and nil is `none`.
pub mod Shape
pub mod Lookup
pub mod Next
pub mod Stops
pub mod Kinds
pub mod Ends
pub mod Travel
use interlook.Prelude.{
  ℕ, zero, suc, ◌-◌, String, Bool, true, false, Option, none, some, List, [], ◌∷◌, ◌++◌, length,
  ◌==◌, starts_with, eqb, if◌then◌else◌, find_last, find_first, split, first_or,
}

abbrev pub deployed_state : String
deployed_state = "deployed"

abbrev pub undeployed_state : String
undeployed_state = "undeployed"

-- the implementations of the interface `transition` of core/transition.go
pub data Transition : Type 0 where
  provider_state provider_add_state provider_delete_state provisioner_state close_state : Transition

pub record WorkflowStep : Type 0 where
  pub id : ℕ
  pub name : String
  pub transition : Transition

abbrev pub WorkflowSteps : Type 0
WorkflowSteps = List WorkflowStep

-- the choice of the transition in the loop of `initWorkflow`
unfoldable pub transition_for : String → Transition
transition_for v =
    if first_or "" (split b'.' v) == "provider" then provider_state else provisioner_state

-- the loop of `initWorkflow`, at index `k`
unfoldable pub config_steps : ℕ → List String → WorkflowSteps
unfolding transition_for
config_steps k [] = []
config_steps k (v ∷ vs) =
    record { id = suc k; name = v; transition = transition_for v } ∷ config_steps (suc k) vs

abbrev undeployed_step : WorkflowStep
undeployed_step = record { id = 0; name = undeployed_state; transition = close_state }

-- The steps for the names of the configuration, with the start and the end step appended.
unfoldable pub workflow_of : List String → WorkflowSteps
unfolding config_steps
workflow_of names =
    let wf = config_steps 0 names ++ undeployed_step ∷ [] in
    wf ++ record { id = length wf; name = deployed_state; transition = close_state } ∷ []

unfoldable pub init_workflow : String → WorkflowSteps
unfolding workflow_of
init_workflow workflow_config = workflow_of (split b',' workflow_config)

abbrev pub has_id : ℕ → WorkflowStep → Bool
has_id id step = eqb step.id id

abbrev pub has_name : String → WorkflowStep → Bool
has_name name step = step.name == name

abbrev name_or : String → Option WorkflowStep → String
name_or d none = d
name_or d (some step) = step.name

unfoldable pub is_last_step : WorkflowSteps → String → Bool → Bool
is_last_step w step reverse =
    let id : ℕ = if reverse then 0 else length w - 1 in
    step == name_or "" (find_last (has_id id) none w)

abbrev transition_of : Option WorkflowStep → Option Transition
transition_of none = none
transition_of (some step) = some step.transition

unfoldable pub get_transition : WorkflowSteps → String → Option Transition
get_transition w step = transition_of (find_first (has_name step) w)

-- `step.ID == stepID - 1` or `step.ID == stepID + 1`; the code's integers may be negative.
abbrev pub is_adjacent : Bool → ℕ → WorkflowStep → Bool
is_adjacent true step_id step = eqb (suc step.id) step_id
is_adjacent false step_id step = eqb step.id (suc step_id)

-- What `getNextStep` returns: the two errors, or a name and its transition.
pub data NextStep : Type 0 where
  no_current_step no_next_step : NextStep
  next : String → Option Transition → NextStep

-- `nextStep, next, _ = w.getNextStep(...)` drops the error; the other results are then "" and nil
abbrev pub ignore_error : Option NextStep → Option NextStep
ignore_error none = none
ignore_error (some (next name t)) = some (next name t)
ignore_error (some _) = some (next "" none)

-- The end of `getNextStep`, at the step found; `again` is its own call.
unfoldable pub step_or_past : (String → Option NextStep) → Option WorkflowStep → Option NextStep
step_or_past again none = some no_next_step
step_or_past again (some step) =
    if starts_with step.name "provider."
    then ignore_error (again step.name)
    else some (next step.name (some step.transition))

-- The middle of `getNextStep`, at the current step found.
unfoldable pub from_current :
    WorkflowSteps → Bool → (String → Option NextStep) → Option WorkflowStep → Option NextStep
unfolding step_or_past
from_current w reverse again none = some no_current_step
from_current w reverse again (some current) =
    step_or_past again (find_last (is_adjacent reverse current.id) none w)

-- The fuel bounds the recursion past the providers' steps; `none` means that it ran out.
unfoldable pub get_next_step : ℕ → WorkflowSteps → String → Bool → Option NextStep
unfolding from_current
get_next_step zero w current_step reverse = none
get_next_step (suc f) w current_step reverse =
    from_current w reverse (λ name. get_next_step f w name reverse)
      (find_last (has_name current_step) none w)
