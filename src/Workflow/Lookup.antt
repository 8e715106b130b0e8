-- ===== src/Workflow/Lookup.antt =====
-- The loops of `getNextStep` find, in the workflow of a configuration, the step at a position of
-- the chain, by its name and by its ID.
use interlook.Prelude.{
  ℕ, suc, ◌≤◌, String, ◌≡◌, refl, ◌≢◌, Bool, false, none, some, List, [], ◌∷◌, ◌++◌, length, All,
  get_elem?, arith, eqb, ==_ne, eq_iff, find_last, find_last-append, find_last-All_false,
  All-append, if◌then◌else◌, length-append, get_elem?-All,
}
use interlook.Workflow.{
  WorkflowStep, close_state, config_steps, workflow_of, has_name, deployed_state, undeployed_state,
}
use interlook.Workflow.Shape.{
  chain, IsConfig, step_at, length-config_steps, find_last-config_steps_id, config_step,
  find_last-config_steps_name, config_steps-All, config_steps-All_name, at_start, at_name, at_end,
  position,
}

pub length-workflow_of :
    (names : List String) → length (workflow_of names) ≡ suc (suc (length names))
unfolding workflow_of
length-workflow_of names = omega (
  arith,
  length-append
      (config_steps 0 names
        ++ record { id = 0; name = undeployed_state; transition = close_state } ∷ [])
      (record {
        id = length (
            config_steps 0 names
            ++ record { id = 0; name = undeployed_state; transition = close_state } ∷ []);
        name = deployed_state;
        transition = close_state;
      }
        ∷ []),
  length-append (config_steps 0 names)
      (record { id = 0; name = undeployed_state; transition = close_state } ∷ []),
  length-config_steps 0 names,
)

abbrev pub start_step : WorkflowStep
start_step = record { id = 0; name = undeployed_state; transition = close_state }

abbrev pub end_step : List String → WorkflowStep
end_step names = record { id = suc (length names); name = deployed_state; transition = close_state }

-- The workflow, with the ID of the end step computed.
pub workflow_of_lem :
    (names : List String)
    → workflow_of names ≡ (config_steps 0 names ++ start_step ∷ []) ++ end_step names ∷ []
unfolding workflow_of
workflow_of_lem names =
    let n : length (config_steps 0 names ++ start_step ∷ []) ≡ suc (length names) = omega (
      arith,
      length-append (config_steps 0 names) (start_step ∷ []),
      length-config_steps 0 names,
    ) in
    rw n

module _ (P : WorkflowStep → Bool) (names : List String) where
  -- A search of the workflow is a search of the configured steps, then of the two end steps.
  find_last-workflow_of : find_last P none (workflow_of names) ≡ (
      if P (end_step names)
      then some (end_step names)
      else if P start_step
      then some start_step
      else find_last P none (config_steps 0 names))
  unfolding find_last
  find_last-workflow_of =
      rw
        (
          workflow_of_lem names,
          find_last-append P none (config_steps 0 names ++ start_step ∷ []) _,
          find_last-append P none (config_steps 0 names) _,
        )
        refl

-- A test on the ID finds the step at that position.
pub find_last-workflow_of_id :
    (P : WorkflowStep → Bool) (names : List String) (j : ℕ) (v : String)
    → ((s : WorkflowStep) → P s ≡ eqb s.id j)
    → get_elem? (chain names) j ≡ some v
    → find_last P none (workflow_of names) ≡ some (step_at names j v)
unfolding step_at
find_last-workflow_of_id P names j v e h = elim (position names j v h) [
  | at_start p q ↦
      rw (find_last-workflow_of P names) (ground (arith, e (end_step names), e start_step))
  | at_name m p lt q ↦
      rw
        (
          find_last-workflow_of P names,
          find_last-config_steps_id P none j 0 m names v e (omega arith) q,
        )
        (ground (arith, e (end_step names), e start_step))
  | at_end p q ↦
      rw (find_last-workflow_of P names) (ground (arith, e (end_step names), e start_step))
]

-- No step has an ID past the end.
pub find_last-workflow_of-none :
    (P : WorkflowStep → Bool) (names : List String)
    → ((s : WorkflowStep) → s.id ≤ suc (length names) → P s ≡ false)
    → find_last P none (workflow_of names) ≡ none
find_last-workflow_of-none P names e = rw (
  find_last-workflow_of P names,
  e (end_step names) (omega arith),
  e start_step (omega arith),
  find_last-All_false P none (config_steps 0 names)
      (config_steps-All P 0 names (λ i v lo hi. e (config_step i v) (omega arith))),
)

-- A name finds the step at its position.
pub find_last-workflow_of_name :
    (names : List String) (j : ℕ) (v : String)
    → IsConfig names
    → get_elem? (chain names) j ≡ some v
    → find_last (has_name v) none (workflow_of names) ≡ some (step_at names j v)
unfolding step_at
find_last-workflow_of_name names j v c h = elim (position names j v h) [
  | at_start p q ↦ rw (find_last-workflow_of (has_name v) names) (
      ground (
        arith,
        eq_iff undeployed_state v,
        eq_iff deployed_state v,
        eq_iff deployed_state undeployed_state,
      ))
  | at_name m p lt q ↦
      rw
        (
          find_last-workflow_of (has_name v) names,
          find_last-config_steps_name none j 0 m names v (omega arith) c.distinct q,
        )
        (ground (
          arith,
          eq_iff deployed_state v,
          eq_iff undeployed_state v,
          get_elem?-All (λ (u : String). u ≢ deployed_state) names m v c.no_deployed q,
          get_elem?-All (λ (u : String). u ≢ undeployed_state) names m v c.no_undeployed q,
        ))
  | at_end p q ↦
      rw (find_last-workflow_of (has_name v) names) (ground (arith, eq_iff deployed_state v))
]

-- No step has a name that is not on the chain.
pub find_last-workflow_of_unknown :
    (names : List String) (name : String)
    → All (λ v. v ≢ name) (chain names)
    → find_last (has_name name) none (workflow_of names) ≡ none
find_last-workflow_of_unknown names name (start, h) =
    let (inner, end) = All-append (λ v. v ≢ name) names (deployed_state ∷ []) h in
    rw (
      find_last-workflow_of (has_name name) names,
      ==_ne deployed_state name end.0,
      ==_ne undeployed_state name start,
      find_last-All_false (has_name name) none (config_steps 0 names)
          (config_steps-All_name name 0 names inner),
    )
