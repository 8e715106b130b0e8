-- ===== src/Workflow/Ends.antt =====
-- `isLastStep` and `getTransition` on the workflow of a configuration, and `initWorkflow` on the
-- text of one.
use interlook.Prelude.{
  ◌↔◌, append_assoc, subst, ℕ, zero, suc, ◌+◌, ◌-◌, String, ◌≡◌, refl, sym, ◌≢◌, Bool, true, false,
  some, none, List, [], ◌∷◌, ◌++◌, length, get_elem?, get_elem?-append_end, get_elem?-All, arith,
  All, find_first, find_first-append_hit, find_first-append_miss, All-append, ==_ne, eq_iff,
  if◌then◌else◌, Char, code, Lacks, join, split, split-join,
}
use interlook.Workflow.{
  close_state, workflow_of, config_steps, init_workflow, deployed_state, undeployed_state, has_name,
  has_id, is_last_step, get_transition, transition_for,
}
use interlook.Workflow.Shape.{
  chain, AreDistinct, IsConfig, step_at, at_start, at_name, at_end, position, config_step,
  config_steps-All_name,
}
use interlook.Workflow.Lookup.{
  find_last-workflow_of_id, length-workflow_of, workflow_of_lem, start_step, end_step,
}

get_elem?-end :
    (names : List String)
    → get_elem? (chain names) (suc (suc (length names)) - 1) ≡ some deployed_state
get_elem?-end names =
    let e : suc (suc (length names)) - 1 ≡ suc (length names) = omega arith in
    rw e (get_elem?-append_end names deployed_state)

-- The last step of a workflow is "deployed", and in reverse "undeployed", and no other name is,
-- whatever the configured names are.
pub is_last_step_iff :
    (names : List String) (v : String) (reverse : Bool)
    → (is_last_step (workflow_of names) v reverse ≡ true)
      ↔ (v ≡ (if reverse then undeployed_state else deployed_state))
unfolding is_last_step step_at
is_last_step_iff names v true =
    rw (find_last-workflow_of_id (has_id 0) names 0 undeployed_state (λ s. refl) refl)
      (eq_iff v undeployed_state)
is_last_step_iff names v false =
    rw
      (
        length-workflow_of names,
        find_last-workflow_of_id (has_id (suc (suc (length names)) - 1)) names
            (suc (suc (length names)) - 1) deployed_state (λ s. refl) (get_elem?-end names),
      )
      (eq_iff v deployed_state)

find_first-config_steps :
    (k i j : ℕ) (vs : List String) (v : String)
    → j ≡ suc (k + i)
    → AreDistinct vs
    → get_elem? vs i ≡ some v
    → find_first (has_name v) (config_steps k vs) ≡ some (config_step j v)
unfolding find_first config_steps
find_first-config_steps k i j [] v e d h = ground arith
find_first-config_steps k zero j (u ∷ vs) v e d h = ground (arith, eq_iff u v)
find_first-config_steps k (suc i) j (u ∷ vs) v e (p, d) h =
    let other : u ≢ v = λ q. get_elem?-All (λ (x : String). x ≢ u) vs i v p h (sym q) in
    rw (==_ne u v other) (find_first-config_steps (suc k) i j vs v (omega arith) d h)

module _ (names : List String) (c : IsConfig names) where
  get_transition-start : get_transition (workflow_of names) undeployed_state ≡ some close_state
  unfolding get_transition find_first
  get_transition-start = rw (
    workflow_of_lem names,
    find_first-append_hit (has_name undeployed_state) (config_steps 0 names ++ start_step ∷ [])
        (end_step names ∷ []) start_step
        (find_first-append_miss (has_name undeployed_state) (config_steps 0 names) _
          (config_steps-All_name undeployed_state 0 names c.no_undeployed)),
  )

  get_transition-end : get_transition (workflow_of names) deployed_state ≡ some close_state
  unfolding get_transition find_first
  get_transition-end = rw (
    workflow_of_lem names,
    append_assoc (config_steps 0 names) (start_step ∷ []) (end_step names ∷ []),
    find_first-append_miss (has_name deployed_state) (config_steps 0 names) _
        (config_steps-All_name deployed_state 0 names c.no_deployed),
  )

  get_transition-name :
      (m : ℕ) (v : String)
      → get_elem? names m ≡ some v
      → get_transition (workflow_of names) v ≡ some (transition_for v)
  unfolding get_transition
  get_transition-name m v h = rw (
    workflow_of_lem names,
    append_assoc (config_steps 0 names) (start_step ∷ []) (end_step names ∷ []),
    find_first-append_hit (has_name v) (config_steps 0 names) _ (config_step (suc (0 + m)) v)
        (find_first-config_steps 0 m (suc (0 + m)) names v refl c.distinct h),
  )

  -- With names that are pairwise different and not reserved, `getTransition` of the name at a
  -- position of the workflow is the transition of the step at that position.
  pub get_transition-chain :
      (i : ℕ) (v : String)
      → get_elem? (chain names) i ≡ some v
      → get_transition (workflow_of names) v ≡ some (step_at names i v).transition
  unfolding step_at
  get_transition-chain i v h = elim (position names i v h) [
    | at_start p q ↦ rw (p, q) get_transition-start
    | at_name m p lt q ↦ ground (arith, get_transition-name m v q)
    | at_end p q ↦ rw q (ground (arith, get_transition-end))
  ]

-- A name that is not on the chain has no transition.
pub get_transition-unknown :
    (names : List String) (name : String)
    → All (λ v. v ≢ name) (chain names)
    → get_transition (workflow_of names) name ≡ none
unfolding get_transition find_first
get_transition-unknown names name (start, h) =
    let (inner, end) = All-append (λ v. v ≢ name) names (deployed_state ∷ []) h in
    rw
      (
        workflow_of_lem names,
        append_assoc (config_steps 0 names) (start_step ∷ []) (end_step names ∷ []),
        find_first-append_miss (has_name name) (config_steps 0 names) _
            (config_steps-All_name name 0 names inner),
      )
      (ground (arith, ==_ne undeployed_state name start, ==_ne deployed_state name end.0))

-- A configuration text of at least one name, joined by a comma, is read back as the workflow of
-- these names if no name has a comma.
pub init_workflow-join :
    (comma : Char) (name : String) (names : List String)
    → code comma ≡ b','
    → All (Lacks (code comma)) (name ∷ names)
    → init_workflow (join comma (name ∷ names)) ≡ workflow_of (name ∷ names)
unfolding init_workflow
init_workflow-join comma name names e h =
    let parts : split b',' (join comma (name ∷ names)) ≡ name ∷ names =
      subst (λ sep. split sep (join comma (name ∷ names)) ≡ name ∷ names) e
        (split-join comma name names h) in
    rw parts
