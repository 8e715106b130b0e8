-- ===== src/Workflow/Travel.antt =====
-- The walk along the workflow in its two directions: the nearest stop is unique, going forward and
-- then in reverse leads back, and the walk fails only at the two ends and at unknown names.
use interlook.Prelude.{
  ℕ, suc, ◌≤◌, String, ◌≡◌, refl, ◌∙◌, ◌≢◌, inl, inr, Bool, true, false, some, List, length,
  get_elem?, get_elem?-lt, arith, lt_cases, get_elem?-append_end, All,
}
use interlook.Workflow.{
  workflow_of, next, no_next_step, no_current_step, get_next_step, deployed_state, undeployed_state,
  is_adjacent,
}
use interlook.Workflow.Shape.{chain, IsConfig, step_at}
use interlook.Workflow.Lookup.{
  find_last-workflow_of_unknown, find_last-workflow_of_name, find_last-workflow_of-none,
  length-workflow_of,
}
use interlook.Workflow.Next.{length-chain, is_provider, IsNearest, get_next_step-IsNearest}

module _ (names : List String) where
  -- Two nearest stops in one direction are the same position.
  pub IsNearest-unique :
      (reverse : Bool) (i j k : ℕ) (v w : String)
      → IsNearest names reverse i j v
      → IsNearest names reverse i k w
      → j ≡ k
  IsNearest-unique true i j k v w a b = elim (lt_cases j k) [
    | inl lt ↦ absurd (cc (a.passes k w (lt, b.beyond) b.holds, b.stops))
    | inr (inl e) ↦ e
    | inr (inr gt) ↦ absurd (cc (b.passes j v (gt, a.beyond) a.holds, a.stops))
  ]
  IsNearest-unique false i j k v w a b = elim (lt_cases j k) [
    | inl lt ↦ absurd (cc (b.passes j v (a.beyond, lt) a.holds, a.stops))
    | inr (inl e) ↦ e
    | inr (inr gt) ↦ absurd (cc (a.passes k w (b.beyond, gt) b.holds, b.stops))
  ]

  -- Seen from the stop, a start that is no provider's is the nearest stop the other way.
  pub IsNearest-back :
      (i j : ℕ) (u v : String)
      → get_elem? (chain names) i ≡ some u
      → is_provider u ≡ false
      → IsNearest names false i j v
      → IsNearest names true j i u
  IsNearest-back i j u v h p n = record {
    holds = h;
    beyond = n.beyond;
    stops = p;
    passes = λ m w b e. n.passes m w b e;
  }

  module _ (c : IsConfig names) where
    -- With names that are pairwise different and not reserved, one step forward and one step
    -- back return: from a step before the last that is not a provider's, the next step in
    -- reverse of its next step is the step itself, with its own transition.
    pub get_next_step-back :
        (i : ℕ) (u : String)
        → get_elem? (chain names) i ≡ some u
        → i ≤ length names
        → is_provider u ≡ false
        → let w = workflow_of names in
          (j : ℕ) × (v : String) × (get_next_step (length w) w u false
            ≡ some (next v (some (step_at names j v).transition)))
          × (get_next_step (length w) w v true
              ≡ some (next u (some (step_at names i u).transition)))
    get_next_step-back i u h le p =
        let n = length-workflow_of names in
        let (j, v, near, e) =
          get_next_step-IsNearest names c (length (workflow_of names)) false i u h (omega arith)
            (omega (arith, n)) in
        let at_j = near.holds in
        let back = IsNearest-back i j u v h p near in
        let (k, w, near', e') =
          get_next_step-IsNearest names c (length (workflow_of names)) true j v at_j
            (omega (arith, near.beyond))
            (omega (arith, n, length-chain names, get_elem?-lt (chain names) j at_j)) in
        let same : k ≡ i = IsNearest-unique true j k i w u near' back in
        (j, v, e, e' ∙ cc (near'.holds, h, same))

    -- With names that are pairwise different and not reserved, `getNextStep` finds no step
    -- before "undeployed" and none after "deployed".
    pub get_next_step-ends :
        (f : ℕ)
        → (get_next_step (suc f) (workflow_of names) undeployed_state true ≡ some no_next_step)
          × (get_next_step (suc f) (workflow_of names) deployed_state false ≡ some no_next_step)
    unfolding get_next_step step_at
    get_next_step-ends f = (
      rw
          (
            find_last-workflow_of_name names 0 undeployed_state c refl,
            find_last-workflow_of-none (is_adjacent true 0) names (λ s le. ground arith),
          )
          refl,
      rw
          (
            find_last-workflow_of_name names (suc (length names)) deployed_state c
                (get_elem?-append_end names deployed_state),
            find_last-workflow_of-none (is_adjacent false (suc (length names))) names
                (λ s le. ground arith),
          )
          refl,
    )

    -- With names that are pairwise different and not reserved, `getNextStep` refuses a name
    -- that is not in the workflow.
    pub get_next_step-unknown :
        (f : ℕ) (reverse : Bool) (name : String)
        → All (λ v. v ≢ name) (chain names)
        → get_next_step (suc f) (workflow_of names) name reverse ≡ some no_current_step
    unfolding get_next_step
    get_next_step-unknown f reverse name h = rw (find_last-workflow_of_unknown names name h) refl
