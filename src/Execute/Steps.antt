-- ===== src/Execute/Steps.antt =====
-- `setNextStep` and what follows it, in the workflow of a configuration.
use interlook.Prelude.{
  ℕ, suc, ◌<◌, ◌≤◌, String, ◌==◌, ◌≡◌, refl, ◌≢◌, inl, inr, Bool, true, false, some, List, [],
  length, get_elem?, get_elem?-lt, get_elem?-All, arith, eq_iff, if◌then◌else◌, Bool-cases,
}
use interlook.Comm.{Message}
use interlook.Workflow.{
  Transition, provisioner_state, close_state, workflow_of, is_last_step, deployed_state,
  undeployed_state,
}
use interlook.Workflow.Shape.{chain, step_at, at_start, at_name, at_end, position}
use interlook.Workflow.Lookup.{length-workflow_of}
use interlook.Workflow.Next.{IsNearest, steps_left, terminal, get_next_step-IsNearest, length-chain}
use interlook.Workflow.Kinds.{IsDeployable, transition_for-provisioner}
use interlook.Workflow.Ends.{is_last_step_iff}
use interlook.Entry.{WorkflowEntry, set_next_step, is_reverse, close, send_to_extension}
use interlook.Execute.{
  Outcome, done, provisioner_execute, call, sent, execute, advance, close_execute,
}

-- The entry after `setNextStep` to the step `v`.
abbrev pub entered : String → Transition → WorkflowEntry → WorkflowEntry
entered v t e = record e {
  state = v;
  transition = some t;
  work_in_progress = false;
  wip_time = 0;
  close_time = 0;
}

-- What an entry does on arriving at the step `v`: at the end it is closed with the error of the
-- message, and elsewhere its service is sent to the extension `v`.
unfoldable pub arrive : ℕ → Bool → String → String → WorkflowEntry → Outcome
arrive now reverse v error e =
    if v == terminal reverse
    then done (close now error (entered v close_state e)) []
    else sent (send_to_extension now (entered v provisioner_state e))

pub is_reverse-goal :
    (reverse : Bool) (e : WorkflowEntry)
    → e.expected_state ≡ terminal reverse
    → is_reverse e ≡ reverse
unfolding is_reverse
is_reverse-goal true e h = rw h refl
is_reverse-goal false e h = rw h refl

module _ (names : List String) (c : IsDeployable names) where
  -- Where the nearest stop is an end of the chain, the transition closes; else it is a provisioner's.
  pub transition-terminal :
      (reverse : Bool) (i j : ℕ) (v : String)
      → i < length (chain names)
      → IsNearest names reverse i j v
      → (step_at names j v).transition
        ≡ (if v == terminal reverse then close_state else provisioner_state)
  unfolding step_at
  transition-terminal true i j v lt_i n = elim (position names j v n.holds) [
    | at_start p q ↦ ground (arith, eq_iff v undeployed_state)
    | at_name m p lt q ↦ ground (
      arith,
      eq_iff v undeployed_state,
      transition_for-provisioner v n.stops
          (get_elem?-All (λ (u : String). u ≢ "provider") names m v c.no_bare q),
      get_elem?-All (λ (u : String). u ≢ undeployed_state) names m v c.config.no_undeployed q,
    )
    | at_end p q ↦ absurd (omega (arith, n.beyond, length-chain names))
  ]
  transition-terminal false i j v lt_i n = elim (position names j v n.holds) [
    | at_start p q ↦ absurd (omega (arith, n.beyond))
    | at_name m p lt q ↦ ground (
      arith,
      eq_iff v deployed_state,
      transition_for-provisioner v n.stops
          (get_elem?-All (λ (u : String). u ≢ "provider") names m v c.no_bare q),
      get_elem?-All (λ (u : String). u ≢ deployed_state) names m v c.config.no_deployed q,
    )
    | at_end p q ↦ ground (arith, eq_iff v deployed_state)
  ]

  -- `setNextStep` moves the entry to the nearest step that is not a provider's.
  pub set_next_step-IsNearest :
      (reverse : Bool) (i : ℕ) (e : WorkflowEntry)
      → get_elem? (chain names) i ≡ some e.state
      → e.expected_state ≡ terminal reverse
      → 0 < steps_left names reverse i
      → (j : ℕ) × (v : String) × IsNearest names reverse i j v
        × (set_next_step (workflow_of names) e
            ≡ some (entered v (if v == terminal reverse then close_state else provisioner_state) e))
  unfolding set_next_step
  set_next_step-IsNearest reverse i e h g left =
      let (j, v, n, eq) =
        get_next_step-IsNearest names c.config (length (workflow_of names)) reverse i e.state h left
          (fuel reverse) in
      (
        j,
        v,
        n,
        rw
            (
              is_reverse-goal reverse e g,
              eq,
              transition-terminal reverse i j v (get_elem?-lt (chain names) i h) n,
            )
            refl,
      )
    where
      fuel : (r : Bool) → steps_left names r i ≤ length (workflow_of names)
      fuel true =
          omega
            (arith, length-workflow_of names, length-chain names, get_elem?-lt (chain names) i h)
      fuel false = omega (arith, length-workflow_of names)

  abbrev pub kind_of : Bool → String → Transition
  kind_of reverse v = if v == terminal reverse then close_state else provisioner_state

  -- The transition of the step that was entered does what `arrive` says.
  pub call-arrive :
      (f now : ℕ) (reverse : Bool) (v : String) (e : WorkflowEntry) (msg : Message)
      → call
          (execute (workflow_of names) now (suc f))
          (some (kind_of reverse v))
          (entered v (kind_of reverse v) e)
          msg
        ≡ arrive now reverse v msg.error e
  unfolding execute arrive provisioner_execute close_execute
  call-arrive f now reverse v e msg = elim (Bool-cases (v == terminal reverse)) [
    | inl p ↦ rw p refl
    | inr p ↦ rw p refl
  ]

  -- So does the end of `provisionerState.execute`.
  pub advance-arrive :
      (f now : ℕ) (reverse : Bool) (v : String) (e : WorkflowEntry) (msg : Message)
      → e.expected_state ≡ terminal reverse
      → advance
          (workflow_of names)
          now
          (execute (workflow_of names) now (suc f))
          msg
          (entered v (kind_of reverse v) e)
        ≡ arrive now reverse v msg.error e
  unfolding execute arrive advance close_execute
  advance-arrive f now reverse v e msg g = elim (Bool-cases (v == terminal reverse)) [
    | inl p ↦
        rw
          (
            p,
            is_reverse-goal reverse (entered v close_state e) g,
            is_last_step-terminal reverse v,
            p,
          )
          refl
    | inr p ↦
        rw
          (
            p,
            is_reverse-goal reverse (entered v provisioner_state e) g,
            is_last_step-terminal reverse v,
            p,
          )
          refl
  ]
    where
      is_last_step-terminal :
          (r : Bool) (u : String) → is_last_step (workflow_of names) u r ≡ (u == terminal r)
      is_last_step-terminal true u =
          ground (arith, is_last_step_iff names u true, eq_iff u undeployed_state)
      is_last_step-terminal false u =
          ground (arith, is_last_step_iff names u false, eq_iff u deployed_state)

-- A closed entry rests in the state that was wanted.
pub close_rests :
    (reverse : Bool) (now : ℕ) (err : String) (e : WorkflowEntry)
    → e.expected_state ≡ terminal reverse
    → let e' = close now err e in
      (e'.state ≡ terminal reverse)
      × (e'.expected_state ≡ terminal reverse)
      × (e'.work_in_progress ≡ false)
unfolding close
close_rests true now err e h = ground (arith, eq_iff e.expected_state undeployed_state)
close_rests false now err e h =
    ground (arith, eq_iff e.expected_state undeployed_state, eq_iff deployed_state undeployed_state)
