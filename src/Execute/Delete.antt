-- ===== src/Execute/Delete.antt =====
-- What a delete message of a provider does to an entry, by the entry's state.
use interlook.Prelude.{
  ℕ, zero, suc, ◌<◌, ◌≤◌, String, ◌≡◌, refl, ap, ◌∙◌, true, false, some, List, length, get_elem?,
  arith, eq_iff,
}
use interlook.Comm.{Message, delete_action, add_action}
use interlook.Workflow.{
  WorkflowSteps, provider_state, provider_delete_state, workflow_of, undeployed_state,
  deployed_state,
}
use interlook.Workflow.Shape.{chain}
use interlook.Workflow.Lookup.{length-workflow_of}
use interlook.Workflow.Next.{IsNearest, is_provider}
use interlook.Workflow.Travel.{get_next_step-ends, IsNearest-back, IsNearest-unique}
use interlook.Workflow.Kinds.{IsDeployable}
use interlook.Entry.{WorkflowEntry, set_next_step, set_target_state, enter_step}
use interlook.Execute.{
  out_of_fuel, Handler, ◌>>=◌, call, execute, provider_execute, provider_delete_execute,
}
use interlook.Execute.Steps.{
  entered, arrive, kind_of, set_next_step-IsNearest, call-arrive, is_reverse-goal,
}

-- The entry that a delete message turns round.
unfoldable pub turned : WorkflowEntry → WorkflowEntry
unfolding set_target_state
turned e = set_target_state undeployed_state (record e { transition = some provider_delete_state })

module _ (w : WorkflowSteps) (now : ℕ) (again : Handler) (e : WorkflowEntry) (msg : Message)
    (act : msg.action ≡ delete_action) where
  provider_execute_delete :
      provider_execute w now again e msg
      ≡ again provider_delete_state (record e { transition = some provider_delete_state }) msg
  unfolding provider_execute
  provider_execute_delete = ground (
    arith,
    eq_iff msg.action add_action,
    eq_iff msg.action delete_action,
    eq_iff delete_action add_action,
  )

  module _ (p : is_provider msg.sender ≡ true) where
    idle_delete :
        e.work_in_progress ≡ false
        → provider_delete_execute w now again e msg ≡ (
            set_next_step w (set_target_state undeployed_state e) >>= λ e'.
            call again e'.transition e' (record msg { service = e'.service }))
    unfolding provider_delete_execute
    idle_delete idle = ground (arith, eq_iff msg.action delete_action)

    busy_delete :
        {e' : WorkflowEntry}
        → e.work_in_progress ≡ true
        → set_next_step w e ≡ some e'
        → provider_delete_execute w now again e msg ≡ (
            set_next_step w (set_target_state undeployed_state e') >>= λ e''.
            call again e''.transition e'' (record msg { service = e''.service }))
    unfolding provider_delete_execute
    busy_delete busy h = ground (arith, eq_iff msg.action delete_action)

module _ (names : List String) (c : IsDeployable names) (now : ℕ) where
  -- With deployable names, a provider's delete message to an entry that no extension works on,
  -- and that is not at the start of the workflow, turns the entry to "undeployed" and sends it
  -- to the nearest step before its own that is not a provider's, with the service of the
  -- entry.
  pub execute-delete :
      (i : ℕ) (e : WorkflowEntry) (msg : Message)
      → get_elem? (chain names) i ≡ some e.state
      → 0 < i
      → e.work_in_progress ≡ false
      → is_provider msg.sender ≡ true
      → msg.action ≡ delete_action
      → (j : ℕ) × (v : String) × IsNearest names true i j v
        × (execute (workflow_of names) now 3 provider_state e msg
            ≡ arrive now true v msg.error (turned e))
  unfolding execute turned set_target_state
  execute-delete i e msg h left idle p act =
      let (j, v, n, eq) = set_next_step-IsNearest names c true i (turned e) h refl left in
      let w = workflow_of names in
      (
        j,
        v,
        n,
        provider_execute_delete w now (execute w now 2) e msg act
            ∙ idle_delete w now (execute w now 1)
                (record e { transition = some provider_delete_state }) msg act p idle
            ∙ ap
                (λ o. o >>= λ e'.
                  call (execute w now 1) e'.transition e' (record msg { service = e'.service }))
                eq
            ∙ call-arrive names c 0 now true v (turned e) (record msg { service = e.service }),
      )

  -- With deployable names, a provider's delete message to an entry on which an extension works
  -- for a deployment turns the entry to "undeployed" and asks that same extension, so that its
  -- step is rolled back too.
  pub execute-delete_busy :
      (i : ℕ) (e : WorkflowEntry) (msg : Message)
      → get_elem? (chain names) i ≡ some e.state
      → i ≤ length names
      → is_provider e.state ≡ false
      → e.expected_state ≡ deployed_state
      → e.work_in_progress ≡ true
      → is_provider msg.sender ≡ true
      → msg.action ≡ delete_action
      → execute (workflow_of names) now 3 provider_state e msg
        ≡ arrive now true e.state msg.error (turned e)
  unfolding execute turned set_target_state arrive
  execute-delete_busy i e msg h le q target busy p act =
      let w = workflow_of names in
      let e₀ = record e { transition = some provider_delete_state } in
      let (j, v, n, eq) = set_next_step-IsNearest names c false i e₀ h target (omega arith) in
      let e₁ = entered v (kind_of names c false v) e₀ in
      let (k, u, m, eq') =
        set_next_step-IsNearest names c true j (set_target_state undeployed_state e₁) n.holds refl
          (omega (arith, n.beyond)) in
      let same : k ≡ i =
        IsNearest-unique names true j k i u e.state m (IsNearest-back names i j e.state v h q n) in
      let name : u ≡ e.state = cc (m.holds, h, same) in
      provider_execute_delete w now (execute w now 2) e msg act
      ∙ busy_delete w now (execute w now 1) e₀ msg act p busy eq
      ∙ ap
          (λ o. o >>= λ e'.
            call (execute w now 1) e'.transition e' (record msg { service = e'.service }))
          eq'
      ∙ call-arrive names c 0 now true u (set_target_state undeployed_state e₁)
          (record msg { service = e.service })
      ∙ ap (λ x. arrive now true x msg.error (set_target_state undeployed_state e₁)) name

  set_next_step-undeployed :
      (e : WorkflowEntry)
      → e.state ≡ undeployed_state
      → e.expected_state ≡ undeployed_state
      → set_next_step (workflow_of names) e ≡ some e
  unfolding set_next_step enter_step
  set_next_step-undeployed e s x =
      rw
        (
          is_reverse-goal true e x,
          length-workflow_of names,
          s,
          (get_next_step-ends names c.config (suc (length names))).0,
        )
        refl

  delete_loops :
      (f : ℕ) (e : WorkflowEntry) (msg : Message)
      → e.state ≡ undeployed_state
      → e.work_in_progress ≡ false
      → e.transition ≡ some provider_delete_state
      → is_provider msg.sender ≡ true
      → msg.action ≡ delete_action
      → execute (workflow_of names) now f provider_delete_state e msg ≡ out_of_fuel
  unfolding execute set_target_state
  delete_loops zero e msg s idle t p act = refl
  delete_loops (suc f) e msg s idle t p act =
      let w = workflow_of names in
      let e' = set_target_state undeployed_state e in
      idle_delete w now (execute w now f) e msg act p idle
      ∙ ap
          (λ o.
            o >>= λ x. call (execute w now f) x.transition x (record msg { service = x.service }))
          (set_next_step-undeployed e' s refl)
      ∙ ap (λ o. call (execute w now f) o e' (record msg { service = e'.service })) t
      ∙ delete_loops f e' (record msg { service = e'.service }) s idle t p act

  -- With deployable names, a provider's delete message to an entry in state "undeployed" that
  -- no extension works on is never finished: no number of nested calls is enough.
  pub execute-delete_diverges :
      (f : ℕ) (e : WorkflowEntry) (msg : Message)
      → e.state ≡ undeployed_state
      → e.work_in_progress ≡ false
      → is_provider msg.sender ≡ true
      → msg.action ≡ delete_action
      → execute (workflow_of names) now f provider_state e msg ≡ out_of_fuel
  unfolding execute
  execute-delete_diverges zero e msg s idle p act = refl
  execute-delete_diverges (suc f) e msg s idle p act =
      let w = workflow_of names in
      provider_execute_delete w now (execute w now f) e msg act
      ∙ delete_loops f (record e { transition = some provider_delete_state }) msg s idle refl p act
