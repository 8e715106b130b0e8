-- ===== src/Execute/Provider.antt =====
-- What the messages of a provider do to an entry.
use interlook.Prelude.{
  ℕ, ◌≤◌, String, ◌≡◌, refl, ap, ◌∙◌, true, false, some, List, length, get_elem?, arith, eq_iff,
}
use interlook.Comm.{Message, add_action}
use interlook.Workflow.{
  WorkflowSteps, provider_state, provider_add_state, workflow_of, deployed_state,
}
use interlook.Workflow.Shape.{chain}
use interlook.Workflow.Next.{IsNearest, is_provider}
use interlook.Workflow.Kinds.{IsDeployable}
use interlook.Entry.{WorkflowEntry, set_next_step, set_target_state, set_last_update, set_state}
use interlook.Execute.{Handler, ◌>>=◌, call, execute, provider_execute, provider_add_execute}
use interlook.Execute.Steps.{arrive, set_next_step-IsNearest, call-arrive}

-- The entry as the message of a provider that adds the service leaves it before the next step.
unfoldable pub restarted : ℕ → Message → WorkflowEntry → WorkflowEntry
unfolding set_state set_target_state set_last_update
restarted now msg e =
    set_state msg false (record (set_target_state deployed_state (set_last_update now e)) {
      transition = some provider_add_state;
    })

module _ (w : WorkflowSteps) (now : ℕ) (again : Handler) (e : WorkflowEntry) (msg : Message) where
  provider_add_execute_goes :
      msg.action ≡ add_action
      → is_provider msg.sender ≡ true
      → is_provider e.state ≡ true
      → provider_add_execute w now again e msg
        ≡ (set_next_step w e >>= λ e'. call again e'.transition e' msg)
  unfolding provider_add_execute
  provider_add_execute_goes act p q = ground (arith, eq_iff msg.action add_action)

  provider_execute_add :
      msg.action ≡ add_action
      → provider_execute w now again e msg ≡ again provider_add_state (restarted now msg e) msg
  unfolding provider_execute restarted
  provider_execute_add act = ground (arith, eq_iff msg.action add_action)

module _ (names : List String) (c : IsDeployable names) (now : ℕ) where
  -- With deployable names, an add message of a provider of the workflow restarts any entry,
  -- also one that is still under deployment, at the nearest step behind the provider that is
  -- not a provider's.
  pub execute-add :
      (i : ℕ) (e : WorkflowEntry) (msg : Message)
      → get_elem? (chain names) i ≡ some msg.sender
      → i ≤ length names
      → is_provider msg.sender ≡ true
      → msg.action ≡ add_action
      → (j : ℕ) × (v : String) × IsNearest names false i j v
        × (execute (workflow_of names) now 3 provider_state e msg
            ≡ arrive now false v msg.error (restarted now msg e))
  unfolding execute restarted
  execute-add i e msg h le p act =
      let (j, v, n, eq) =
        set_next_step-IsNearest names c false i (restarted now msg e) h refl (omega arith) in
      let w = workflow_of names in
      (
        j,
        v,
        n,
        provider_execute_add w now (execute w now 2) e msg act
            ∙ provider_add_execute_goes w now (execute w now 1) (restarted now msg e) msg act p p
            ∙ ap (λ o. o >>= λ e'. call (execute w now 1) e'.transition e' msg) eq
            ∙ call-arrive names c 0 now false v (restarted now msg e) msg,
      )
