-- ===== src/Execute/Provisioner.antt =====
-- What the answers of the extensions do to an entry.
use interlook.Prelude.{
  ℕ, ◌<◌, String, ◌≡◌, ap, ◌∙◌, Bool, true, some, List, get_elem?, arith, eq_iff,
}
use interlook.Comm.{Message}
use interlook.Workflow.{WorkflowSteps, provisioner_state, workflow_of}
use interlook.Workflow.Shape.{chain}
use interlook.Workflow.Next.{terminal, IsNearest, steps_left}
use interlook.Workflow.Kinds.{IsDeployable}
use interlook.Entry.{WorkflowEntry, set_next_step, update_service}
use interlook.Execute.{Handler, ◌>>=◌, execute, advance, provisioner_execute}
use interlook.Execute.Steps.{arrive, set_next_step-IsNearest, advance-arrive}

module _ (w : WorkflowSteps) (now : ℕ) (e : WorkflowEntry) (msg : Message) where
  provisioner_execute_goes :
      (again : Handler)
      → e.work_in_progress ≡ true
      → msg.sender ≡ e.state
      → msg.error ≡ ""
      → provisioner_execute w now again e msg
        ≡ (set_next_step w (update_service msg e) >>= advance w now again msg)
  unfolding provisioner_execute
  provisioner_execute_goes again busy here ok =
      ground (arith, eq_iff msg.sender e.state, eq_iff msg.error "")

module _ (names : List String) (c : IsDeployable names) (now : ℕ) where
  -- With deployable names, the answer without an error of the extension that works on an entry
  -- updates the service of the entry and moves the entry, if a step is left in its direction,
  -- to the nearest step in that direction that is not a provider's: that step's extension is
  -- asked, or at the end the entry is closed.
  pub execute-answer :
      (reverse : Bool) (i : ℕ) (e : WorkflowEntry) (msg : Message)
      → get_elem? (chain names) i ≡ some e.state
      → e.expected_state ≡ terminal reverse
      → 0 < steps_left names reverse i
      → e.work_in_progress ≡ true
      → msg.sender ≡ e.state
      → msg.error ≡ ""
      → (j : ℕ) × (v : String) × IsNearest names reverse i j v
        × (execute (workflow_of names) now 2 provisioner_state e msg
            ≡ arrive now reverse v msg.error (update_service msg e))
  unfolding execute update_service
  execute-answer reverse i e msg h target left busy here ok =
      let w = workflow_of names in
      let e' = update_service msg e in
      let (j, v, n, eq) = set_next_step-IsNearest names c reverse i e' h target left in
      (
        j,
        v,
        n,
        provisioner_execute_goes w now e msg (execute w now 1) busy here ok
            ∙ ap (λ o. o >>= advance w now (execute w now 1) msg) eq
            ∙ advance-arrive names c 0 now reverse v e' msg target,
      )
