-- ===== src/Execute/Overlap/Alone.antt =====
-- A goroutine that is not disturbed does what the transition does in one step.
use interlook.Prelude.{
  ℕ, suc, ◌≡◌, refl, sym, ap, ◌∙◌, Bool, true, false, ◌==◌, Option, none, some, List, [],
  Bool-cases, arith, inl, inr,
}
use interlook.Comm.{Message}
use interlook.Workflow.{WorkflowSteps, provisioner_state, is_last_step}
use interlook.Entry.{
  WorkflowEntry, set_wip, set_error, set_next_step, update_service, is_reverse, send_to_extension,
}
use interlook.Execute.{
  Outcome, ◌>>=◌, sent, out_of_fuel, done, execute, provisioner_execute, advance, close_execute,
}
use interlook.Execute.Overlap.{
  check_at, with_out, checks, fails, updates, arrives, sends, ended, stepped, alone, alone_from,
}

abbrev pub outcome_of : Option (WorkflowEntry × List Message) → Outcome
outcome_of none = out_of_fuel
outcome_of (some (e, out)) = done e out

module _ (w : WorkflowSteps) (now : ℕ) (msg : Message) where
  alone-arrives :
      (f : ℕ) (e : WorkflowEntry)
      → outcome_of (alone w now 2 (arrives msg) e) ≡ advance w now (execute w now (suc f)) msg e
  unfolding alone advance execute close_execute
  alone-arrives f e = elim (Bool-cases (is_last_step w e.state (is_reverse e))) [
    | inl last ↦ rw last refl
    | inr more ↦ rw more refl
  ]

  -- A goroutine takes its first step.
  alone-checks :
      (e : WorkflowEntry) (busy from_it fine : Bool)
      → e.work_in_progress ≡ busy
      → (msg.sender == e.state) ≡ from_it
      → (msg.error == "") ≡ fine
      → alone w now 5 (checks msg) e
        ≡ with_out [] (alone w now 4 (check_at msg busy from_it fine) e)
  unfolding alone
  alone-checks e busy from_it fine p q r =
      ap
        (λ b.
          with_out [] (alone w now 4 (check_at msg b (msg.sender == e.state) (msg.error == "")) e))
        p
      ∙ (ap (λ b. with_out [] (alone w now 4 (check_at msg busy b (msg.error == "")) e)) q
          ∙ ap (λ b. with_out [] (alone w now 4 (check_at msg busy from_it b) e)) r)

  execute-idle :
      (f : ℕ) (e : WorkflowEntry)
      → e.work_in_progress ≡ false
      → execute w now (suc f) provisioner_state e msg ≡ sent (send_to_extension now e)
  unfolding execute provisioner_execute
  execute-idle f e h = ground arith

  execute-goes :
      (f : ℕ) (e : WorkflowEntry)
      → e.work_in_progress ≡ true
      → (msg.sender == e.state) ≡ true
      → (msg.error == "") ≡ true
      → execute w now (suc f) provisioner_state e msg
        ≡ (set_next_step w (update_service msg e) >>= advance w now (execute w now f) msg)
  unfolding execute provisioner_execute
  execute-goes f e p q r = ground arith

  execute-error :
      (f : ℕ) (e : WorkflowEntry)
      → e.work_in_progress ≡ true
      → (msg.sender == e.state) ≡ true
      → (msg.error == "") ≡ false
      → execute w now (suc f) provisioner_state e msg
        ≡ done (set_error msg.error (set_wip now false e)) []
  unfolding execute provisioner_execute
  execute-error f e p q r = ground arith

  execute-other :
      (f : ℕ) (e : WorkflowEntry)
      → e.work_in_progress ≡ true
      → (msg.sender == e.state) ≡ false
      → execute w now (suc f) provisioner_state e msg ≡ done e []
  unfolding execute provisioner_execute
  execute-other f e p q = ground arith

  outcome_of-with_out :
      (o : Option (WorkflowEntry × List Message)) → outcome_of (with_out [] o) ≡ outcome_of o
  outcome_of-with_out none = refl
  outcome_of-with_out (some (e, out)) = refl

  alone-moves :
      (f : ℕ) (o : Option WorkflowEntry)
      → outcome_of (alone_from (alone w now 2) (stepped msg o))
        ≡ (o >>= advance w now (execute w now (suc f)) msg)
  alone-moves f none = refl
  alone-moves f (some e) = outcome_of-with_out (alone w now 2 (arrives msg) e) ∙ alone-arrives f e

  alone-updates :
      (f : ℕ) (e : WorkflowEntry)
      → outcome_of (alone w now 4 (updates msg) e)
        ≡ (set_next_step w (update_service msg e) >>= advance w now (execute w now (suc f)) msg)
  unfolding alone
  alone-updates f e = outcome_of-with_out _ ∙ alone-moves f (set_next_step w (update_service msg e))

  alone-sends :
      (e : WorkflowEntry) → outcome_of (alone w now 4 sends e) ≡ sent (send_to_extension now e)
  unfolding alone send_to_extension
  alone-sends e = refl

  alone-fails :
      (e : WorkflowEntry)
      → outcome_of (alone w now 4 (fails msg) e)
        ≡ done (set_error msg.error (set_wip now false e)) []
  unfolding alone
  alone-fails e = refl

  alone-ended : (e : WorkflowEntry) → outcome_of (alone w now 4 ended e) ≡ done e []
  unfolding alone
  alone-ended e = refl

  alone-check_at :
      (f : ℕ) (e : WorkflowEntry) (busy from_it fine : Bool)
      → e.work_in_progress ≡ busy
      → (msg.sender == e.state) ≡ from_it
      → (msg.error == "") ≡ fine
      → outcome_of (alone w now 4 (check_at msg busy from_it fine) e)
        ≡ execute w now (suc (suc f)) provisioner_state e msg
  alone-check_at f e false from_it fine p q r = alone-sends e ∙ sym (execute-idle (suc f) e p)
  alone-check_at f e true false fine p q r = alone-ended e ∙ sym (execute-other (suc f) e p q)
  alone-check_at f e true true false p q r = alone-fails e ∙ sym (execute-error (suc f) e p q r)
  alone-check_at f e true true true p q r = alone-updates f e ∙ sym (execute-goes (suc f) e p q r)

  -- A goroutine that executes a provisioner's transition a statement at a time, and that no
  -- other one disturbs, comes within five statements to the entry and the messages that the
  -- transition gives as one step, whatever the entry and the message are, or its walk along
  -- the workflow does not end.
  pub alone-execute :
      (f : ℕ) (e : WorkflowEntry)
      → outcome_of (alone w now 5 (checks msg) e)
        ≡ execute w now (suc (suc f)) provisioner_state e msg
  alone-execute f e =
      let busy = e.work_in_progress in
      let from_it = msg.sender == e.state in
      let fine = msg.error == "" in
      ap outcome_of (alone-checks e busy from_it fine refl refl refl)
      ∙ (outcome_of-with_out (alone w now 4 (check_at msg busy from_it fine) e)
          ∙ alone-check_at f e busy from_it fine refl refl refl)
