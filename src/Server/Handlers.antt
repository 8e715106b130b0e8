-- ===== src/Server/Handlers.antt =====
-- The transitions, one after the other: each keeps an entry sound, and none panics.
use interlook.Prelude.{
  ℕ, zero, suc, String, ◌==◌, ◌≡◌, refl, Bool, true, false, not, ◌&&◌, ◌||◌, Option, none, some,
  List, [], arith, if◌then◌else◌, starts_with, eqb,
}
use interlook.Comm.{Message, add_action, delete_action}
use interlook.Workflow.{
  Transition, provider_state, provider_add_state, provider_delete_state, provisioner_state,
  close_state, workflow_of, undeployed_state, is_last_step,
}
use interlook.Workflow.Shape.{IsConfig}
use interlook.Entry.{
  WorkflowEntry, set_next_step, is_reverse, update_service, set_error, set_wip, set_state,
  set_target_state,
}
use interlook.Execute.{
  Outcome, done, execute, call, advance, Handler, provider_execute, provider_add_execute,
  provider_delete_execute, provisioner_execute, close_execute, ◌>>=◌,
}
use interlook.Server.Moves.{
  IsSound, IsSafe, IsFrom, KeepsSound, step-IsSafe, step_if-IsSafe, sent-IsSafe, close-IsSound,
}

module _ (names : List String) (c : IsConfig names) where
  if-IsSafe :
      (name : String) (b : Bool) (x y : Outcome)
      → IsSafe names name x
      → IsSafe names name y
      → IsSafe names name (if b then x else y)
  if-IsSafe name true x y p q = p
  if-IsSafe name false x y p q = q

  quiet-IsSafe :
      (name : String) (e : WorkflowEntry) → IsSound names name e → IsSafe names name (done e [])
  quiet-IsSafe name e s = (s, tt)

  close_execute-IsSafe :
      (now : ℕ) (name : String) (e : WorkflowEntry) (msg : Message)
      → IsSound names name e
      → IsSafe names name (close_execute (workflow_of names) now e msg)
  unfolding close_execute
  close_execute-IsSafe now name e msg s = (close-IsSound names c now msg.error name e s, tt)

  module _ (now : ℕ) (again : Handler) (k : KeepsSound names c again) (name : String) where
    call-IsSafe :
        (o : Option Transition) (e : WorkflowEntry) (msg : Message)
        → (t : Transition) × (o ≡ some t)
        → IsSound names name e
        → IsFrom names c name msg
        → IsSafe names name (call again o e msg)
    call-IsSafe (some t) e msg h s m = k t name e msg s m
    call-IsSafe none e msg (t, h) s m = ground arith

    call_next-IsSafe :
        (e : WorkflowEntry) (msg : Message)
        → IsSound names name e
        → IsFrom names c name msg
        → IsSafe names name (call again e.transition e msg)
    call_next-IsSafe e msg s m = call-IsSafe e.transition e msg s.has_transition s m

    provider_execute-IsSafe :
        (e : WorkflowEntry) (msg : Message)
        → IsSound names name e
        → IsFrom names c name msg
        → IsSafe names name (provider_execute (workflow_of names) now again e msg)
    unfolding provider_execute set_state
    provider_execute-IsSafe e msg s m =
        if-IsSafe name (msg.action == add_action) _ _
          (k provider_add_state name _ msg
            (record {
              on_chain = m.0;
              has_transition = (provider_add_state, refl);
              named = s.named;
            })
            m)
          (if-IsSafe name (msg.action == delete_action) _ _
            (k provider_delete_state name _ msg
              (record {
                on_chain = s.on_chain;
                has_transition = (provider_delete_state, refl);
                named = s.named;
              })
              m)
            (
              record { on_chain = s.on_chain; has_transition = s.has_transition; named = s.named },
              tt,
            ))

    provider_add_execute-IsSafe :
        (e : WorkflowEntry) (msg : Message)
        → IsSound names name e
        → IsFrom names c name msg
        → IsSafe names name (provider_add_execute (workflow_of names) now again e msg)
    unfolding provider_add_execute
    provider_add_execute-IsSafe e msg s m =
        if-IsSafe name (not (msg.action == add_action) || not (starts_with msg.sender "provider."))
          _ _ (quiet-IsSafe name e s)
          (if-IsSafe name
            (eqb e.close_time 0 && (e.error == "" && not (starts_with e.state "provider."))) _ _
            (quiet-IsSafe name e s)
            (step-IsSafe names c name e _ s (λ e' s'. call_next-IsSafe e' msg s' m)))

    turn-IsSafe :
        (e : WorkflowEntry) (msg : Message)
        → IsSound names name e
        → IsFrom names c name msg
        → IsSafe names name (
            set_next_step (workflow_of names) (set_target_state undeployed_state e) >>= λ e'.
            call again e'.transition e' (record msg { service = e'.service }))
    unfolding set_target_state
    turn-IsSafe e msg s m =
        step-IsSafe names c name _ _
          (record { on_chain = s.on_chain; has_transition = s.has_transition; named = s.named })
          (λ e' s'. call_next-IsSafe e' (record msg { service = e'.service }) s' (m.0, s'.named))

    provider_delete_execute-IsSafe :
        (e : WorkflowEntry) (msg : Message)
        → IsSound names name e
        → IsFrom names c name msg
        → IsSafe names name (provider_delete_execute (workflow_of names) now again e msg)
    unfolding provider_delete_execute
    provider_delete_execute-IsSafe e msg s m =
        if-IsSafe name
          (not (msg.action == delete_action) || not (starts_with msg.sender "provider.")) _ _
          (quiet-IsSafe name e s)
          (step_if-IsSafe names c name e.work_in_progress e _ s (λ e' s'. turn-IsSafe e' msg s' m))

    advance-IsSafe :
        (e : WorkflowEntry) (msg : Message)
        → IsSound names name e
        → IsFrom names c name msg
        → IsSafe names name (advance (workflow_of names) now again msg e)
    unfolding advance
    advance-IsSafe e msg s m =
        if-IsSafe name (is_last_step (workflow_of names) e.state (is_reverse e)) _ _
          (k close_state name (record e { transition = some close_state }) msg
            (record {
              on_chain = s.on_chain;
              has_transition = (close_state, refl);
              named = s.named;
            })
            m)
          (sent-IsSafe names c now name e s)

    provisioner_execute-IsSafe :
        (e : WorkflowEntry) (msg : Message)
        → IsSound names name e
        → IsFrom names c name msg
        → IsSafe names name (provisioner_execute (workflow_of names) now again e msg)
    unfolding provisioner_execute set_error set_wip update_service
    provisioner_execute-IsSafe e msg s m =
        if-IsSafe name e.work_in_progress _ _
          (if-IsSafe name (not (msg.sender == e.state)) _ _ (quiet-IsSafe name e s) (
            if-IsSafe name (not (msg.error == "")) _ _
              (quiet-IsSafe name (set_error msg.error (set_wip now false e)) (record {
                on_chain = s.on_chain;
                has_transition = s.has_transition;
                named = s.named;
              }))
              (step-IsSafe names c name (update_service msg e) _
                (record { on_chain = s.on_chain; has_transition = s.has_transition; named = m.1 })
                (λ e' s'. advance-IsSafe e' msg s' m))))
          (sent-IsSafe names c now name e s)

  -- A message from a step of the workflow to a sound entry of its service never ends in a panic, and
  -- leaves a sound entry of that service.
  pub execute-IsSafe :
      (now f : ℕ) (t : Transition) (name : String) (e : WorkflowEntry) (msg : Message)
      → IsSound names name e
      → IsFrom names c name msg
      → IsSafe names name (execute (workflow_of names) now f t e msg)
  unfolding execute
  execute-IsSafe now zero t name e msg s m = tt
  execute-IsSafe now (suc f) provider_state name e msg s m =
      provider_execute-IsSafe now _ (execute-IsSafe now f) name e msg s m
  execute-IsSafe now (suc f) provider_add_state name e msg s m =
      provider_add_execute-IsSafe now _ (execute-IsSafe now f) name e msg s m
  execute-IsSafe now (suc f) provider_delete_state name e msg s m =
      provider_delete_execute-IsSafe now _ (execute-IsSafe now f) name e msg s m
  execute-IsSafe now (suc f) provisioner_state name e msg s m =
      provisioner_execute-IsSafe now _ (execute-IsSafe now f) name e msg s m
  execute-IsSafe now (suc f) close_state name e msg s m = close_execute-IsSafe now name e msg s
