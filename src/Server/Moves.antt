-- ===== src/Server/Moves.antt =====
-- What the transitions of an entry keep, whatever the message: the entry stands at a step of the
-- workflow and has a transition, and it never loses its service.
use interlook.Prelude.{
  ℕ, suc, ◌≤◌, String, ◌==◌, ◌≡◌, refl, ◌∙◌, sym, Bool, true, false, some, List, length, get_elem?,
  get_elem?-lt, get_elem?-append_end, All, arith, if◌then◌else◌, Bool-cases, inl, inr, lt_cases,
}
use interlook.Comm.{Message, build_message}
use interlook.Workflow.{
  Transition, workflow_of, get_next_step, no_next_step, deployed_state, undeployed_state,
}
use interlook.Workflow.Shape.{chain, IsConfig, step_at, at_start, at_name, at_end, position}
use interlook.Workflow.Lookup.{length-workflow_of}
use interlook.Workflow.Next.{steps_left, terminal, get_next_step-IsNearest, length-chain}
use interlook.Workflow.Travel.{get_next_step-ends}
use interlook.Entry.{
  WorkflowEntry, set_next_step, is_reverse, close, send_to_extension, set_error, set_wip,
}
use interlook.Execute.{Outcome, out_of_fuel, panic, done, sent, Handler, ◌>>=◌}
use interlook.Server.Extensions.{IsOneOf}

-- The entry of the service `name` is at a step of the workflow and has a transition.
pub record IsSound (names : List String) (name : String) (e : WorkflowEntry) : Type 0 where
  pub on_chain : IsOneOf (chain names) e.state
  pub has_transition : (t : Transition) × (e.transition ≡ some t)
  pub named : e.service.name ≡ name

-- A message about the service `name` to a step of the workflow.
abbrev pub IsBound : List String → String → Message → Type 0
IsBound names name m = IsOneOf (chain names) m.destination × (m.service.name ≡ name)

-- No panic, and a sound entry of the same service.
abbrev pub IsSafe : List String → String → Outcome → Type 0
IsSafe names name out_of_fuel = Unit
IsSafe names name panic = ⊥
IsSafe names name (done e out) = IsSound names name e × All (IsBound names name) out

module _ (names : List String) (c : IsConfig names) where
  -- Where no step is left, the entry is at the end of the chain.
  state_at_end :
      (r : Bool) (i : ℕ) (v : String)
      → get_elem? (chain names) i ≡ some v
      → steps_left names r i ≡ 0
      → v ≡ terminal r
  state_at_end true i v h e = elim (position names i v h) [
    | at_start p q ↦ q
    | at_name m p lt q ↦ absurd (omega arith)
    | at_end p q ↦ absurd (omega arith)
  ]
  state_at_end false i v h e = elim (position names i v h) [
    | at_start p q ↦ absurd (omega arith)
    | at_name m p lt q ↦ absurd (omega arith)
    | at_end p q ↦ q
  ]

  get_next_step-end :
      (r : Bool) (f : ℕ)
      → get_next_step (suc f) (workflow_of names) (terminal r) r ≡ some no_next_step
  get_next_step-end true f = (get_next_step-ends names c f).0
  get_next_step-end false f = (get_next_step-ends names c f).1

  walk_fuel :
      (r : Bool) (i : ℕ) (v : String)
      → get_elem? (chain names) i ≡ some v
      → steps_left names r i ≤ length (workflow_of names)
  walk_fuel true i v h =
      omega (arith, length-workflow_of names, length-chain names, get_elem?-lt (chain names) i h)
  walk_fuel false i v h = omega (arith, length-workflow_of names)

  -- `setNextStep` ends and keeps an entry sound, also where no step is left.
  pub set_next_step-IsSound :
      (name : String) (e : WorkflowEntry)
      → IsSound names name e
      → (e' : WorkflowEntry) × (set_next_step (workflow_of names) e ≡ some e')
        × IsSound names name e'
  unfolding set_next_step
  set_next_step-IsSound name e s =
      let (i, h) = s.on_chain in
      let r = is_reverse e in
      elim (lt_cases 0 (steps_left names r i)) [
        | inl left ↦
            let (j, v, n, eq) =
              get_next_step-IsNearest names c (length (workflow_of names)) r i e.state h left
                (walk_fuel r i e.state h) in
            (
              record e {
                state = v;
                transition = some (step_at names j v).transition;
                work_in_progress = false;
                wip_time = 0;
                close_time = 0;
              },
              rw eq refl,
              record {
                on_chain = (j, n.holds);
                has_transition = ((step_at names j v).transition, refl);
                named = s.named;
              },
            )
        | inr (inl eq) ↦ (
          e,
          rw
              (
                length-workflow_of names,
                state_at_end r i e.state h (sym eq),
                get_next_step-end r (suc (length names)),
              )
              refl,
          s,
        )
        | inr (inr gt) ↦ absurd (omega arith)
      ]

  -- The sender is a step of the workflow, and the message is about the service.
  abbrev pub IsFrom : String → Message → Type 0
  IsFrom name msg = IsOneOf (chain names) msg.sender × (msg.service.name ≡ name)

  abbrev pub KeepsSound : Handler → Type 0
  KeepsSound again =
      (t : Transition) (name : String) (e : WorkflowEntry) (msg : Message)
      → IsSound names name e
      → IsFrom name msg
      → IsSafe names name (again t e msg)

  pub step-IsSafe :
      (name : String) (e : WorkflowEntry) (f : WorkflowEntry → Outcome)
      → IsSound names name e
      → ((e' : WorkflowEntry) → IsSound names name e' → IsSafe names name (f e'))
      → IsSafe names name (set_next_step (workflow_of names) e >>= f)
  step-IsSafe name e f s g = let (e', eq, s') = set_next_step-IsSound name e s in rw eq (g e' s')

  pub step_if-IsSafe :
      (name : String) (b : Bool) (e : WorkflowEntry) (f : WorkflowEntry → Outcome)
      → IsSound names name e
      → ((e' : WorkflowEntry) → IsSound names name e' → IsSafe names name (f e'))
      → IsSafe names name ((if b then set_next_step (workflow_of names) e else some e) >>= f)
  step_if-IsSafe name true e f s g = step-IsSafe name e f s g
  step_if-IsSafe name false e f s g = g e s

  pub sent-IsSafe :
      (now : ℕ) (name : String) (e : WorkflowEntry)
      → IsSound names name e
      → IsSafe names name (sent (send_to_extension now e))
  unfolding send_to_extension build_message is_reverse
  sent-IsSafe now name e s = (
    record { on_chain = s.on_chain; has_transition = s.has_transition; named = s.named },
    ((s.on_chain, s.named), tt),
  )

  end_on_chain : (r : Bool) → IsOneOf (chain names) (if r then undeployed_state else deployed_state)
  end_on_chain true = (0, refl)
  end_on_chain false = (suc (length names), get_elem?-append_end names deployed_state)

  -- `close` keeps the service and the transition, and the state is an end of the workflow.
  pub close_kept :
      (now : ℕ) (err : String) (e : WorkflowEntry)
      → let e' = close now err e in
        (e'.service.name ≡ e.service.name)
        × (e'.transition ≡ e.transition)
        × IsOneOf (chain names) e'.state
  unfolding close
  close_kept now err e = elim (Bool-cases (err == "")) [
    | inl p ↦ rw p (refl, refl, end_on_chain (is_reverse (set_wip now false e)))
    | inr p ↦ rw p (refl, refl, end_on_chain (is_reverse (set_error err (set_wip now false e))))
  ]

  pub close-IsSound :
      (now : ℕ) (err : String) (name : String) (e : WorkflowEntry)
      → IsSound names name e
      → IsSound names name (close now err e)
  close-IsSound now err name e s =
      let (same, kept, on_chain) = close_kept now err e in
      record {
        on_chain = on_chain;
        has_transition = (s.has_transition.0, kept ∙ s.has_transition.1);
        named = same ∙ s.named;
      }
