-- ===== src/Server/Turns.antt =====
-- A run of a goroutine and a turn of the housekeeper keep the invariant.
use interlook.Prelude.{
  ℕ, String, ◌≡◌, refl, ◌∙◌, sym, Bool, some, List, [], ◌∷◌, get_elem?, get_elem?-All, All,
  Bool-cases, Option-cases, inl, inr,
}
use interlook.Workflow.{workflow_of}
use interlook.Workflow.Shape.{IsConfig}
use interlook.Entry.{WorkflowEntry}
use interlook.Execute.{Outcome, out_of_fuel, panic, done, execute}
use interlook.Dict.{remove}
use interlook.Entries.{WorkflowEntries, Task, Ran, endless, crashed, ran, ran_from, run_task}
use interlook.Housekeeper.{CoreConfig, sweep, turn, swept, removes, times_out}
use interlook.Server.Handlers.{execute-IsSafe}
use interlook.Server.Moves.{IsBound, IsSafe, close_kept}
use interlook.Server.Invariant.{Follows, IsReady, IsWell, Inv, store-Inv, remove-All}

module _ (names : List String) (c : IsConfig names) where
  -- What a run of a goroutine leaves, if it is about the service `name`.
  abbrev pub IsFineRun : List Task → String → Ran → Type 0
  IsFineRun pending name endless = Unit
  IsFineRun pending name crashed = ⊥
  IsFineRun pending name (ran we out) = Inv names we pending × All (IsBound names name) out

  ran_from-IsFineRun :
      (we : WorkflowEntries) (pending : List Task) (p : ℕ) (name : String) (e₀ : WorkflowEntry)
      (o : Outcome)
      → Inv names we pending
      → get_elem? we.heap p ≡ some e₀
      → e₀.service.name ≡ name
      → IsSafe names name o
      → IsFineRun pending name (ran_from p we o)
  ran_from-IsFineRun we pending p name e₀ out_of_fuel v at n s = tt
  ran_from-IsFineRun we pending p name e₀ panic v at n s = s
  ran_from-IsFineRun we pending p name e₀ (done e out) v at n (s, b) = (
    store-Inv names we pending p e₀ e v at (s.named ∙ sym n, λ _. s.has_transition) s.on_chain,
    b,
  )

  pub run_task-IsFineRun :
      (f now : ℕ) (task : Task) (we : WorkflowEntries) (pending : List Task)
      → Inv names we pending
      → IsReady names we.heap task
      → IsFineRun pending task.msg.service.name (run_task f (workflow_of names) now task we)
  unfolding run_task
  run_task-IsFineRun f now task we pending v ((t, eq), from, (e, at, named, armed)) =
      let s = get_elem?-All (IsWell names) we.heap task.pointer e v.on_chain at in
      rw (at, eq)
        (ran_from-IsFineRun we pending task.pointer task.msg.service.name e
          (execute (workflow_of names) now f t e task.msg) v at named
          (execute-IsSafe names c now f t task.msg.service.name e task.msg
            (record { on_chain = s; has_transition = armed; named = named }) (from, refl)))

  -- After its turn, an entry follows the one before and is at a step of the workflow.
  swept_kept :
      (cfg : CoreConfig) (now : ℕ) (e : WorkflowEntry)
      → IsWell names e
      → Follows e (swept cfg now e) × IsWell names (swept cfg now e)
  unfolding swept
  swept_kept cfg now e s = elim (Bool-cases (times_out cfg now e)) [
    | inl p ↦
        let (name, transition, on_chain) = close_kept names c now _ e in
        rw p ((name, λ (t, h). (t, transition ∙ h)), on_chain)
    | inr p ↦ rw p ((refl, λ h. h), s)
  ]

  turn-Inv :
      (cfg : CoreConfig) (now : ℕ) (kinds : List (String × Bool)) (k : String) (p : ℕ)
      (e : WorkflowEntry) (we : WorkflowEntries) (pending : List Task)
      → get_elem? we.heap p ≡ some e
      → Inv names we pending
      → Inv names (turn cfg now kinds k p e we).0 pending
  unfolding turn
  turn-Inv cfg now kinds k p e we pending at v =
      let (follows, s) =
        swept_kept cfg now e (get_elem?-All (IsWell names) we.heap p e v.on_chain at) in
      elim (Bool-cases (removes cfg now e)) [
        | inl r ↦ rw r (
            store-Inv names (record we { entries = remove k we.entries }) pending p e
              (swept cfg now e)
              (record {
                on_chain = v.on_chain;
                keyed = remove-All _ k we.entries v.keyed;
                ready = v.ready;
              })
              at follows s)
        | inr r ↦ rw r (store-Inv names we pending p e (swept cfg now e) v at follows s)
      ]

  pub sweep-Inv :
      (cfg : CoreConfig) (now : ℕ) (kinds : List (String × Bool)) (todo : List (String × ℕ))
      (we : WorkflowEntries) (pending : List Task)
      → Inv names we pending
      → Inv names (sweep cfg now kinds todo we).0 pending
  unfolding sweep
  sweep-Inv cfg now kinds [] we pending v = v
  sweep-Inv cfg now kinds ((k, p) ∷ todo) we pending v = elim (Option-cases (get_elem? we.heap p)) [
    | inl out ↦ rw out (sweep-Inv cfg now kinds todo we pending v)
    | inr (e, at) ↦ rw at (
        sweep-Inv cfg now kinds todo (turn cfg now kinds k p e we).0 pending
          (turn-Inv cfg now kinds k p e we pending at v))
  ]
