-- ===== src/Server/Safety.antt =====
-- The steps of the system keep the invariant, and what follows for every reachable state.
use interlook.Prelude.{
  ℕ, zero, suc, String, ◌≡◌, refl, ap, ◌∙◌, subst, ◌≢◌, Option, none, some, List, [], ◌∷◌, ◌++◌,
  get_elem?, get_elem?-lt, get_elem?-All, get_elem?-append_left, set, All, arith, Option-cases, inl,
  inr,
}
use interlook.Comm.{Message}
use interlook.Comm.Weights.{Tally, set_target_weight}
use interlook.Workflow.{WorkflowSteps, workflow_of, deployed_state}
use interlook.Workflow.Shape.{chain, IsConfig}
use interlook.Entry.{WorkflowEntry}
use interlook.Execute.{Outcome, out_of_fuel, panic, done, call, execute}
use interlook.Dict.{lookup}
use interlook.Entries.{
  WorkflowEntries, Task, entry_at, store, crashed, ran, ran_from, run_at, run_task, listen,
  init_workflow_entries,
}
use interlook.Entries.Table.{tagged}
use interlook.Housekeeper.{housekeep}
use interlook.Server.{Field, init_extensions}
use interlook.Server.Extensions.{IsOneOf, init_extensions-names}
use interlook.Server.Step.{System, Step, hears, runs, sweeps, sends, restarts, Reach, start, later}
use interlook.Server.Invariant.{PointsTo, IsReady, Inv, All-map, All-join, IsKeyed, lookup-keyed}
use interlook.Server.Restarts.{reloaded-Inv}
use interlook.Server.Merges.{IsMerged, merge_message-IsMerged}
use interlook.Server.Turns.{IsFineRun, run_task-IsFineRun, sweep-Inv}

-- The invariant of the table and its goroutines; every message to be sent is for a step of the
-- workflow.
pub record SystemInv (names : List String) (s : System) : Type 0 where
  pub inv : Inv names s.table s.pending
  pub bound : All (λ m. IsOneOf (chain names) m.destination) s.outbox

All-remove {ℓ κ} :
    {A : Type ℓ} (P : A → Type κ) (before : List A) (x : A) (after : List A)
    → All P (before ++ x ∷ after)
    → P x × All P (before ++ after)
All-remove P [] x after h = h
All-remove P (y ∷ before) x after (p, h) =
    let (q, rest) = All-remove P before x after h in (q, (p, rest))

on_chain : (names : List String) (v : String) → IsOneOf names v → IsOneOf (chain names) v
on_chain names v (i, e) =
    (suc i, get_elem?-append_left names (deployed_state ∷ []) i (get_elem?-lt names i e) ∙ e)

ran_from-store :
    (p : ℕ) (we : WorkflowEntries) (o : Outcome) (table : WorkflowEntries) (out : List Message)
    → ran_from p we o ≡ ran table out
    → (e : WorkflowEntry) × (table ≡ store p e we)
ran_from-store p we out_of_fuel table out h = ground arith
ran_from-store p we panic table out h = ground arith
ran_from-store p we (done e sent) table out h = (e, ground arith)

run_task-store :
    (f : ℕ) (w : WorkflowSteps) (now : ℕ) (task : Task) (we table : WorkflowEntries)
    (out : List Message)
    → run_task f w now task we ≡ ran table out
    → (e : WorkflowEntry) × (table ≡ store task.pointer e we)
unfolding run_task
run_task-store f w now task we table out h = run_at-store (get_elem? we.heap task.pointer) h
  where
    run_at-store :
        (o : Option WorkflowEntry)
        → run_at f w now task we o ≡ ran table out
        → (e : WorkflowEntry) × (table ≡ store task.pointer e we)
    run_at-store none g = ground arith
    run_at-store (some e) g =
        ran_from-store task.pointer we (call (execute w now f) task.transition e task.msg) table out
          g

get_elem?-set_other {ℓ} :
    {A : Type ℓ} (xs : List A) (p q : ℕ) (x : A) → q ≢ p → get_elem? (set xs p x) q ≡ get_elem? xs q
get_elem?-set_other [] p q x h = refl
get_elem?-set_other (y ∷ xs) zero zero x h = absurd (h refl)
get_elem?-set_other (y ∷ xs) zero (suc q) x h = refl
get_elem?-set_other (y ∷ xs) (suc p) zero x h = refl
get_elem?-set_other (y ∷ xs) (suc p) (suc q) x h = get_elem?-set_other xs p q x (λ e. h (ap suc e))

-- A write of an entry of one service leaves the entries of the others.
entry_at-other :
    (we : WorkflowEntries) (p : ℕ) (e : WorkflowEntry) (name other : String)
    → All (IsKeyed we.heap) we.entries
    → PointsTo we.heap p name
    → other ≢ name
    → entry_at (store p e we) other ≡ entry_at we other
entry_at-other we p e name other keyed (e₁, at₁, n₁) apart =
    elim (Option-cases (lookup other we.entries)) [
      | inl out ↦ rw out refl
      | inr (q, found) ↦
          let (e₂, at₂, n₂) = lookup-keyed we.heap we.entries other q keyed found in
          let elsewhere : q ≢ p = λ same. apart (ground (arith, at₁, at₂, n₁, n₂, same)) in
          rw (found, get_elem?-set_other we.heap p q e elsewhere) refl
    ]

module _ (order : Tally → Tally) (to_lower : String → String) (fields : List Field)
    (names extensions : List String) (c : IsConfig names)
    (set_up : init_extensions to_lower fields (workflow_of names) ≡ some extensions) where
  listen-Inv :
      (now : ℕ) (name : String) (msg : Message) (we we' : WorkflowEntries)
      (pending started : List Task)
      → IsOneOf extensions name
      → listen order (workflow_of names) now name msg we ≡ some (we', started)
      → Inv names we pending
      → Inv names we' (pending ++ started)
  unfolding listen set_target_weight tagged
  listen-Inv now name msg we we' pending started (i, e) h v =
      let configured =
        get_elem?-All (IsOneOf names) extensions i name
          (init_extensions-names to_lower fields names extensions set_up) e in
      subst (IsMerged names pending) h (
        merge_message-IsMerged names c (tagged order name msg) (on_chain names name configured) now
          we pending v)

  -- Every step keeps the invariant.
  Step-Inv :
      {s t : System}
      → Step order (workflow_of names) extensions s t
      → SystemInv names s
      → SystemInv names t
  unfolding housekeep
  Step-Inv {s} (hears now name msg {table} {started} on h) v = record {
    inv = listen-Inv now name msg s.table table s.pending started on h v.inv;
    bound = v.bound;
  }
  Step-Inv {s} (runs f now before task after {table} {out} p h) v =
      let (ready, rest) =
        All-remove (IsReady names s.table.heap) before task after
          (subst (All (IsReady names s.table.heap)) p v.inv.ready) in
      let kept : Inv names s.table (before ++ after) = record {
        on_chain = v.inv.on_chain;
        keyed = v.inv.keyed;
        ready = rest;
      } in
      let (inv', sent) =
        subst (IsFineRun names c (before ++ after) task.msg.service.name) h
          (run_task-IsFineRun names c f now task s.table (before ++ after) kept ready) in
      record {
        inv = inv';
        bound =
            All-join (λ m. IsOneOf (chain names) m.destination) s.outbox out v.bound
              (All-map _ _ out (λ m b. b.0) sent);
      }
  Step-Inv {s} (sweeps cfg now kinds {table} {requests} h) v = record {
    inv =
        subst (λ r. Inv names r.0 s.pending) h
          (sweep-Inv names c cfg now kinds s.table.entries s.table s.pending v.inv);
    bound = v.bound;
  }
  Step-Inv {s} (restarts {table} h) v = record {
    inv = subst (λ t. Inv names t []) h (reloaded-Inv names s.table s.pending v.inv);
    bound = tt;
  }
  Step-Inv {s} (sends before msg after p) v = record {
    inv = v.inv;
    bound =
        (All-remove (λ m. IsOneOf (chain names) m.destination) before msg after
          (subst (All (λ m. IsOneOf (chain names) m.destination)) p v.bound)).1;
  }

  -- If the configured names are pairwise different and none is reserved, and the extensions
  -- are those that `initExtensions` sets up for them, then in every state that the program
  -- reaches from an empty table, in any order of its listeners, goroutines, housekeeper and
  -- sender, each taking a turn as one step, and of restarts, which keep the table alone: every
  -- entry stands at a step of the workflow, every key of the table leads to an entry of the
  -- service with that name, every goroutine that has not run has a transition, a message from
  -- a step of the workflow and a pointer to an entry of the service in its message, which has
  -- a transition, and every message to be sent is for a step of the workflow.
  pub Reach-SystemInv :
      {s : System} → Reach order (workflow_of names) extensions s → SystemInv names s
  unfolding init_workflow_entries
  Reach-SystemInv start = record {
    inv = record { on_chain = tt; keyed = tt; ready = tt };
    bound = tt;
  }
  Reach-SystemInv (later r st) = Step-Inv st (Reach-SystemInv r)

  module _ (s : System) (r : Reach order (workflow_of names) extensions s) (before : List Task)
      (task : Task) (after : List Task) (pending : s.pending ≡ before ++ task ∷ after) where
    ready_run :
        (f now : ℕ)
        → IsFineRun names c s.pending task.msg.service.name
            (run_task f (workflow_of names) now task s.table)
    ready_run f now =
        let v = Reach-SystemInv r in
        let (ready, rest) =
          All-remove (IsReady names s.table.heap) before task after
            (subst (All (IsReady names s.table.heap)) pending v.inv.ready) in
        run_task-IsFineRun names c f now task s.table s.pending v.inv ready

    -- If the configured names are pairwise different and none is reserved, and the
    -- extensions are those that `initExtensions` sets up for them, no goroutine that has not
    -- run in a reachable state panics when it runs, whatever the depth of calls it is given:
    -- it never calls a method of a nil transition, and its pointer is valid.
    pub run_task_alive : (f now : ℕ) → run_task f (workflow_of names) now task s.table ≢ crashed
    run_task_alive f now e =
        subst (IsFineRun names c s.pending task.msg.service.name) e (ready_run f now)

    -- If the configured names are pairwise different and none is reserved, and the
    -- extensions are those that `initExtensions` sets up for them, a goroutine that has not
    -- run in a reachable state and that ends sends messages about the service of its own
    -- message only, and leaves the table's entry of every other service as it was.
    pub run_task_apart :
        (f now : ℕ) (table : WorkflowEntries) (out : List Message)
        → run_task f (workflow_of names) now task s.table ≡ ran table out
        → All (λ m. m.service.name ≡ task.msg.service.name) out
          × ((other : String)
              → other ≢ task.msg.service.name
              → entry_at table other ≡ entry_at s.table other)
    run_task_apart f now table out h =
        let v = Reach-SystemInv r in
        let ((t, from, (e₀, at, named, _)), rest) =
          All-remove (IsReady names s.table.heap) before task after
            (subst (All (IsReady names s.table.heap)) pending v.inv.ready) in
        let (e, wrote) = run_task-store f (workflow_of names) now task s.table table out h in
        (
          All-map _ _ out (λ m b. b.1)
              (subst (IsFineRun names c s.pending task.msg.service.name) h (ready_run f now)).1,
          λ other apart. rw wrote (
              entry_at-other s.table task.pointer e task.msg.service.name other v.inv.keyed
                (e₀, at, named) apart),
        )
