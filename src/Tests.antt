-- ===== src/Tests.antt =====
-- The theorems on small concrete inputs: a workflow of one provider and two provisioners, tables
-- with one service, an allocator with one record, and a device that only counts its calls.
mod Runs
mod Devices
mod Names
mod System
mod Locks
mod Providers
mod Kemp
mod Restart
mod Log
mod Loops
mod Overlap
mod Start
use Prim.Native.String
use interlook.Prelude.{
  ℕ, zero, suc, ◌+◌, ◌≤◌, ◌<◌, String, ◌==◌, ◌≡◌, refl, ◌≢◌, ◌⊎◌, inl, inr, Bool, true, false,
  Option, none, some, List, [], ◌∷◌, ◌++◌, length, get_elem?, All, arith, eq_iff, join, Lacks, not,
  ◌&&◌, eqb, eqb_iff, code, Char, if◌then◌else◌, ◌↔◌,
}
use interlook.Comm.{Target, Service, Message, no_message, no_service, update_action, build_message}
use interlook.Comm.Weights.{Tally}
use interlook.Workflow.{
  WorkflowSteps, Transition, next, no_next_step, no_current_step, get_next_step, get_transition,
  is_last_step, workflow_of, init_workflow, close_state, provider_state, provisioner_state,
  deployed_state, undeployed_state,
}
use interlook.Workflow.Shape.{chain, IsConfig, step_at}
use interlook.Workflow.Next.{IsNearest, is_provider, get_next_step-IsNearest}
use interlook.Workflow.Travel.{get_next_step-back, get_next_step-ends, get_next_step-unknown}
use interlook.Workflow.Ends.{
  is_last_step_iff, get_transition-chain, get_transition-unknown, init_workflow-join,
}
use interlook.Workflow.Kinds.{IsDeployable}
use interlook.Workflow.Stops.{stops}
use interlook.Entry.{WorkflowEntry, no_entry}
use interlook.Execute.{Outcome, out_of_fuel, done, execute}

pub apart : (s t : String) → (s == t) ≡ false → s ≢ t
apart s t h e = let same = (eq_iff s t).1 e in absurd (cc)

abbrev pub differ : String → List String → Bool
differ v [] = true
differ v (u ∷ us) = not (u == v) && differ v us

pub all_apart : (v : String) (us : List String) → differ v us ≡ true → All (λ u. u ≢ v) us
all_apart v [] h = tt
all_apart v (u ∷ us) h = (apart u v (ground arith), all_apart v us (ground arith))

abbrev pub names : List String
names = "provider.swarm" ∷ "ipam.ipalloc" ∷ "lb.f5ltm" ∷ []

pub names-IsConfig : IsConfig names
names-IsConfig = record {
  distinct = (
    all_apart "provider.swarm" ("ipam.ipalloc" ∷ "lb.f5ltm" ∷ []) refl,
    (all_apart "ipam.ipalloc" ("lb.f5ltm" ∷ []) refl, (tt, tt)),
  );
  no_deployed = all_apart deployed_state names refl;
  no_undeployed = all_apart undeployed_state names refl;
}

pub names-IsDeployable : IsDeployable names
names-IsDeployable = record { config = names-IsConfig; no_bare = all_apart "provider" names refl }

get_next_step-IsNearest_example :
    (j : ℕ) × (v : String) × IsNearest names true 2 j v
    × (get_next_step 2 (workflow_of names) "ipam.ipalloc" true
        ≡ some (next v (some (step_at names j v).transition)))
get_next_step-IsNearest_example =
    get_next_step-IsNearest names names-IsConfig 2 true 2 "ipam.ipalloc" refl (omega arith)
      (omega arith)

get_next_step-back_example :
    let w = workflow_of names in
    (j : ℕ) × (v : String) × (get_next_step (length w) w "ipam.ipalloc" false
      ≡ some (next v (some (step_at names j v).transition)))
    × (get_next_step (length w) w v true
        ≡ some (next "ipam.ipalloc" (some (step_at names 2 "ipam.ipalloc").transition)))
get_next_step-back_example =
    get_next_step-back names names-IsConfig 2 "ipam.ipalloc" refl (omega arith) refl

get_transition-unknown_example : get_transition (workflow_of names) "lb.kemplm" ≡ none
get_transition-unknown_example =
    get_transition-unknown names "lb.kemplm" (all_apart "lb.kemplm" (chain names) refl)

abbrev pub lacks : ℕ → String → Bool
lacks sep String.[] = true
lacks sep (String.◌∷◌ ch s) = not (eqb (code ch) sep) && lacks sep s

pub lacks-Lacks : (sep : ℕ) (s : String) → lacks sep s ≡ true → Lacks sep s
lacks-Lacks sep String.[] h = tt
lacks-Lacks sep (String.◌∷◌ ch s) h =
    ((λ e. ground (arith, eqb_iff (code ch) sep)), lacks-Lacks sep s (ground arith))
