-- ===== src/Tests/System.antt =====
-- The whole program, after its first message; an answer that is late; the set-up of extensions.
use interlook.Prelude.{
  ℕ, suc, String, ◌≡◌, refl, ◌≢◌, true, false, some, List, [], ◌∷◌, All, split, find_last,
  find_first,
}
use interlook.Comm.{Message, add_action, build_message, no_service, no_message}
use interlook.Workflow.{
  workflow_of, provider_state, provisioner_state, deployed_state, get_transition, get_next_step,
}
use interlook.Entry.{
  WorkflowEntry, no_entry, set_wip, update_service, set_transition, make_new_flow_entry,
  set_next_step,
}
use interlook.Execute.{done, execute, provider_execute, provider_add_execute, provisioner_execute}
use interlook.Dict.{lookup}
use interlook.Entries.{
  WorkflowEntries, Task, entry_at, crashed, ran, run_task, listen, init_workflow_entries,
}
use interlook.Server.{Field, init_extensions, message_sender}
use interlook.Server.Extensions.{IsOneOf}
use interlook.Server.Step.{System, hears, Reach, start, later}
use interlook.Server.Safety.{SystemInv, Reach-SystemInv, run_task_alive, run_task_apart}
use interlook.Server.Late.{execute-late}
use interlook.Tests.{names, names-IsConfig}
use interlook.Tests.Runs.{same_order, web, message, deployed_entry}

abbrev pub fields : List Field
fields =
    record { name = "core"; fields = ("loglevel", false) ∷ [] }
    ∷ record { name = "provider"; fields = ("swarm", true) ∷ [] }
    ∷ record { name = "ipam"; fields = ("ipalloc", true) ∷ [] }
    ∷ record { name = "lb"; fields = ("f5ltm", true) ∷ [] }
    ∷ []

abbrev pub same_case : String → String
same_case s = s

pub names_set_up : init_extensions same_case fields (workflow_of names) ≡ some names
unfolding init_extensions workflow_of split
names_set_up = refl

abbrev tracked : WorkflowEntry
tracked = record no_entry {
  state = "ipam.ipalloc";
  expected_state = deployed_state;
  time_detected = 7;
  service = record no_service {
    name = "web";
    targets = record { host = "10.0.0.1"; port = 80; weight = 1 } ∷ [];
    dns_aliases = "web.example" ∷ [];
  };
  transition = some provider_state;
}

abbrev first_task : Task
first_task = record {
  pointer = 0;
  transition = some provider_state;
  msg = record (message add_action) {
    service = record (web) { targets = record { host = "10.0.0.1"; port = 80; weight = 1 } ∷ [] };
  };
}

abbrev heard : System
heard = record {
  table = record { entries = ("web", 0) ∷ []; heap = tracked ∷ [] };
  pending = first_task ∷ [];
  outbox = [];
  received = [];
}

Reach-heard : Reach same_order (workflow_of names) names heard
unfolding listen workflow_of make_new_flow_entry update_service set_transition get_transition lookup
    split init_workflow_entries get_next_step find_last find_first
Reach-heard = later start (hears 7 "provider.swarm" (message add_action) (0, refl) refl)

Reach-SystemInv_example : SystemInv names heard
Reach-SystemInv_example =
    Reach-SystemInv same_order same_case fields names names names-IsConfig names_set_up Reach-heard

run_task_alive_example : run_task 3 (workflow_of names) 8 first_task heard.table ≢ crashed
run_task_alive_example =
    run_task_alive same_order same_case fields names names names-IsConfig names_set_up heard
      Reach-heard [] first_task [] refl 3 8

abbrev asked : WorkflowEntry
asked = record tracked {
  work_in_progress = true;
  wip_time = 8;
  last_update = 8;
  transition = some provisioner_state;
}

abbrev asked_table : WorkflowEntries
asked_table = record { entries = ("web", 0) ∷ []; heap = asked ∷ [] }

abbrev request : Message
request = record no_message {
  action = add_action;
  destination = "ipam.ipalloc";
  service = tracked.service;
}

first_run : run_task 3 (workflow_of names) 8 first_task heard.table ≡ ran asked_table (request ∷ [])
unfolding run_task workflow_of provider_execute provider_add_execute set_next_step get_next_step
    find_last split provisioner_execute build_message
first_run = refl

run_task_apart_example :
    All (λ m. m.service.name ≡ "web") (request ∷ [])
    × ((other : String) → other ≢ "web" → entry_at asked_table other ≡ entry_at heard.table other)
run_task_apart_example =
    run_task_apart same_order same_case fields names names names-IsConfig names_set_up heard
      Reach-heard [] first_task [] refl 3 8 asked_table (request ∷ []) first_run

execute-late_example :
    let stuck = set_wip 9 true deployed_entry in
    (m : Message) × (execute
        (workflow_of names)
        9
        1
        provisioner_state
        deployed_entry
        (message add_action)
      ≡ done stuck (m ∷ []))
    × (m.destination ≡ deployed_state)
    × (message_sender names m ≡ [])
    × ((later g : ℕ) (answer : Message)
        → IsOneOf names answer.sender
        → execute (workflow_of names) later (suc g) provisioner_state stuck answer ≡ done stuck [])
execute-late_example =
    execute-late same_case fields names names names-IsConfig names_set_up 9 0 deployed_entry
      (message add_action) refl refl
