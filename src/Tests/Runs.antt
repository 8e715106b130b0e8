-- ===== src/Tests/Runs.antt =====
-- Messages to one entry and to the whole table, and a run of the housekeeper.
use interlook.Prelude.{
  ℕ, String, ◌≡◌, ◌⊎◌, refl, true, false, none, some, [], ◌∷◌, get_elem?, arith, split,
}
use interlook.Comm.{
  Service, Message, is_same_than, no_message, add_action, update_action, delete_action,
}
use interlook.Comm.Weights.{Tally}
use interlook.Workflow.{
  workflow_of, provider_state, provisioner_state, deployed_state, undeployed_state,
}
use interlook.Workflow.Next.{IsNearest}
use interlook.Workflow.Stops.{stops}
use interlook.Entry.{WorkflowEntry, no_entry, close, is_state_as_wanted, update_service}
use interlook.Execute.{out_of_fuel, execute}
use interlook.Execute.Steps.{arrive}
use interlook.Execute.Provider.{restarted, execute-add}
use interlook.Execute.Provisioner.{execute-answer}
use interlook.Execute.Delete.{turned, execute-delete, execute-delete_busy, execute-delete_diverges}
use interlook.Dict.{lookup}
use interlook.Entries.{WorkflowEntries, entry_needs}
use interlook.Entries.Table.{tagged, deliver}
use interlook.Entries.Run.{serve, IsClosed}
use interlook.Entries.Lifecycle.{serve-add_new, serve-add, serve-delete}
use interlook.Housekeeper.{CoreConfig, timeout_message, housekeep}
use interlook.Housekeeper.Sweep.{housekeep-each}
use interlook.Housekeeper.Judged.{IsExpired, IsStuck}
use interlook.Tests.{names, names-IsDeployable}

abbrev pub same_order : Tally → Tally
same_order t = t

abbrev pub web : Service
web = record {
  provider = "provider.swarm";
  name = "web";
  targets = record { host = "10.0.0.1"; port = 80; weight = 0 } ∷ [];
  tls = false;
  public_ip = "";
  dns_aliases = "web.example" ∷ [];
}

abbrev pub message : String → Message
message action = record no_message { action = action; sender = "provider.swarm"; service = web }

abbrev answer : Message → Message
answer m = record m { action = update_action; error = "" }

abbrev pub deployed_entry : WorkflowEntry
deployed_entry = record no_entry {
  state = deployed_state;
  expected_state = deployed_state;
  service = web;
}

abbrev pub table : WorkflowEntries
table = record { entries = ("web", 0) ∷ []; heap = deployed_entry ∷ [] }

abbrev empty_table : WorkflowEntries
empty_table = record { entries = []; heap = [] }

add_needed :
    entry_needs (tagged same_order "provider.swarm" (message add_action)) deployed_entry ≡ true
unfolding tagged is_same_than is_state_as_wanted split
add_needed = refl

delete_needed :
    entry_needs (tagged same_order "provider.swarm" (message delete_action)) deployed_entry ≡ true
unfolding tagged is_same_than is_state_as_wanted split
delete_needed = refl

serve-add_new_example :
    let r = serve same_order (workflow_of names) 7 answer 3 (
      deliver 3 same_order
        (workflow_of names)
        7
        "provider.swarm"
        (message add_action)
        empty_table) in
    (r.0 ≡ stops names false 1) × IsClosed "web" deployed_state r.1
unfolding lookup
serve-add_new_example =
    serve-add_new same_order names names-IsDeployable 7 answer (λ m. refl) (λ m. refl) 1
      "provider.swarm" empty_table (message add_action) refl refl refl refl

serve-add_example :
    let r =
      serve same_order
        (workflow_of names)
        7
        answer
        3
        (deliver 3 same_order (workflow_of names) 7 "provider.swarm" (message add_action) table) in
    (r.0 ≡ stops names false 1) × IsClosed "web" deployed_state r.1
unfolding lookup
serve-add_example =
    serve-add same_order names names-IsDeployable 7 answer (λ m. refl) (λ m. refl) 1
      "provider.swarm" table 0 deployed_entry (message add_action) refl refl refl refl add_needed

serve-delete_example :
    let r =
      serve same_order (workflow_of names) 7 answer 3 (
        deliver 3 same_order
          (workflow_of names)
          7
          "provider.swarm"
          (message delete_action)
          table) in
    (r.0 ≡ stops names true 4) × IsClosed "web" undeployed_state r.1
unfolding lookup
serve-delete_example =
    serve-delete same_order names names-IsDeployable 7 answer (λ m. refl) (λ m. refl) 1 4
      "provider.swarm" table 0 deployed_entry (message delete_action) refl refl refl refl refl
      (omega arith) refl delete_needed

execute-delete_diverges_example :
    execute
      (workflow_of names)
      7
      100
      provider_state
      (record no_entry { state = undeployed_state })
      (message delete_action)
    ≡ out_of_fuel
execute-delete_diverges_example =
    execute-delete_diverges names names-IsDeployable 7 100
      (record no_entry { state = undeployed_state }) (message delete_action) refl refl refl refl

abbrev pub busy_entry : WorkflowEntry
busy_entry = record no_entry {
  work_in_progress = true;
  state = "ipam.ipalloc";
  expected_state = deployed_state;
  service = web;
}

execute-add_example :
    (j : ℕ) × (v : String) × IsNearest names false 1 j v
    × (execute (workflow_of names) 7 3 provider_state busy_entry (message add_action)
        ≡ arrive 7 false v "" (restarted 7 (message add_action) busy_entry))
execute-add_example =
    execute-add names names-IsDeployable 7 1 busy_entry (message add_action) refl (omega arith) refl
      refl

execute-delete_busy_example :
    execute (workflow_of names) 7 3 provider_state busy_entry (message delete_action)
    ≡ arrive 7 true "ipam.ipalloc" "" (turned busy_entry)
execute-delete_busy_example =
    execute-delete_busy names names-IsDeployable 7 2 busy_entry (message delete_action) refl
      (omega arith) refl refl refl refl refl

execute-delete_example :
    (j : ℕ) × (v : String) × IsNearest names true 4 j v
    × (execute (workflow_of names) 7 3 provider_state deployed_entry (message delete_action)
        ≡ arrive 7 true v "" (turned deployed_entry))
execute-delete_example =
    execute-delete names names-IsDeployable 7 4 deployed_entry (message delete_action) refl
      (omega arith) refl refl refl

abbrev pub ipam_answer : Message
ipam_answer = record (message update_action) { sender = "ipam.ipalloc" }

execute-answer_example :
    (j : ℕ) × (v : String) × IsNearest names false 2 j v
    × (execute (workflow_of names) 7 2 provisioner_state busy_entry ipam_answer
        ≡ arrive 7 false v "" (update_service ipam_answer busy_entry))
execute-answer_example =
    execute-answer names names-IsDeployable 7 false 2 busy_entry ipam_answer refl refl (omega arith)
      refl refl refl

abbrev core : CoreConfig
core = record {
  clean_undeployed_service_after = 10;
  service_max_last_updated = 90;
  service_wip_timeout = 30;
}

abbrev gone_entry : WorkflowEntry
gone_entry = record no_entry {
  state = undeployed_state;
  expected_state = undeployed_state;
  close_time = 5;
  service = web;
}

abbrev gone_table : WorkflowEntries
gone_table = record { entries = ("web", 0) ∷ []; heap = gone_entry ∷ [] }

housekeep-each_example :
    let we' = (housekeep core 20 (("provider.swarm", true) ∷ []) gone_table).0 in
    ((IsExpired core 20 gone_entry × (lookup "web" we'.entries ≡ none))
      ⊎ ((¬ IsExpired core 20 gone_entry) × (lookup "web" we'.entries ≡ some 0)))
    × ((IsStuck core 20 gone_entry
          × (get_elem? we'.heap 0 ≡ some (close 20 (timeout_message gone_entry) gone_entry)))
        ⊎ ((¬ IsStuck core 20 gone_entry) × (get_elem? we'.heap 0 ≡ some gone_entry)))
unfolding lookup
housekeep-each_example =
    housekeep-each core 20 (("provider.swarm", true) ∷ []) gone_table "web" 0 gone_entry (tt, tt)
      refl refl
