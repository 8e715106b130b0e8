-- ===== src/Entries.antt =====
-- core/workflow.go, the third part, and core/server.go: the table of tracked services, the messages
-- that are merged into it, and the housekeeper. The table maps names to pointers, and a goroutine
-- that `mergeMessage` starts holds the pointer of its entry: it is a `Task`, which runs later, in
-- one step. A map is an association list, and `range` over it takes the list's order.
pub mod Table
pub mod Run
pub mod Lifecycle
pub mod Files
use interlook.Dict.{lookup, remove}
use interlook.Prelude.{
  ℕ, suc, ◌-◌, ◌^◌, min, String, Bool, true, false, not, ◌&&◌, ◌||◌, Option, none, some, List, [],
  ◌∷◌, ◌++◌, length, get_elem?, set, ◌==◌, ltb, if◌then◌else◌, map,
}
use interlook.Comm.{Message, Service, no_message, no_service, refresh_action, is_same_than}
use interlook.Comm.Weights.{Tally, set_target_weight}
use interlook.Workflow.{Transition, WorkflowSteps, deployed_state, undeployed_state}
use interlook.Entry.{
  WorkflowEntry, make_new_flow_entry, update_service, set_transition, set_last_update,
  is_state_as_wanted, close,
}
use interlook.Execute.{Outcome, out_of_fuel, panic, done, call, execute}

pub record WorkflowEntries : Type 0 where
  pub entries : List (String × ℕ)  -- map[string]*workflowEntry
  pub heap : List WorkflowEntry  -- what the pointers point to

unfoldable pub init_workflow_entries : WorkflowEntries
init_workflow_entries = record { entries = []; heap = [] }

-- `go entry.transition.execute(entry, msg)`: the receiver is read when the goroutine is started.
pub record Task : Type 0 where
  pub pointer : ℕ
  pub transition : Option Transition
  pub msg : Message

abbrev pub paired : ℕ → Option WorkflowEntry → Option (ℕ × WorkflowEntry)
paired p none = none
paired p (some e) = some (p, e)

abbrev pub deref : List WorkflowEntry → Option ℕ → Option (ℕ × WorkflowEntry)
deref heap none = none
deref heap (some p) = paired p (get_elem? heap p)

-- `we.Entries[name]`: the pointer and the entry that it points to.
abbrev pub entry_at : WorkflowEntries → String → Option (ℕ × WorkflowEntry)
entry_at we name = deref we.heap (lookup name we.entries)

abbrev pub entry_needs : Message → WorkflowEntry → Bool
entry_needs msg e =
    not (is_same_than e.service msg.service).0 || not (is_state_as_wanted msg.action e)

abbrev pub needs : Message → Option (ℕ × WorkflowEntry) → Bool
needs msg none = true
needs msg (some (p, e)) = entry_needs msg e

unfoldable pub service_need_update : Message → WorkflowEntries → Bool
service_need_update msg we = needs msg (entry_at we msg.service.name)

abbrev pub store : ℕ → WorkflowEntry → WorkflowEntries → WorkflowEntries
store p e we = record we { heap = set we.heap p e }

-- The table with the message merged into the entry `e` at `p`, and the goroutine that is started.
unfoldable pub merge_into :
    WorkflowSteps → Message → ℕ → WorkflowEntry → WorkflowEntries → WorkflowEntries × List Task
unfolding update_service set_transition
merge_into w msg p e we =
    let e' = set_transition w msg.sender (update_service msg e) in
    (store p e' we, record { pointer = p; transition = e'.transition; msg = msg } ∷ [])

abbrev pub with_new :
    WorkflowSteps
    → Message
    → WorkflowEntries
    → Option WorkflowEntry
    → Option (WorkflowEntries × List Task)
with_new w msg we none = none
with_new w msg we (some e) =
    let p = length we.heap in
    some (
      merge_into w msg p e
        (record { entries = we.entries ++ (msg.service.name, p) ∷ []; heap = we.heap ++ e ∷ [] }))

abbrev pub merge_or_new :
    WorkflowSteps
    → ℕ
    → Message
    → WorkflowEntries
    → Option (ℕ × WorkflowEntry)
    → Option (WorkflowEntries × List Task)
merge_or_new w now msg we none = with_new w msg we (make_new_flow_entry w now)
merge_or_new w now msg we (some (p, e)) = some (merge_into w msg p e we)

abbrev pub touch : ℕ → WorkflowEntries → Option (ℕ × WorkflowEntry) → WorkflowEntries
touch now we none = we
touch now we (some (p, e)) = store p (set_last_update now e) we

-- `none`: the walk to the first step of a new entry has not ended.
unfoldable pub merge_message :
    WorkflowSteps → ℕ → Message → WorkflowEntries → Option (WorkflowEntries × List Task)
unfolding service_need_update merge_into
merge_message w now msg we =
    if not (service_need_update msg we)
    then some (touch now we (entry_at we msg.service.name), [])
    else merge_or_new w now msg we (entry_at we msg.service.name)

-- What running a goroutine comes to.
pub data Ran : Type 0 where
  endless crashed : Ran
  ran : WorkflowEntries → List Message → Ran

abbrev pub ran_from : ℕ → WorkflowEntries → Outcome → Ran
ran_from p we out_of_fuel = endless
ran_from p we panic = crashed
ran_from p we (done e out) = ran (store p e we) out

abbrev pub run_at : ℕ → WorkflowSteps → ℕ → Task → WorkflowEntries → Option WorkflowEntry → Ran
run_at f w now task we none = crashed
run_at f w now task we (some e) =
    ran_from task.pointer we (call (execute w now f) task.transition e task.msg)

unfoldable pub run_task : ℕ → WorkflowSteps → ℕ → Task → WorkflowEntries → Ran
unfolding execute
run_task f w now task we = run_at f w now task we (get_elem? we.heap task.pointer)

-- The loop body of `extensionListener`: the message is tagged with its sender, and merged.
unfoldable pub listen :
    (Tally → Tally)
    → WorkflowSteps
    → ℕ
    → String
    → Message
    → WorkflowEntries
    → Option (WorkflowEntries × List Task)
unfolding merge_message set_target_weight
listen order w now name new_message we =
    merge_message w now (set_target_weight order (record new_message { sender = name })) we
