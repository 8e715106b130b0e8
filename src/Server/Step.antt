-- ===== src/Server/Step.antt =====
-- The whole program as a system of steps: the listeners of the extensions, the goroutines that
-- `mergeMessage` starts, the housekeeper and the message sender, which interleave in any order. A
-- turn of a loop and a run of a goroutine are one step each; the clock reads any number. A blocked
-- send on the channel `msgToExtension` is a message in `outbox`, and any of them is taken next.
use interlook.Prelude.{ℕ, String, Bool, some, List, [], ◌∷◌, ◌++◌, ◌≡◌}
use interlook.Comm.{Message}
use interlook.Comm.Weights.{Tally}
use interlook.Workflow.{WorkflowSteps}
use interlook.Entries.{WorkflowEntries, Task, ran, run_task, listen, init_workflow_entries}
use interlook.Entries.Files.{reloaded}
use interlook.Housekeeper.{CoreConfig, housekeep}
use interlook.Server.{message_sender}
use interlook.Server.Extensions.{IsOneOf}

pub record System : Type 0 where
  pub table : WorkflowEntries
  pub pending : List Task  -- goroutines that have not run
  pub outbox : List Message
  pub received : List (String × Message)  -- what the extensions were sent

abbrev pub init : System
init = record { table = init_workflow_entries; pending = []; outbox = []; received = [] }

module _ (order : Tally → Tally) (w : WorkflowSteps) (extensions : List String) where
  pub data Step (s : System) : System → Type 0 where
    hears :
        (now : ℕ) (name : String) (msg : Message) {table : WorkflowEntries} {started : List Task}
        → IsOneOf extensions name
        → listen order w now name msg s.table ≡ some (table, started)
        → Step s (record s { table = table; pending = s.pending ++ started })
    runs :
        (f now : ℕ) (before : List Task) (task : Task) (after : List Task) {table : WorkflowEntries}
        {out : List Message}
        → s.pending ≡ before ++ task ∷ after
        → run_task f w now task s.table ≡ ran table out
        → Step s (record s { table = table; pending = before ++ after; outbox = s.outbox ++ out })
    sweeps :
        (cfg : CoreConfig) (now : ℕ) (kinds : List (String × Bool)) {table : WorkflowEntries}
        {requests : List (String × Message)}
        → housekeep cfg now kinds s.table ≡ (table, requests)
        → Step s (record s { table = table; received = s.received ++ requests })
    sends :
        (before : List Message) (msg : Message) (after : List Message)
        → s.outbox ≡ before ++ msg ∷ after
        → Step s (record s {
          outbox = before ++ after;
          received = s.received ++ message_sender extensions msg;
        })
    -- `save` at the end of `run` and `load` at the start: goroutines and messages are lost.
    restarts :
        {table : WorkflowEntries}
        → reloaded s.table ≡ table
        → Step s (record s { table = table; pending = []; outbox = [] })

  pub data Reach : System → Type 0 where
    start : Reach init
    later : {s t : System} → Reach s → Step s t → Reach t
