-- ===== src/Server/Locks.antt =====
-- The goroutines that can wait for each other, one statement at a time: the housekeeper, which holds
-- the lock of the table while it sends a refresh request to the provider; the loop of the provider,
-- which sends what a poll or a refresh has built; and the provider's listener, which merges messages
-- under the lock, but looks at the table before it takes it. A send on a channel is one step of both
-- sides. The configuration has one provider. The goroutines that execute transitions take no lock and
-- wait for none of the three: they only gather in `started`.
pub mod Owners
pub mod Deadlock
pub mod Race
use interlook.Prelude.{
  ℕ, String, Bool, Option, none, some, List, [], ◌∷◌, ◌++◌, ◌≡◌, get_elem?, if◌then◌else◌,
}
use interlook.Comm.{Message}
use interlook.Dict.{remove}
use interlook.Entry.{WorkflowEntry, set_last_update}
use interlook.Workflow.{WorkflowSteps}
use interlook.Entries.{WorkflowEntries, Task, entry_at, service_need_update, store, merge_or_new}
use interlook.Housekeeper.{CoreConfig, removes, asks_refresh, refresh_service, swept}

-- the mutex of `workflowEntries`
pub data Owner : Type 0 where
  free by_housekeeper by_listener : Owner

-- The entries that a loop over the table has still to visit.
abbrev pub Todo : Type 0
Todo = List (String × ℕ)

-- Where `housekeeper` stands.
pub data Keeper : Type 0 where
  selecting : Keeper  -- the `select`
  locking : Keeper  -- before `Lock`
  sweeping : Todo → Keeper  -- the head of the loop
  asking : Message → ℕ → Todo → Keeper  -- at `ext.receive <- msg`
  timing_out : ℕ → Todo → Keeper  -- before the test of the time-out

-- Where `extensionListener` stands, with the message it has.
pub data Listener : Type 0 where
  receiving : Listener  -- at `<-extension.send`
  checking : Message → Listener  -- before `serviceNeedUpdate`
  touching : Message → Listener  -- before `setLastUpdate`, without the lock
  acquiring : Message → Listener  -- before `we.Lock()`
  merging : Message → Listener  -- with the lock
  crashed_at : Message → Listener  -- a method call on a nil entry

-- Where `Start` of the provider stands, with the messages it has still to send.
pub data Source : Type 0 where
  idle : Source  -- the `select`
  sending : List Message → Source

pub record Threads : Type 0 where
  pub table : WorkflowEntries
  pub started : List Task
  pub owner : Owner
  pub keeper : Keeper
  pub listener : Listener
  pub source : Source

abbrev pub threads_of : WorkflowEntries → Threads
threads_of table = record {
  table = table;
  started = [];
  owner = free;
  keeper = selecting;
  listener = receiving;
  source = idle;
}

abbrev pub ask : Option (String × Message) → ℕ → Todo → Keeper
ask none p todo = timing_out p todo
ask (some (name, msg)) p todo = asking msg p todo

-- The body of the loop of `housekeeper` up to the refresh request.
unfoldable pub visit :
    CoreConfig
    → ℕ
    → List (String × Bool)
    → String
    → ℕ
    → Todo
    → Option WorkflowEntry
    → Threads
    → Threads
unfolding removes asks_refresh refresh_service
visit cfg now kinds k p todo none s = record s { keeper = sweeping todo }
visit cfg now kinds k p todo (some entry) s = record s {
  table =
      if removes cfg now entry
      then record (s.table) { entries = remove k s.table.entries }
      else s.table;
  keeper =
      if asks_refresh cfg now entry
      then ask (refresh_service kinds entry.service.name) p todo
      else timing_out p todo;
}

-- The rest of the body, which reads the entry again.
unfoldable pub close_late : CoreConfig → ℕ → ℕ → Todo → Option WorkflowEntry → Threads → Threads
unfolding swept
close_late cfg now p todo none s = record s { keeper = sweeping todo }
close_late cfg now p todo (some entry) s = record s {
  table = store p (swept cfg now entry) s.table;
  keeper = sweeping todo;
}

-- The first lines of `mergeMessage`, up to the lock.
unfoldable pub check : Message → Threads → Threads
unfolding service_need_update
check msg s = record s {
  listener = if service_need_update msg s.table then acquiring msg else touching msg;
}

-- `we.Entries[msg.Service.Name].setLastUpdate()`
unfoldable pub touch_found : ℕ → Message → Option (ℕ × WorkflowEntry) → Threads → Threads
touch_found now msg none s = record s { listener = crashed_at msg }
touch_found now msg (some (p, e)) s = record s {
  table = store p (set_last_update now e) s.table;
  listener = receiving;
}

-- The rest of `mergeMessage`, with its deferred `Unlock`.
unfoldable pub merge_locked : WorkflowEntries → List Task → Threads → Threads
merge_locked table tasks s = record s {
  table = table;
  started = s.started ++ tasks;
  owner = free;
  listener = receiving;
}

-- `tag` is what the listener does to a message before it is merged.
module _ (tag : Message → Message) (w : WorkflowSteps) (cfg : CoreConfig)
    (kinds : List (String × Bool)) where
  pub data Move (s : Threads) : Threads → Type 0 where
    ticks : s.keeper ≡ selecting → Move s (record s { keeper = locking })
    locks :
        s.keeper ≡ locking
        → s.owner ≡ free
        → Move s (record s { owner = by_housekeeper; keeper = sweeping s.table.entries })
    visits :
        (now : ℕ) (k : String) (p : ℕ) (todo : Todo)
        → s.keeper ≡ sweeping ((k, p) ∷ todo)
        → Move s (visit cfg now kinds k p todo (get_elem? s.table.heap p) s)
    asks :
        (msg reply : Message) (p : ℕ) (todo : Todo)
        → s.keeper ≡ asking msg p todo
        → s.source ≡ idle
        → Move s (record s { keeper = timing_out p todo; source = sending (reply ∷ []) })
    closes :
        (now p : ℕ) (todo : Todo)
        → s.keeper ≡ timing_out p todo
        → Move s (close_late cfg now p todo (get_elem? s.table.heap p) s)
    unlocks : s.keeper ≡ sweeping [] → Move s (record s { owner = free; keeper = selecting })
    polls : (msgs : List Message) → s.source ≡ idle → Move s (record s { source = sending msgs })
    hands :
        (msg : Message) (msgs : List Message)
        → s.source ≡ sending (msg ∷ msgs)
        → s.listener ≡ receiving
        → Move s (record s { source = sending msgs; listener = checking (tag msg) })
    rests : s.source ≡ sending [] → Move s (record s { source = idle })
    checks : (msg : Message) → s.listener ≡ checking msg → Move s (check msg s)
    touches :
        (now : ℕ) (msg : Message)
        → s.listener ≡ touching msg
        → Move s (touch_found now msg (entry_at s.table msg.service.name) s)
    takes :
        (msg : Message)
        → s.listener ≡ acquiring msg
        → s.owner ≡ free
        → Move s (record s { owner = by_listener; listener = merging msg })
    merges :
        (now : ℕ) (msg : Message) {table : WorkflowEntries} {tasks : List Task}
        → s.listener ≡ merging msg
        → merge_or_new w now msg s.table (entry_at s.table msg.service.name) ≡ some (table, tasks)
        → Move s (merge_locked table tasks s)

  -- The states that the goroutines reach from the table that was loaded.
  pub data Runs : Threads → Type 0 where
    begin : (table : WorkflowEntries) → Runs (threads_of table)
    onward : {s t : Threads} → Runs s → Move s t → Runs t
