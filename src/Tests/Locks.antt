-- ===== src/Tests/Locks.antt =====
-- The goroutines of a provider on one table: a deadlock, and a panic.
use interlook.Prelude.{String, ◌≡◌, refl, Bool, true, false, List, [], ◌∷◌, split}
use interlook.Comm.{Message, add_action, delete_action, is_same_than}
use interlook.Comm.Weights.{set_target_weight}
use interlook.Workflow.{workflow_of, undeployed_state}
use interlook.Entry.{WorkflowEntry, is_state_as_wanted}
use interlook.Entries.{WorkflowEntries, service_need_update}
use interlook.Entries.Table.{tagged}
use interlook.Dict.{lookup}
use interlook.Housekeeper.{CoreConfig, removes, asks_refresh, refresh_service}
use interlook.Server.Locks.{Threads, crashed_at, Runs}
use interlook.Server.Locks.Owners.{IsExclusive, Runs-IsExclusive}
use interlook.Server.Locks.Deadlock.{IsDeadlocked}
use interlook.Server.Locks.Race.{may_deadlock, may_crash}
use interlook.Tests.{names}
use interlook.Tests.Runs.{same_order, message, deployed_entry, table}

abbrev tag : Message → Message
tag = tagged same_order "provider.swarm"

abbrev cfg : CoreConfig
cfg = record {
  clean_undeployed_service_after = 10;
  service_max_last_updated = 10;
  service_wip_timeout = 10;
}

abbrev kinds : List (String × Bool)
kinds = ("ipam.ipalloc", false) ∷ ("provider.swarm", true) ∷ []

abbrev changed : Message
changed = message add_action

may_deadlock_example : (s : Threads) × Runs tag (workflow_of names) cfg kinds s × IsDeadlocked s
unfolding asks_refresh refresh_service service_need_update tagged set_target_weight is_same_than
    lookup split
may_deadlock_example =
    may_deadlock tag (workflow_of names) cfg kinds table 99 "web" 0 [] deployed_entry refl refl
      "provider.swarm" _ changed changed refl refl refl

-- The same run, with another second message.
deadlock : (s : Threads) × Runs tag (workflow_of names) cfg kinds s × IsDeadlocked s
unfolding asks_refresh refresh_service service_need_update tagged set_target_weight is_same_than
    lookup split
deadlock =
    may_deadlock tag (workflow_of names) cfg kinds table 99 "web" 0 [] deployed_entry refl refl
      "provider.swarm" _ changed (message delete_action) refl refl refl

abbrev locked_up : Threads
locked_up = deadlock.0

Runs-IsExclusive_example : IsExclusive locked_up
Runs-IsExclusive_example = Runs-IsExclusive deadlock.1

abbrev gone : WorkflowEntry
gone = record deployed_entry {
  state = undeployed_state;
  expected_state = undeployed_state;
  service = (tag changed).service;
}

abbrev old_table : WorkflowEntries
old_table = record table { heap = gone ∷ [] }

may_crash_example :
    (s : Threads) × Runs tag (workflow_of names) cfg kinds s
    × (s.listener ≡ crashed_at (tag (message delete_action)))
unfolding removes service_need_update tagged set_target_weight is_same_than lookup split
    is_state_as_wanted
may_crash_example =
    may_crash tag (workflow_of names) cfg kinds old_table 99 "web" 0 [] gone refl refl
      (message delete_action) refl refl refl
