-- ===== src/Server/Locks/Race.antt =====
-- Schedules of the three goroutines that end badly.
use interlook.Prelude.{
  ℕ, String, ◌≡◌, refl, ap, ◌∙◌, Bool, true, false, some, List, [], ◌∷◌, inl, get_elem?,
}
use interlook.Comm.{Message}
use interlook.Dict.{lookup, remove}
use interlook.Housekeeper.Sweep.{lookup-remove_self}
use interlook.Workflow.{WorkflowSteps}
use interlook.Entry.{WorkflowEntry}
use interlook.Entries.{WorkflowEntries, service_need_update}
use interlook.Housekeeper.{CoreConfig, removes, asks_refresh, refresh_service}
use interlook.Server.Locks.{
  Todo, sweeping, sending, by_housekeeper, crashed_at, Threads, threads_of, visit, check,
  touch_found, ticks, locks, visits, polls, hands, checks, touches, Runs, begin, onward,
}
use interlook.Server.Locks.Deadlock.{IsDeadlocked}

module _ (tag : Message → Message) (w : WorkflowSteps) (cfg : CoreConfig)
    (kinds : List (String × Bool)) (we : WorkflowEntries) where
  -- The source has polled, the listener has looked at the table and the housekeeper has the lock.
  abbrev after_look : Message → List Message → Threads
  after_look msg msgs = record (check (tag msg) (threads_of we)) {
    source = sending msgs;
    owner = by_housekeeper;
    keeper = sweeping we.entries;
  }

  Runs-after_look :
      (msg : Message) (msgs : List Message) → Runs tag w cfg kinds (after_look msg msgs)
  unfolding check
  Runs-after_look msg msgs =
      onward
        (onward
          (onward (onward (onward (begin we) (polls (msg ∷ msgs) refl)) (hands msg msgs refl refl))
            (checks (tag msg) refl))
          (ticks refl))
        (locks refl refl)

  module _ (now : ℕ) (k : String) (p : ℕ) (todo : Todo) (entry : WorkflowEntry)
      (first : we.entries ≡ (k, p) ∷ todo) (at : get_elem? we.heap p ≡ some entry) where
    -- If the first entry that the housekeeper visits asks for a refresh, some extension is
    -- the provider, and a poll finds two services of which the first needs an update of the
    -- table, then there is a schedule from that table to a deadlock.
    pub may_deadlock :
        (name : String) (request msg next : Message)
        → asks_refresh cfg now entry ≡ true
        → refresh_service kinds entry.service.name ≡ some (name, request)
        → service_need_update (tag msg) we ≡ true
        → (s : Threads) × Runs tag w cfg kinds s × IsDeadlocked s
    unfolding check visit
    may_deadlock name request msg next stale found need =
        let s = after_look msg (next ∷ []) in
        (
          _,
          onward (Runs-after_look msg (next ∷ [])) (visits now k p todo (ap sweeping first)),
          rw (at, stale, found, need)
              (record {
                request = request;
                at = p;
                todo = todo;
                asks_now = refl;
                held = refl;
                msg = next;
                msgs = [];
                sends_now = refl;
                stopped = inl (tag msg, refl);
              }),
        )

    -- If the housekeeper removes the entry that it visits first, and a message about that
    -- service needs no update of the table, then there is a schedule from that table in
    -- which the listener, which looks at the table before it takes the lock, calls a method
    -- of an entry that is gone.
    pub may_crash :
        (msg : Message)
        → removes cfg now entry ≡ true
        → (tag msg).service.name ≡ k
        → service_need_update (tag msg) we ≡ false
        → (s : Threads) × Runs tag w cfg kinds s × (s.listener ≡ crashed_at (tag msg))
    unfolding check visit touch_found
    may_crash msg old same fine =
        let gone =
          (ap (λ n. lookup n (remove k we.entries)) same) ∙ lookup-remove_self k we.entries in
        (
          _,
          onward (onward (Runs-after_look msg []) (visits now k p todo (ap sweeping first)))
              (touches now (tag msg) (rw (at, fine) refl)),
          rw (at, old, gone) refl,
        )
