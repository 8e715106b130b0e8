-- ===== src/Server/Locks/Deadlock.antt =====
-- When the three goroutines wait for each other.
use interlook.Prelude.{ℕ, String, ◌≡◌, Bool, true, false, List, ◌∷◌, ◌⊎◌}
use interlook.Comm.{Message}
use interlook.Workflow.{workflow_of}
use interlook.Workflow.Shape.{IsConfig}
use interlook.Housekeeper.{CoreConfig}
use interlook.Server.Locks.{
  by_housekeeper, Todo, asking, Listener, acquiring, crashed_at, sending, Threads, Move,
}

-- The listener waits for the lock, or has ended in a panic.
abbrev pub IsStopped : Listener → Type 0
IsStopped listener =
    ((msg : Message) × (listener ≡ acquiring msg)) ⊎ ((msg : Message) × (listener ≡ crashed_at msg))

abbrev goes_on : Listener → Bool
goes_on (acquiring msg) = false
goes_on (crashed_at msg) = false
goes_on _ = true

-- The housekeeper holds the lock and has a request for the provider, the provider a message for its
-- listener, and the listener has stopped.
pub record IsDeadlocked (s : Threads) : Type 0 where
  pub request : Message
  pub at : ℕ
  pub todo : Todo
  pub asks_now : s.keeper ≡ asking request at todo
  pub held : s.owner ≡ by_housekeeper
  pub msg : Message
  pub msgs : List Message
  pub sends_now : s.source ≡ sending (msg ∷ msgs)
  pub stopped : IsStopped s.listener

module _ (tag : Message → Message) (names : List String) (c : IsConfig names) (cfg : CoreConfig)
    (kinds : List (String × Bool)) where
  abbrev pub Next : Threads → Type 0
  Next s = (t : Threads) × Move tag (workflow_of names) cfg kinds s t
