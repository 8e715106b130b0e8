-- ===== src/Server/Shutdown.antt =====
-- core/server.go: the shutdown, from a signal to the table that is saved. The handler of the signals
-- stops the housekeeper, then every extension, waits for their `Start` and stops the API, and `run`
-- waits for the housekeeper, the API and the listeners that handle a message. The housekeeper takes
-- the stop only where it waits, and not while it sweeps the table or is held up by the provider in the
-- send of a refresh. `returns` says whether `Start` of an extension returns once
-- its `Stop` was called.
pub mod Phases
use interlook.Prelude.{ℕ, ◌+◌, ◌-◌, ◌<◌, ◌≡◌, String, Bool, true, false, List, [], ◌∷◌, length}

-- Where the goroutine of the signals stands.
pub data SignalHandler : Type 0 where
  listening : SignalHandler  -- at `range s.signals`
  halting : SignalHandler  -- at `s.housekeeperShutdown <- true`
  stopping : List String → SignalHandler  -- the extensions still to be stopped
  closing_api : SignalHandler  -- before `stopAPI`

-- Where the housekeeper stands.
pub data KeeperPhase : Type 0 where
  waiting : KeeperPhase  -- at its `select`
  sweeping : KeeperPhase  -- in its loop over the table
  asking : KeeperPhase  -- in the loop, at the send of `refreshService`
  gone : KeeperPhase

pub record Shutdown : Type 0 where
  pub handler : SignalHandler
  pub keeper : KeeperPhase
  pub api_up : Bool
  pub core_wg : ℕ
  pub merging : ℕ  -- the listeners between `coreWG.Add(1)` and `coreWG.Done()`
  pub extensions_wg : ℕ
  pub saved : Bool

module _ (returns : String → Bool) (extensions : List String) where
  -- What `run` has started.
  abbrev pub running : Shutdown
  running = record {
    handler = listening;
    keeper = waiting;
    api_up = true;
    core_wg = 2;
    merging = 0;
    extensions_wg = length extensions;
    saved = false;
  }

  -- A step of the handler, of the housekeeper, of a listener (each handles one message at a time) or
  -- of `run`, with whose end the program ends.
  pub data Stop (s : Shutdown) : Shutdown → Type 0 where
    ticks : s.keeper ≡ waiting → Stop s (record s { keeper = sweeping })
    asks : s.keeper ≡ sweeping → Stop s (record s { keeper = asking })
    hears : s.keeper ≡ asking → Stop s (record s { keeper = sweeping })
    rests : s.keeper ≡ sweeping → Stop s (record s { keeper = waiting })
    receives :
        s.saved ≡ false
        → s.merging < length extensions
        → Stop s (record s { core_wg = s.core_wg + 1; merging = s.merging + 1 })
    merged :
        s.saved ≡ false
        → 0 < s.merging
        → Stop s (record s { core_wg = s.core_wg - 1; merging = s.merging - 1 })
    signalled : s.handler ≡ listening → Stop s (record s { handler = halting })
    halts :
        s.handler ≡ halting
        → s.keeper ≡ waiting
        → Stop s
            (record s { handler = stopping extensions; keeper = gone; core_wg = s.core_wg - 1 })
    goes_down :
        (name : String) (todo : List String)
        → s.handler ≡ stopping (name ∷ todo)
        → returns name ≡ true
        → Stop s (record s { handler = stopping todo; extensions_wg = s.extensions_wg - 1 })
    hangs :
        (name : String) (todo : List String)
        → s.handler ≡ stopping (name ∷ todo)
        → returns name ≡ false
        → Stop s (record s { handler = stopping todo })
    all_down :
        s.handler ≡ stopping [] → s.extensions_wg ≡ 0 → Stop s (record s { handler = closing_api })
    api_stops :
        s.handler ≡ closing_api
        → Stop s (record s { handler = listening; api_up = false; core_wg = s.core_wg - 1 })
    saves : s.core_wg ≡ 0 → s.saved ≡ false → Stop s (record s { saved = true })

  pub data Stops : Shutdown → Type 0 where
    boots : Stops running
    next : {s t : Shutdown} → Stops s → Stop s t → Stops t
