-- ===== src/Execute/Overlap.antt =====
-- core/transition.go: `provisionerState.execute`, a statement at a time. The goroutines that
-- `mergeMessage` starts for one entry run at once: the entry has a mutex, but each of its methods
-- takes it for itself, and the tests between them read the entry without it. A close and a send are
-- one step each.
pub mod Alone
pub mod Skips
use interlook.Prelude.{
  ℕ, zero, suc, ◌≡◌, String, Bool, true, false, not, ◌==◌, Option, none, some, List, [], ◌∷◌, ◌++◌,
  if◌then◌else◌,
}
use interlook.Comm.{Message}
use interlook.Workflow.{WorkflowSteps, close_state, is_last_step}
use interlook.Entry.{
  WorkflowEntry, set_next_step, set_wip, set_error, update_service, is_reverse, send_to_extension,
  close,
}

-- Where a goroutine stands.
pub data At : Type 0 where
  checks : Message → At  -- at the start
  fails : Message → At  -- before `setWIP(false)`
  notes : Message → At  -- before `setError`
  updates : Message → At  -- before `updateService`
  moves : Message → At  -- before `setNextStep`
  arrives : Message → At  -- before `isLastStep`
  sends : At  -- before `sendToExtension`
  ended : At

pub record Moved : Type 0 where
  pub at : At
  pub entry : WorkflowEntry
  pub out : List Message

abbrev pub quiet : At → WorkflowEntry → Moved
quiet at e = record { at = at; entry = e; out = [] }

abbrev pub sent_off : WorkflowEntry × Message → Moved
sent_off (e, m) = record { at = ended; entry = e; out = m ∷ [] }

abbrev pub stepped : Message → Option WorkflowEntry → Option Moved
stepped msg none = none
stepped msg (some e) = some (quiet (arrives msg) e)

-- Where the tests lead: is an extension at work, is it the sender, and is there no error.
abbrev pub check_at : Message → Bool → Bool → Bool → At
check_at msg false from_it fine = sends
check_at msg true false fine = ended
check_at msg true true false = fails msg
check_at msg true true true = updates msg

-- One statement of a goroutine; `none` is a walk of `setNextStep` that has not ended.
unfoldable pub move_on : WorkflowSteps → ℕ → At → WorkflowEntry → Option Moved
unfolding set_next_step set_wip set_error update_service is_reverse send_to_extension close
move_on w now (checks msg) e =
    some (quiet (check_at msg e.work_in_progress (msg.sender == e.state) (msg.error == "")) e)
move_on w now (fails msg) e = some (quiet (notes msg) (set_wip now false e))
move_on w now (notes msg) e = some (quiet ended (set_error msg.error e))
move_on w now (updates msg) e = some (quiet (moves msg) (update_service msg e))
move_on w now (moves msg) e = stepped msg (set_next_step w e)
move_on w now (arrives msg) e = some (
    if is_last_step w e.state (is_reverse e)
    then quiet ended (close now msg.error (record e { transition = some close_state }))
    else quiet sends e)
move_on w now sends e = some (sent_off (send_to_extension now e))
move_on w now ended e = some (quiet ended e)

-- The goroutines on one entry, and the messages they have sent.
pub record Shared : Type 0 where
  pub entry : WorkflowEntry
  pub threads : List At
  pub out : List Message

module _ (w : WorkflowSteps) where
  pub data Interleaves (s : Shared) : Shared → Type 0 where
    picks :
        (now : ℕ) (before : List At) (t : At) (after : List At) (m : Moved)
        → s.threads ≡ before ++ t ∷ after
        → move_on w now t s.entry ≡ some m
        → Interleaves s
            (record { entry = m.entry; threads = before ++ m.at ∷ after; out = s.out ++ m.out })

  pub data Leads (s : Shared) : Shared → Type 0 where
    stays : Leads s s
    then_picks : {t u : Shared} → Leads s t → Interleaves t u → Leads s u

abbrev pub with_out :
    List Message → Option (WorkflowEntry × List Message) → Option (WorkflowEntry × List Message)
with_out out none = none
with_out out (some (e, more)) = some (e, out ++ more)

-- A goroutine that is alone, for so many statements.
abbrev pub alone_from :
    (At → WorkflowEntry → Option (WorkflowEntry × List Message))
    → Option Moved
    → Option (WorkflowEntry × List Message)
alone_from rest none = none
alone_from rest (some m) = with_out m.out (rest m.at m.entry)

unfoldable pub alone :
    WorkflowSteps → ℕ → ℕ → At → WorkflowEntry → Option (WorkflowEntry × List Message)
unfolding move_on
alone w now zero t e = some (e, [])
alone w now (suc n) t e = alone_from (alone w now n) (move_on w now t e)
