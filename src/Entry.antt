-- ===== src/Entry.antt =====
-- core/workflow.go, the second part: a tracked service and its methods. A method that mutates
-- `*workflowEntry` returns the new record. A time is a natural number, 0 for the zero `time.Time`,
-- and `now` is the clock's reading. The entry's mutex is not modelled: a method is one step.
use interlook.Prelude.{
  ℕ, String, Bool, true, false, not, ◌&&◌, ◌||◌, Option, none, some, length, ◌==◌, starts_with,
  if◌then◌else◌,
}
use interlook.Comm.{Service, Message, no_service, add_action, delete_action, build_message}
use interlook.Workflow.{
  Transition, WorkflowSteps, NextStep, next, get_next_step, get_transition, deployed_state,
  undeployed_state,
}

pub record WorkflowEntry : Type 0 where
  pub work_in_progress : Bool
  pub wip_time : ℕ
  pub state : String
  pub expected_state : String
  pub info : String
  pub error : String
  pub time_detected : ℕ
  pub last_update : ℕ
  pub service : Service
  pub close_time : ℕ
  pub transition : Option Transition

-- The zero value of Go.
abbrev pub no_entry : WorkflowEntry
no_entry = record {
  work_in_progress = false;
  wip_time = 0;
  state = "";
  expected_state = "";
  info = "";
  error = "";
  time_detected = 0;
  last_update = 0;
  service = no_service;
  close_time = 0;
  transition = none;
}

unfoldable pub set_error : String → WorkflowEntry → WorkflowEntry
set_error err e = record e { error = err }

unfoldable pub set_wip : ℕ → Bool → WorkflowEntry → WorkflowEntry
set_wip now wip e = record e { wip_time = if wip then now else 0; work_in_progress = wip }

unfoldable pub set_target_state : String → WorkflowEntry → WorkflowEntry
set_target_state state e = record e { expected_state = state }

unfoldable pub set_last_update : ℕ → WorkflowEntry → WorkflowEntry
set_last_update now e = record e { last_update = now }

unfoldable pub set_transition : WorkflowSteps → String → WorkflowEntry → WorkflowEntry
set_transition w state e = record e { transition = get_transition w state }

unfoldable pub is_reverse : WorkflowEntry → Bool
is_reverse e = if e.expected_state == undeployed_state then true else false

-- The result of `setNextStep`: `none` if the walk has not ended, and no change on an error.
unfoldable pub enter_step : WorkflowEntry → Option NextStep → Option WorkflowEntry
enter_step e none = none
enter_step e (some (next next_step t)) = some (record e {
  state = next_step;
  transition = t;
  work_in_progress = false;
  wip_time = 0;
  close_time = 0;
})
enter_step e (some _) = some e

-- The fuel of the walk is the length of the workflow.
unfoldable pub set_next_step : WorkflowSteps → WorkflowEntry → Option WorkflowEntry
unfolding enter_step is_reverse
set_next_step w e = enter_step e (get_next_step (length w) w e.state (is_reverse e))

unfoldable pub make_new_flow_entry : WorkflowSteps → ℕ → Option WorkflowEntry
unfolding set_next_step
make_new_flow_entry w now = set_next_step w (record no_entry {
  time_detected = now;
  state = undeployed_state;
  expected_state = deployed_state;
})

unfoldable pub set_state : Message → Bool → WorkflowEntry → WorkflowEntry
set_state msg wip e = record e {
  state = msg.sender;
  work_in_progress = wip;
  error = msg.error;
  close_time = 0;
}

abbrev from_provider : Message → Service → Service
from_provider msg service =
    if starts_with msg.sender "provider." && not (msg.action == delete_action)
    then record service {
      targets = msg.service.targets;
      tls = msg.service.tls;
      dns_aliases = msg.service.dns_aliases;
    }
    else service

abbrev from_ipam : Message → Service → Service
from_ipam msg service =
    if starts_with msg.sender "ipam."
    then record service { public_ip = msg.service.public_ip }
    else service

unfoldable pub update_service : Message → WorkflowEntry → WorkflowEntry
update_service msg e =
    let service = from_ipam msg (from_provider msg e.service) in
    record e { service = record service { name = msg.service.name } }

-- The entry, and the message that goes out on the channel `msgToExtension`.
unfoldable pub send_to_extension : ℕ → WorkflowEntry → WorkflowEntry × Message
unfolding set_wip is_reverse
send_to_extension now e =
    let e' = set_wip now true e in
    (e', record (build_message e'.service (is_reverse e')) { destination = e'.state })

unfoldable pub close : ℕ → String → WorkflowEntry → WorkflowEntry
unfolding set_wip set_error is_reverse
close now error_message e =
    let idle = set_wip now false e in
    let noted = if error_message == "" then idle else set_error error_message idle in
    record noted {
      state = if is_reverse noted then undeployed_state else deployed_state;
      close_time = now;
    }

unfoldable pub is_state_as_wanted : String → WorkflowEntry → Bool
is_state_as_wanted action e =
    e.expected_state == e.state
    && ((e.state == deployed_state && action == add_action)
        || (e.state == undeployed_state && action == delete_action))
