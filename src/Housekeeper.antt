-- ===== src/Housekeeper.antt =====
-- core/server.go: the housekeeper, which looks at every tracked service when its ticker fires, and
-- the refresh requests that it sends to a provider. Durations are natural numbers: the configured
-- ones are not negative, and `time.Time.Sub` ends at the largest duration. The extensions are listed
-- in the order in which the code ranges over their map.
pub mod Judged
pub mod Sweep
use Prim.Native.String
use interlook.Prelude.{
  ℕ, ◌-◌, ◌^◌, min, String, Bool, true, false, not, ◌&&◌, Option, none, some, List, [], ◌∷◌, ◌++◌,
  get_elem?, ◌==◌, ltb, if◌then◌else◌,
}
use interlook.Comm.{Message, no_message, no_service, refresh_action}
use interlook.Workflow.{deployed_state, undeployed_state}
use interlook.Entry.{WorkflowEntry, close}
use interlook.Dict.{remove}
use interlook.Entries.{WorkflowEntries, store}

-- the durations of the configuration
pub record CoreConfig : Type 0 where
  pub clean_undeployed_service_after : ℕ
  pub service_max_last_updated : ℕ
  pub service_wip_timeout : ℕ

-- time.Now().Sub(t)
abbrev pub since : ℕ → ℕ → ℕ
since now t = min (now - t) (2 ^ 63 - 1)

unfoldable pub removes : CoreConfig → ℕ → WorkflowEntry → Bool
removes cfg now entry =
    (entry.state == entry.expected_state && not entry.work_in_progress)
    && (entry.state == undeployed_state
        && ltb cfg.clean_undeployed_service_after (since now entry.close_time))

unfoldable pub asks_refresh : CoreConfig → ℕ → WorkflowEntry → Bool
asks_refresh cfg now entry =
    ltb cfg.service_max_last_updated (since now entry.last_update) && entry.state == deployed_state

unfoldable pub times_out : CoreConfig → ℕ → WorkflowEntry → Bool
times_out cfg now entry =
    entry.work_in_progress && ltb cfg.service_wip_timeout (since now entry.wip_time)

infixr 65 ◌<>◌
abbrev ◌<>◌ : String → String → String
s <> t = String.◌++◌ s t

abbrev pub timeout_message : WorkflowEntry → String
timeout_message entry =
    "Closed due to ServiceWIPTimeout reached at step "
    <> (entry.state <> (". Err: " <> entry.error))

-- The entry after its turn.
unfoldable pub swept : CoreConfig → ℕ → WorkflowEntry → WorkflowEntry
unfolding times_out
swept cfg now entry =
    if times_out cfg now entry then close now (timeout_message entry) entry else entry

-- `refreshService`: the request goes to the first extension that is a provider.
unfoldable pub refresh_service : List (String × Bool) → String → Option (String × Message)
refresh_service [] service_name = none
refresh_service ((name, is_provider) ∷ extensions) service_name =
    let rest = refresh_service extensions service_name in
    if is_provider
    then some (
      name,
      record no_message {
        action = refresh_action;
        service = record no_service { name = service_name };
      },
    )
    else rest

abbrev requests : Option (String × Message) → List (String × Message)
requests none = []
requests (some r) = r ∷ []

-- One turn of the housekeeper's loop: the table, and the requests sent.
unfoldable pub turn :
    CoreConfig
    → ℕ
    → List (String × Bool)
    → String
    → ℕ
    → WorkflowEntry
    → WorkflowEntries
    → WorkflowEntries × List (String × Message)
unfolding removes asks_refresh swept refresh_service
turn cfg now extensions k p entry we =
    let kept = if removes cfg now entry then record we { entries = remove k we.entries } else we in
    (
      store p (swept cfg now entry) kept,
      if asks_refresh cfg now entry
          then requests (refresh_service extensions entry.service.name)
          else [],
    )

abbrev pub turn_at :
    CoreConfig
    → ℕ
    → List (String × Bool)
    → String
    → ℕ
    → Option WorkflowEntry
    → WorkflowEntries
    → WorkflowEntries × List (String × Message)
turn_at cfg now extensions k p none we = (we, [])
turn_at cfg now extensions k p (some entry) we = turn cfg now extensions k p entry we

-- The loop over the table, as it stood when the loop began.
unfoldable pub sweep :
    CoreConfig
    → ℕ
    → List (String × Bool)
    → List (String × ℕ)
    → WorkflowEntries
    → WorkflowEntries × List (String × Message)
unfolding turn
sweep cfg now extensions [] we = (we, [])
sweep cfg now extensions ((k, p) ∷ todo) we =
    let (we', sent) = turn_at cfg now extensions k p (get_elem? we.heap p) we in
    let (we'', more) = sweep cfg now extensions todo we' in (we'', sent ++ more)

unfoldable pub housekeep :
    CoreConfig
    → ℕ
    → List (String × Bool)
    → WorkflowEntries
    → WorkflowEntries × List (String × Message)
unfolding sweep
housekeep cfg now extensions we = sweep cfg now extensions we.entries we
