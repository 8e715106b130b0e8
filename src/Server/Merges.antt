-- ===== src/Server/Merges.antt =====
-- A message that is merged into the table keeps the invariant.
use interlook.Prelude.{
  ℕ, String, ◌≡◌, refl, false, Option, none, some, List, [], ◌++◌, length, get_elem?, get_elem?-All,
  append-nil, arith, Bool-cases, Option-cases, inl, inr,
}
use interlook.Comm.{Message}
use interlook.Workflow.{workflow_of, undeployed_state, deployed_state}
use interlook.Workflow.Shape.{chain, IsConfig, step_at}
use interlook.Workflow.Lookup.{length-workflow_of}
use interlook.Workflow.Next.{get_next_step-IsNearest}
use interlook.Entry.{WorkflowEntry, no_entry, set_next_step, set_last_update, make_new_flow_entry}
use interlook.Dict.{lookup}
use interlook.Entries.{
  WorkflowEntries, Task, entry_at, merge_message, merge_or_new, touch, service_need_update,
}
use interlook.Server.Extensions.{IsOneOf}
use interlook.Server.Invariant.{IsWell, Inv, store-Inv, merge_into-Inv, with_new-Inv, lookup-keyed}

-- The entry at a key, if there is one, is of the service with that name.
entry_at-PointsTo :
    (names : List String) (we : WorkflowEntries) (pending : List Task) (name : String) (p : ℕ)
    (e : WorkflowEntry)
    → Inv names we pending
    → entry_at we name ≡ some (p, e)
    → (get_elem? we.heap p ≡ some e) × (e.service.name ≡ name)
entry_at-PointsTo names we pending name p e v h = elim (Option-cases (lookup name we.entries)) [
  | inl out ↦ absurd (ground (arith, h, out))
  | inr (q, found) ↦
      let (e', at, n) = lookup-keyed we.heap we.entries name q v.keyed found in
      ground (arith, h, found, at, n)
]

-- What a merge leaves keeps the invariant.
abbrev pub IsMerged : List String → List Task → Option (WorkflowEntries × List Task) → Type 0
IsMerged names pending none = Unit
IsMerged names pending (some (we, started)) = Inv names we (pending ++ started)

module _ (names : List String) (c : IsConfig names) where
  pub make_new_made :
      (now : ℕ)
      → (e : WorkflowEntry) × (make_new_flow_entry (workflow_of names) now ≡ some e)
        × IsOneOf (chain names) e.state
  unfolding make_new_flow_entry set_next_step
  make_new_made now =
      let (j, v, n, eq) =
        get_next_step-IsNearest names c (length (workflow_of names)) false 0 undeployed_state refl
          (omega arith) (omega (arith, length-workflow_of names)) in
      (
        record no_entry {
          time_detected = now;
          state = v;
          expected_state = deployed_state;
          transition = some (step_at names j v).transition;
        },
        rw eq refl,
        (j, n.holds),
      )

  module _ (msg : Message) (from : IsOneOf (chain names) msg.sender) (now : ℕ)
      (we : WorkflowEntries) (pending : List Task) (v : Inv names we pending) where
    merge_or_new-IsMerged :
        (o : Option (ℕ × WorkflowEntry))
        → entry_at we msg.service.name ≡ o
        → IsMerged names pending (merge_or_new (workflow_of names) now msg we o)
    merge_or_new-IsMerged none h =
        let (e, made, s) = make_new_made now in
        rw made (with_new-Inv names c msg from we pending e v s)
    merge_or_new-IsMerged (some (p, e)) h =
        let (at, n) = entry_at-PointsTo names we pending msg.service.name p e v h in
        merge_into-Inv names c msg from we pending p e v at n

    append_none : Inv names we (pending ++ [])
    append_none = rw (append-nil pending) v

    touched :
        (o : Option (ℕ × WorkflowEntry))
        → entry_at we msg.service.name ≡ o
        → IsMerged names pending (some (touch now we o, []))
    unfolding set_last_update
    touched none h = append_none
    touched (some (p, e)) h =
        let (at, n) = entry_at-PointsTo names we pending msg.service.name p e v h in
        rw (append-nil pending) (
          store-Inv names we pending p e (set_last_update now e) v at (refl, λ h. h)
            (get_elem?-All (IsWell names) we.heap p e v.on_chain at))

    pub merge_message-IsMerged :
        IsMerged names pending (merge_message (workflow_of names) now msg we)
    unfolding merge_message
    merge_message-IsMerged = elim (Bool-cases (service_need_update msg we)) [
      | inl p ↦ rw p (merge_or_new-IsMerged (entry_at we msg.service.name) refl)
      | inr p ↦ rw p (touched (entry_at we msg.service.name) refl)
    ]
