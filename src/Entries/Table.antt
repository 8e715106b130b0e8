-- ===== src/Entries/Table.antt =====
-- How the operations of the table act on the entry of one service.
use interlook.Prelude.{
  ℕ, zero, suc, ◌<◌, String, ◌≡◌, refl, ap, ◌∙◌, true, Option, some, none, List, [], ◌∷◌, ◌++◌,
  length, get_elem?, get_elem?-lt, get_elem?-append_end, set, arith, eq_refl,
}
use interlook.Comm.{Message}
use interlook.Comm.Weights.{Tally, set_target_weight}
use interlook.Workflow.{WorkflowSteps}
use interlook.Entry.{WorkflowEntry, update_service, set_transition, make_new_flow_entry}
use interlook.Execute.{call, execute}
use interlook.Dict.{lookup}
use interlook.Entries.{
  deref, paired, WorkflowEntries, Task, entry_at, store, Ran, endless, ran, ran_from, run_at,
  run_task, listen, merge_message, merge_into, entry_needs,
}

-- The message as `extensionListener` hands it on.
unfoldable pub tagged : (Tally → Tally) → String → Message → Message
unfolding set_target_weight
tagged order sender msg = set_target_weight order (record msg { sender = sender })

-- A message is merged, and the goroutine that this starts is run at once.
abbrev pub run_all : ℕ → WorkflowSteps → ℕ → Option (WorkflowEntries × List Task) → Ran
run_all f w now none = endless
run_all f w now (some (we, [])) = ran we []
run_all f w now (some (we, task ∷ _)) = run_task f w now task we

unfoldable pub deliver :
    ℕ → (Tally → Tally) → WorkflowSteps → ℕ → String → Message → WorkflowEntries → Ran
unfolding listen run_task
deliver f order w now sender msg we = run_all f w now (listen order w now sender msg we)

-- The entry that the goroutine finds.
unfoldable pub merged : WorkflowSteps → Message → WorkflowEntry → WorkflowEntry
unfolding update_service set_transition
merged w msg e = set_transition w msg.sender (update_service msg e)

pub get_elem?-set_self {ℓ} :
    {A : Type ℓ} (xs : List A) (i : ℕ) (v : A) → i < length xs → get_elem? (set xs i v) i ≡ some v
get_elem?-set_self [] i v h = absurd (omega arith)
get_elem?-set_self (x ∷ xs) zero v h = refl
get_elem?-set_self (x ∷ xs) (suc i) v h = get_elem?-set_self xs i v (omega arith)

deref_eq :
    (heap : List WorkflowEntry) (o : Option ℕ) (p : ℕ) (e : WorkflowEntry)
    → deref heap o ≡ some (p, e)
    → (o ≡ some p) × (get_elem? heap p ≡ some e)
deref_eq heap o p e h = ground arith

module _ (we : WorkflowEntries) (name : String) (p : ℕ) (e : WorkflowEntry)
    (at : entry_at we name ≡ some (p, e)) where
  pub entry_at-store : (e' : WorkflowEntry) → entry_at (store p e' we) name ≡ some (p, e')
  entry_at-store e' =
      let (found, held) = deref_eq we.heap (lookup name we.entries) p e at in
      ap (deref (set we.heap p e')) found
      ∙ ap (paired p) (get_elem?-set_self we.heap p e' (get_elem?-lt we.heap p held))

  merge_message-known :
      (w : WorkflowSteps) (now : ℕ) (msg : Message)
      → msg.service.name ≡ name
      → entry_needs msg e ≡ true
      → merge_message w now msg we ≡ some (merge_into w msg p e we)
  unfolding merge_message
  merge_message-known w now msg same need =
      let found : entry_at we msg.service.name ≡ some (p, e) = ap (entry_at we) same ∙ at in
      rw (found, need)

  -- A message to a tracked service that needs an update runs its sender's transition on the entry.
  pub deliver-known :
      (f : ℕ) (order : Tally → Tally) (w : WorkflowSteps) (now : ℕ) (sender : String)
      (msg : Message)
      → msg.service.name ≡ name
      → entry_needs (tagged order sender msg) e ≡ true
      → let m = tagged order sender msg in
        deliver f order w now sender msg we
        ≡ ran_from p
            (store p (merged w m e) we)
            (call (execute w now f) (merged w m e).transition (merged w m e) m)
  unfolding deliver tagged merged merge_into
  deliver-known f order w now sender msg same need =
      let m = tagged order sender msg in
      let (found, held) = deref_eq we.heap (lookup name we.entries) p e at in
      ap (run_all f w now) (merge_message-known w now m same need)
      ∙ ap
          (run_at f w now (record { pointer = p; transition = (merged w m e).transition; msg = m })
            (store p (merged w m e) we))
          (get_elem?-set_self we.heap p (merged w m e) (get_elem?-lt we.heap p held))

lookup-append_end :
    (m : List (String × ℕ)) (name : String) (p : ℕ)
    → lookup name m ≡ none
    → lookup name (m ++ (name, p) ∷ []) ≡ some p
unfolding lookup
lookup-append_end [] name p h = rw (eq_refl name)
lookup-append_end ((j, v) ∷ m) name p h = ground (arith, lookup-append_end m name p)

-- The table with a new entry for a service.
abbrev pub with_entry : WorkflowEntries → String → WorkflowEntry → WorkflowEntries
with_entry we name e = record {
  entries = we.entries ++ (name, length we.heap) ∷ [];
  heap = we.heap ++ e ∷ [];
}

module _ (we : WorkflowEntries) (name : String) (new : lookup name we.entries ≡ none) where
  pub entry_at-with_entry :
      (e : WorkflowEntry) → entry_at (with_entry we name e) name ≡ some (length we.heap, e)
  entry_at-with_entry e =
      ap (deref (we.heap ++ e ∷ [])) (lookup-append_end we.entries name (length we.heap) new)
      ∙ ap (paired (length we.heap)) (get_elem?-append_end we.heap e)

  merge_message-new :
      (w : WorkflowSteps) (now : ℕ) (msg : Message) (e : WorkflowEntry)
      → msg.service.name ≡ name
      → make_new_flow_entry w now ≡ some e
      → merge_message w now msg we
        ≡ some (merge_into w msg (length we.heap) e (with_entry we msg.service.name e))
  unfolding merge_message
  merge_message-new w now msg e same made =
      let found : entry_at we msg.service.name ≡ none =
        ap (entry_at we) same ∙ ap (deref we.heap) new in
      rw (found, made)

  -- A message about a service that is not tracked makes its entry, and runs its sender's transition
  -- on it.
  pub deliver-new :
      (f : ℕ) (order : Tally → Tally) (w : WorkflowSteps) (now : ℕ) (sender : String)
      (msg : Message) (e : WorkflowEntry)
      → msg.service.name ≡ name
      → make_new_flow_entry w now ≡ some e
      → let m = tagged order sender msg in
        let p = length we.heap in
        deliver f order w now sender msg we
        ≡ ran_from p
            (store p (merged w m e) (with_entry we msg.service.name e))
            (call (execute w now f) (merged w m e).transition (merged w m e) m)
  unfolding deliver tagged merged merge_into
  deliver-new f order w now sender msg e same made =
      let m = tagged order sender msg in
      let p = length we.heap in
      let we' = with_entry we msg.service.name e in
      ap (run_all f w now) (merge_message-new w now m e same made)
      ∙ ap
          (run_at f w now (record { pointer = p; transition = (merged w m e).transition; msg = m })
            (store p (merged w m e) we'))
          (get_elem?-set_self (we.heap ++ e ∷ []) p (merged w m e)
            (get_elem?-lt (we.heap ++ e ∷ []) p (get_elem?-append_end we.heap e)))
