-- ===== src/Entries/Lifecycle.antt =====
-- The two journeys of a service, from the message of a provider to the last answer.
use interlook.Prelude.{
  ℕ, ◌<◌, ◌≤◌, String, ◌≡◌, refl, sym, ap, ◌∙◌, Bool, true, false, some, none, List, length,
  get_elem?, get_elem?-lt, arith, subst,
}
use interlook.Comm.{Message, add_action, delete_action}
use interlook.Comm.Weights.{Tally}
use interlook.Workflow.{
  WorkflowSteps, provider_state, workflow_of, deployed_state, undeployed_state,
}
use interlook.Workflow.Shape.{chain, step_at, at_start, at_name, at_end, position}
use interlook.Workflow.Next.{is_provider, terminal, length-chain}
use interlook.Workflow.Stops.{stops}
use interlook.Workflow.Ends.{get_transition-chain}
use interlook.Workflow.Kinds.{IsDeployable, transition_for-provider}
use interlook.Entry.{WorkflowEntry, no_entry, make_new_flow_entry}
use interlook.Execute.{call, execute}
use interlook.Execute.Steps.{entered, kind_of, set_next_step-IsNearest}
use interlook.Execute.Provider.{restarted, execute-add}
use interlook.Execute.Delete.{turned, execute-delete}
use interlook.Dict.{lookup}
use interlook.Entries.{WorkflowEntries, entry_at, store, ran_from, entry_needs}
use interlook.Entries.Table.{
  deliver, tagged, merged, deliver-known, deliver-new, entry_at-store, entry_at-with_entry,
  with_entry,
}
use interlook.Entries.Run.{serve, serve-arrive, IsClosed}

module _ (order : Tally → Tally) (names : List String) (c : IsDeployable names) (now : ℕ)
    (answer : Message → Message) (no_error : (m : Message) → (answer m).error ≡ "")
    (same_name : (m : Message) → (answer m).service.name ≡ m.service.name) where
  abbrev w : WorkflowSteps
  w = workflow_of names

  reserved_is_no_provider :
      (reverse : Bool) (v : String) → v ≡ terminal reverse → is_provider v ≡ true → ⊥
  reserved_is_no_provider true v q p =
      let none_such : is_provider undeployed_state ≡ true = subst (λ u. is_provider u ≡ true) q p in
      cc
  reserved_is_no_provider false v q p =
      let none_such : is_provider deployed_state ≡ true = subst (λ u. is_provider u ≡ true) q p in
      cc

  -- The name of a provider stands inside the chain, for a step with the provider's transition.
  provider_inside :
      (i : ℕ) (v : String)
      → get_elem? (chain names) i ≡ some v
      → is_provider v ≡ true
      → (i ≤ length names) × ((step_at names i v).transition ≡ provider_state)
  unfolding step_at
  provider_inside i v h p = elim (position names i v h) [
    | at_start e q ↦ absurd (reserved_is_no_provider true v q p)
    | at_name m e lt q ↦ (omega arith, ground (arith, transition_for-provider v p))
    | at_end e q ↦ absurd (reserved_is_no_provider false v q p)
  ]

  -- A provider's add message about a tracked service, in whatever state its entry is, has the
  -- service deployed where an update is needed: under the same conditions on the names and the
  -- answers, the extensions behind the provider are asked in the order of the workflow, each
  -- once, and the run ends with the entry idle in "deployed".
  pub serve-add :
      (i : ℕ) (sender : String) (we : WorkflowEntries) (p : ℕ) (e : WorkflowEntry) (msg : Message)
      → get_elem? (chain names) i ≡ some sender
      → is_provider sender ≡ true
      → msg.action ≡ add_action
      → entry_at we msg.service.name ≡ some (p, e)
      → entry_needs (tagged order sender msg) e ≡ true
      → let r = serve order w now answer (length names) (deliver 3 order w now sender msg we) in
        (r.0 ≡ stops names false i) × IsClosed msg.service.name deployed_state r.1
  unfolding tagged merged restarted
  serve-add i sender we p e msg h prov act at need =
      let m = tagged order sender msg in
      let e₁ = merged w m e in
      let (inner, prov_kind) = provider_inside i sender h prov in
      let kind = get_transition-chain names c.config i sender h ∙ ap (λ t. some t) prov_kind in
      let (j, v, n, eq) = execute-add names c now i e₁ m h inner prov act in
      let run =
        deliver-known we msg.service.name p e at 3 order w now sender msg refl need
        ∙ ap (λ t. ran_from p (store p e₁ we) (call (execute w now 3) t e₁ m)) kind
        ∙ ap (ran_from p (store p e₁ we)) eq in
      subst
        (λ d.
          let r = serve order w now answer (length names) d in
          (r.0 ≡ stops names false i) × IsClosed msg.service.name deployed_state r.1)
        (sym run)
        (serve-arrive order names c now answer no_error same_name (length names) false i j v
          (store p e₁ we) msg.service.name p e₁ (restarted now m e₁) m.error
          (get_elem?-lt (chain names) i h) n (omega (arith, n.beyond))
          (entry_at-store we msg.service.name p e at e₁) refl refl)

  -- A provider's add message about a service that is not tracked has the service deployed: if
  -- the configured names are pairwise different, none is reserved or the bare "provider", the
  -- provider is one of them, and each extension that is asked answers without an error and on
  -- the same service, then the extensions behind the provider are asked in the order of the
  -- workflow, each once, and the run ends with the entry idle in "deployed".
  pub serve-add_new :
      (i : ℕ) (sender : String) (we : WorkflowEntries) (msg : Message)
      → get_elem? (chain names) i ≡ some sender
      → is_provider sender ≡ true
      → msg.action ≡ add_action
      → lookup msg.service.name we.entries ≡ none
      → let r = serve order w now answer (length names) (deliver 3 order w now sender msg we) in
        (r.0 ≡ stops names false i) × IsClosed msg.service.name deployed_state r.1
  unfolding tagged merged restarted make_new_flow_entry
  serve-add_new i sender we msg h prov act new =
      let m = tagged order sender msg in
      let fresh = record no_entry {
        time_detected = now;
        state = undeployed_state;
        expected_state = deployed_state;
      } in
      let (_, u, _, made) = set_next_step-IsNearest names c false 0 fresh refl refl (omega arith) in
      let e = entered u (kind_of names c false u) fresh in
      let p = length we.heap in
      let we' = with_entry we msg.service.name e in
      let e₁ = merged w m e in
      let (inner, prov_kind) = provider_inside i sender h prov in
      let kind = get_transition-chain names c.config i sender h ∙ ap (λ t. some t) prov_kind in
      let (j, v, n, eq) = execute-add names c now i e₁ m h inner prov act in
      let run =
        deliver-new we msg.service.name new 3 order w now sender msg e refl made
        ∙ ap (λ t. ran_from p (store p e₁ we') (call (execute w now 3) t e₁ m)) kind
        ∙ ap (ran_from p (store p e₁ we')) eq in
      let at =
        entry_at-store we' msg.service.name p e (entry_at-with_entry we msg.service.name new e)
          e₁ in
      subst
        (λ d.
          let r = serve order w now answer (length names) d in
          (r.0 ≡ stops names false i) × IsClosed msg.service.name deployed_state r.1)
        (sym run)
        (serve-arrive order names c now answer no_error same_name (length names) false i j v
          (store p e₁ we') msg.service.name p e₁ (restarted now m e₁) m.error
          (get_elem?-lt (chain names) i h) n (omega (arith, n.beyond)) at refl refl)

  -- A provider's delete message about a tracked service that no extension works on and whose
  -- state is not "undeployed" has the service removed, where an update is needed: under the
  -- same conditions on the names and the answers, the extensions before the state of the entry
  -- are asked in reverse order, each once, and the run ends with the entry idle in
  -- "undeployed".
  pub serve-delete :
      (s i : ℕ) (sender : String) (we : WorkflowEntries) (p : ℕ) (e : WorkflowEntry) (msg : Message)
      → get_elem? (chain names) s ≡ some sender
      → is_provider sender ≡ true
      → msg.action ≡ delete_action
      → entry_at we msg.service.name ≡ some (p, e)
      → get_elem? (chain names) i ≡ some e.state
      → 0 < i
      → e.work_in_progress ≡ false
      → entry_needs (tagged order sender msg) e ≡ true
      → let r = serve order w now answer (length names) (deliver 3 order w now sender msg we) in
        (r.0 ≡ stops names true i) × IsClosed msg.service.name undeployed_state r.1
  unfolding tagged merged turned
  serve-delete s i sender we p e msg hs prov act at h left idle need =
      let m = tagged order sender msg in
      let e₁ = merged w m e in
      let kind =
        get_transition-chain names c.config s sender hs
        ∙ ap (λ t. some t) (provider_inside s sender hs prov).1 in
      let (j, v, n, eq) = execute-delete names c now i e₁ m h left idle prov act in
      let run =
        deliver-known we msg.service.name p e at 3 order w now sender msg refl need
        ∙ ap (λ t. ran_from p (store p e₁ we) (call (execute w now 3) t e₁ m)) kind
        ∙ ap (ran_from p (store p e₁ we)) eq in
      subst
        (λ d.
          let r = serve order w now answer (length names) d in
          (r.0 ≡ stops names true i) × IsClosed msg.service.name undeployed_state r.1)
        (sym run)
        (serve-arrive order names c now answer no_error same_name (length names) true i j v
          (store p e₁ we) msg.service.name p e₁ (turned e₁) m.error (get_elem?-lt (chain names) i h)
          n (omega (arith, n.beyond, get_elem?-lt (chain names) i h, length-chain names))
          (entry_at-store we msg.service.name p e at e₁) refl refl)
