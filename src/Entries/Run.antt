-- ===== src/Entries/Run.antt =====
-- A whole deployment or removal: the requests of the core and the answers of the extensions, in
-- turn. The extensions are a function from a request to its answer.
use interlook.Prelude.{
  ℕ, zero, suc, ◌<◌, ◌≤◌, String, ◌==◌, ◌≡◌, refl, sym, ap, ◌∙◌, Bool, true, false, some, List, [],
  ◌∷◌, length, get_elem?, get_elem?-lt, arith, eq_iff, Bool-cases, inl, inr, ==_flip, subst,
}
use interlook.Comm.{Message, build_message}
use interlook.Comm.Weights.{Tally}
use interlook.Workflow.{
  WorkflowSteps, provisioner_state, close_state, workflow_of, deployed_state, undeployed_state,
}
use interlook.Workflow.Shape.{chain, step_at, at_start, at_name, at_end, position}
use interlook.Workflow.Next.{IsNearest, steps_left, terminal}
use interlook.Workflow.Stops.{stops, stops-IsNearest}
use interlook.Workflow.Ends.{get_transition-chain}
use interlook.Workflow.Kinds.{IsDeployable}
use interlook.Entry.{WorkflowEntry, update_service, is_state_as_wanted, send_to_extension, close}
use interlook.Execute.{done, call, execute, sent}
use interlook.Execute.Steps.{arrive, entered, close_rests, transition-terminal}
use interlook.Execute.Provisioner.{execute-answer}
use interlook.Entries.{
  WorkflowEntries, entry_at, store, Ran, endless, crashed, ran, ran_from, entry_needs,
}
use interlook.Entries.Table.{deliver, tagged, merged, deliver-known, entry_at-store}

module _ (order : Tally → Tally) (w : WorkflowSteps) (now : ℕ) (answer : Message → Message) where
  -- As long as there is a request, its extension answers and the answer is delivered. The result
  -- names the extensions that were asked, in order, and the last state; the number bounds the
  -- rounds.
  unfoldable pub serve : ℕ → Ran → List String × Ran
  serve zero r = ([], r)
  serve (suc k) endless = ([], endless)
  serve (suc k) crashed = ([], crashed)
  serve (suc k) (ran we []) = ([], ran we [])
  serve (suc k) (ran we (m ∷ _)) =
      let (asked, r) = serve k (deliver 2 order w now m.destination (answer m) we) in
      (m.destination ∷ asked, r)

-- The service `name` has come to rest in a state.
pub record IsClosed (name : String) (state : String) (r : Ran) : Type 0 where
  pub table : WorkflowEntries
  pub pointer : ℕ
  pub entry : WorkflowEntry
  pub rests : r ≡ ran table []
  pub tracked : entry_at table name ≡ some (pointer, entry)
  pub reached : entry.state ≡ state
  pub wanted : entry.expected_state ≡ state
  pub idle : entry.work_in_progress ≡ false

module _ (order : Tally → Tally) (names : List String) (c : IsDeployable names) (now : ℕ)
    (answer : Message → Message) (no_error : (m : Message) → (answer m).error ≡ "")
    (same_name : (m : Message) → (answer m).service.name ≡ m.service.name) where
  abbrev flow : WorkflowSteps
  flow = workflow_of names

  -- An entry at a step needs whatever its extension answers.
  needs_answer :
      (msg : Message) (e : WorkflowEntry)
      → (e.expected_state == e.state) ≡ false
      → entry_needs msg e ≡ true
  unfolding is_state_as_wanted
  needs_answer msg e h = rw h (ground arith)

  -- The entry on which the extension `v` works, and the answer that moves it on.
  deliver-answer :
      (reverse : Bool) (j : ℕ) (v : String) (we : WorkflowEntries) (name : String) (p : ℕ)
      (e : WorkflowEntry) (msg : Message)
      → entry_at we name ≡ some (p, e)
      → get_elem? (chain names) j ≡ some v
      → (v == terminal reverse) ≡ false
      → (step_at names j v).transition ≡ provisioner_state
      → 0 < steps_left names reverse j
      → e.state ≡ v
      → e.expected_state ≡ terminal reverse
      → e.work_in_progress ≡ true
      → msg.service.name ≡ name
      → msg.error ≡ ""
      → (k : ℕ) × (u : String) × IsNearest names reverse j k u
        × (deliver 2 order flow now v msg we
            ≡ ran_from p (store p (merged flow (tagged order v msg) e) we) (
                arrive now reverse u ""
                  (update_service (tagged order v msg) (merged flow (tagged order v msg) e))))
  unfolding merged tagged
  deliver-answer reverse j v we name p e msg at h stop prov left s target busy same ok =
      let m = tagged order v msg in
      let e' = merged flow m e in
      let needs : entry_needs m e ≡ true =
        needs_answer m e (rw (target, s) (==_flip v (terminal reverse) stop)) in
      let t : e'.transition ≡ some provisioner_state =
        get_transition-chain names c.config j v h ∙ ap (λ x. some x) prov in
      let (k, u, n, eq) =
        execute-answer names c now reverse j e' m (h ∙ ap (λ x. some x) (sym s)) target left busy
          (sym s) ok in
      (
        k,
        u,
        n,
        deliver-known we name p e at 2 order flow now v msg same needs
            ∙ ap (λ o. ran_from p (store p e' we) (call (execute flow now 2) o e' m)) t
            ∙ ap (ran_from p (store p e' we))
                (eq ∙ ap (λ x. arrive now reverse u x (update_service m e')) ok),
      )

  stop_left :
      (reverse : Bool) (i j : ℕ) (v : String)
      → IsNearest names reverse i j v
      → i < length (chain names)
      → (v == terminal reverse) ≡ false
      → 0 < steps_left names reverse j
  stop_left true i j v n lt h = elim (position names j v n.holds) [
    | at_start p q ↦ ground (arith, eq_iff v undeployed_state)
    | at_name m p l q ↦ omega arith
    | at_end p q ↦ omega arith
  ]
  stop_left false i j v n lt h = elim (position names j v n.holds) [
    | at_start p q ↦ omega arith
    | at_name m p l q ↦ omega arith
    | at_end p q ↦ ground (arith, eq_iff v deployed_state)
  ]

  left_falls :
      (reverse : Bool) (j l k : ℕ) (u : String)
      → IsNearest names reverse j l u
      → steps_left names reverse j ≤ suc k
      → steps_left names reverse l ≤ k
  left_falls true j l k u n h = omega (arith, n.beyond)
  left_falls false j l k u n h = omega (arith, n.beyond)

  -- At the end of the chain.
  serve-end :
      (k : ℕ) (reverse : Bool) (v : String) (we : WorkflowEntries) (name : String) (p : ℕ)
      (e₀ e : WorkflowEntry) (err : String)
      → entry_at we name ≡ some (p, e₀)
      → (v == terminal reverse) ≡ true
      → e.expected_state ≡ terminal reverse
      → let r = serve order flow now answer k (ran_from p we (arrive now reverse v err e)) in
        (r.0 ≡ []) × IsClosed name (terminal reverse) r.1
  unfolding serve arrive
  serve-end k reverse v we name p e₀ e err at stop target =
      let e' = close now err (entered v close_state e) in
      let r : Ran = ran (store p e' we) [] in
      let arrived : arrive now reverse v err e ≡ done e' [] = rw stop in rw arrived (rest k)
    where
      e'' : WorkflowEntry
      e'' = close now err (entered v close_state e)

      closed : IsClosed name (terminal reverse) (ran (store p e'' we) [])
      closed = record {
        table = store p e'' we;
        pointer = p;
        entry = e'';
        rests = refl;
        tracked = entry_at-store we name p e₀ at e'';
        reached = (close_rests reverse now err (entered v close_state e) target).0;
        wanted = (close_rests reverse now err (entered v close_state e) target).1;
        idle = (close_rests reverse now err (entered v close_state e) target).2;
      }

      rest :
          (k' : ℕ)
          → let r' = serve order flow now answer k' (ran (store p e'' we) []) in
            (r'.0 ≡ []) × IsClosed name (terminal reverse) r'.1
      rest zero = (refl, closed)
      rest (suc k') = (refl, closed)

  -- An entry that arrives at a step asks the extensions of the stops beyond, one after the other,
  -- and comes to rest at the end of the chain.
  pub serve-arrive :
      (k : ℕ) (reverse : Bool) (i j : ℕ) (v : String) (we : WorkflowEntries) (name : String) (p : ℕ)
      (e₀ e : WorkflowEntry) (err : String)
      → i < length (chain names)
      → IsNearest names reverse i j v
      → steps_left names reverse j ≤ k
      → entry_at we name ≡ some (p, e₀)
      → e.expected_state ≡ terminal reverse
      → e.service.name ≡ name
      → let r = serve order flow now answer k (ran_from p we (arrive now reverse v err e)) in
        (r.0 ≡ stops names reverse i) × IsClosed name (terminal reverse) r.1
  unfolding serve arrive send_to_extension build_message merged tagged update_service
  serve-arrive zero reverse i j v we name p e₀ e err lt n fuel at target named =
      elim (Bool-cases (v == terminal reverse)) [
        | inl stop ↦
            let (asked, closed) = serve-end zero reverse v we name p e₀ e err at stop target in
            (asked ∙ sym (stops-IsNearest names c.config reverse i j v lt n ∙ rw stop), closed)
        | inr go ↦ absurd (omega (arith, stop_left reverse i j v n lt go))
      ]
  serve-arrive (suc k) reverse i j v we name p e₀ e err lt n fuel at target named =
      elim (Bool-cases (v == terminal reverse)) [
        | inl stop ↦
            let (asked, closed) = serve-end (suc k) reverse v we name p e₀ e err at stop target in
            (asked ∙ sym (stops-IsNearest names c.config reverse i j v lt n ∙ rw stop), closed)
        | inr go ↦
            let (working, request) = send_to_extension now (entered v provisioner_state e) in
            let we₁ = store p working we in
            let at₁ = entry_at-store we name p e₀ at working in
            let kind = transition-terminal names c reverse i j v lt n ∙ rw go in
            let msg = answer request in
            let (l, u, n', eq) =
              deliver-answer reverse j v we₁ name p working msg at₁ n.holds go kind
                (stop_left reverse i j v n lt go) refl target refl (same_name request ∙ named)
                (no_error request) in
            let e₁ = merged flow (tagged order v msg) working in
            let (asked, closed) =
              serve-arrive k reverse j l u (store p e₁ we₁) name p e₁
                (update_service (tagged order v msg) e₁) "" (get_elem?-lt (chain names) j n.holds)
                n' (left_falls reverse j l k u n' fuel) (entry_at-store we₁ name p working at₁ e₁)
                target (same_name request ∙ named) in
            let sent_on : arrive now reverse v err e ≡ sent (working, request) = rw go in
            subst
              (λ o.
                let r = serve order flow now answer (suc k) (ran_from p we o) in
                (r.0 ≡ stops names reverse i) × IsClosed name (terminal reverse) r.1)
              (sym sent_on)
              (subst
                (λ d.
                  let r = serve order flow now answer k d in
                  (v ∷ r.0 ≡ stops names reverse i) × IsClosed name (terminal reverse) r.1)
                (sym eq)
                (
                  ap (λ l'. v ∷ l') asked
                      ∙ sym (stops-IsNearest names c.config reverse i j v lt n ∙ rw go),
                  closed,
                ))
      ]
