-- ===== src/Execute/Overlap/Skips.antt =====
-- Two answers at once: each of them moves the entry.
use interlook.Prelude.{
  ℕ, ◌<◌, ◌≡◌, refl, sym, ap, ◌∙◌, subst, String, Bool, true, false, ◌==◌, some, List, [], ◌∷◌,
  get_elem?, get_elem?-lt, lt_cases, arith, eq_iff, inl, inr,
}
use mathlib.Core.Option.{some-injective}
use interlook.Comm.{Message}
use interlook.Workflow.{workflow_of}
use interlook.Workflow.Shape.{chain}
use interlook.Workflow.Next.{IsNearest, Between, steps_left, terminal, length-chain}
use interlook.Workflow.Kinds.{IsDeployable}
use interlook.Entry.{WorkflowEntry, set_next_step, update_service}
use interlook.Execute.Steps.{entered, kind_of, set_next_step-IsNearest}
use interlook.Execute.Overlap.{
  check_at, checks, updates, moves, arrives, quiet, stepped, move_on, Shared, picks, Leads, stays,
  then_picks,
}

module _ (names : List String) where
  -- Of two nearest stops none is nearer.
  not_nearer :
      (reverse : Bool) (i j k : ℕ) (v u : String)
      → IsNearest names reverse i j v
      → IsNearest names reverse i k u
      → ¬ Between reverse i j k
  not_nearer reverse i j k v u n m b = ground (arith, m.passes j v b n.holds, n.stops)

  IsNearest-unique :
      (reverse : Bool) (i j k : ℕ) (v u : String)
      → IsNearest names reverse i j v
      → IsNearest names reverse i k u
      → v ≡ u
  IsNearest-unique reverse i j k v u n m = elim (lt_cases j k) [
    | inr (inl e) ↦ some-injective v u (sym n.holds ∙ (ap (get_elem? (chain names)) e ∙ m.holds))
    | inl lt ↦ absurd (nearer reverse n m lt)
    | inr (inr gt) ↦ absurd (further reverse n m gt)
  ]
    where
      nearer : (r : Bool) → IsNearest names r i j v → IsNearest names r i k u → ¬ (j < k)
      nearer true n m lt = not_nearer true i k j u v m n (lt, m.beyond)
      nearer false n m lt = not_nearer false i j k v u n m (n.beyond, lt)

      further : (r : Bool) → IsNearest names r i j v → IsNearest names r i k u → ¬ (k < j)
      further true n m lt = not_nearer true i j k v u n m (lt, n.beyond)
      further false n m lt = not_nearer false i k j u v m n (m.beyond, lt)

  left_of :
      (reverse : Bool) (i j : ℕ) (v : String)
      → IsNearest names reverse i j v
      → 0 < steps_left names reverse i
  left_of true i j v n = omega (arith, n.beyond)
  left_of false i j v n =
      omega (arith, n.beyond, get_elem?-lt (chain names) j n.holds, length-chain names)

module _ (names : List String) (c : IsDeployable names) where
  -- `setNextStep` enters the nearest stop.
  enters :
      (reverse : Bool) (i j : ℕ) (v : String) (e : WorkflowEntry)
      → get_elem? (chain names) i ≡ some e.state
      → e.expected_state ≡ terminal reverse
      → IsNearest names reverse i j v
      → set_next_step (workflow_of names) e ≡ some (entered v (kind_of names c reverse v) e)
  enters reverse i j v e at target n =
      let (k, u, m, eq) =
        set_next_step-IsNearest names c reverse i e at target (left_of names reverse i j v n) in
      subst
        (λ x. set_next_step (workflow_of names) e ≡ some (entered x (kind_of names c reverse x) e))
        (IsNearest-unique names reverse i k j u v m n) eq

  module _ (now : ℕ) (m1 m2 : Message) (e : WorkflowEntry) (busy : e.work_in_progress ≡ true)
      (from1 : m1.sender ≡ e.state) (from2 : m2.sender ≡ e.state) (fine1 : m1.error ≡ "")
      (fine2 : m2.error ≡ "") where
    abbrev both : Shared
    both = record { entry = e; threads = checks m1 ∷ checks m2 ∷ []; out = [] }

    abbrev updated : WorkflowEntry
    updated = update_service m2 (update_service m1 e)

    check_goes :
        (m : Message)
        → m.sender ≡ e.state
        → m.error ≡ ""
        → check_at m e.work_in_progress (m.sender == e.state) (m.error == "") ≡ updates m
    check_goes m from_it fine =
        rw (busy, (eq_iff m.sender e.state).1 from_it, (eq_iff m.error "").1 fine) refl

    move_on-checks :
        (m : Message)
        → m.sender ≡ e.state
        → m.error ≡ ""
        → move_on (workflow_of names) now (checks m) e ≡ some (quiet (updates m) e)
    unfolding move_on
    move_on-checks m from_it fine = ap (λ t. some (quiet t e)) (check_goes m from_it fine)

    move_on-moves :
        (m : Message) (e0 e' : WorkflowEntry)
        → set_next_step (workflow_of names) e0 ≡ some e'
        → move_on (workflow_of names) now (moves m) e0 ≡ some (quiet (arrives m) e')
    unfolding move_on
    move_on-moves m e0 e' h = ap (stepped m) h

    move_on-updates :
        (m : Message) (e0 : WorkflowEntry)
        → move_on (workflow_of names) now (updates m) e0
          ≡ some (quiet (moves m) (update_service m e0))
    unfolding move_on
    move_on-updates m e0 = refl

    update_service-state :
        (m : Message) (e0 : WorkflowEntry) → (update_service m e0).state ≡ e0.state
    unfolding update_service
    update_service-state m e0 = refl

    update_service-goal :
        (m : Message) (e0 : WorkflowEntry)
        → (update_service m e0).expected_state ≡ e0.expected_state
    unfolding update_service
    update_service-goal m e0 = refl

    -- With deployable names, if two answers without an error, both from the extension that
    -- works on an entry, are executed at once, and the nearest step in its direction that is
    -- not a provider's has another such step behind it, then there is a schedule in which
    -- the entry gets to the second of these steps before anything is sent: the extension
    -- between is not asked.
    pub answers-skip :
        (reverse : Bool) (i j k : ℕ) (v u : String)
        → get_elem? (chain names) i ≡ some e.state
        → e.expected_state ≡ terminal reverse
        → IsNearest names reverse i j v
        → IsNearest names reverse j k u
        → (s : Shared) × Leads (workflow_of names) both s
          × (s.threads ≡ arrives m1 ∷ arrives m2 ∷ [])
          × (s.out ≡ [])
          × (s.entry.state ≡ u)
    answers-skip reverse i j k v u at target n m =
        let w = workflow_of names in
        let goal : updated.expected_state ≡ terminal reverse =
          update_service-goal m2 _ ∙ (update_service-goal m1 e ∙ target) in
        let stands : get_elem? (chain names) i ≡ some updated.state =
          at ∙ ap some (sym (update_service-state m2 _ ∙ update_service-state m1 e)) in
        let e1 : WorkflowEntry = entered v (kind_of names c reverse v) updated in
        let e2 : WorkflowEntry = entered u (kind_of names c reverse u) e1 in
        let first = enters reverse i j v updated stands goal n in
        let second = enters reverse j k u e1 n.holds goal m in
        (
          record { entry = e2; threads = arrives m1 ∷ arrives m2 ∷ []; out = [] },
          then_picks
              (then_picks
                (then_picks
                  (then_picks
                    (then_picks
                      (then_picks stays (
                        picks now [] (checks m1) (checks m2 ∷ []) _ refl
                          (move_on-checks m1 from1 fine1)))
                      (picks now (updates m1 ∷ []) (checks m2) [] _ refl
                        (move_on-checks m2 from2 fine2)))
                    (picks now [] (updates m1) (updates m2 ∷ []) _ refl (move_on-updates m1 e)))
                  (picks now (moves m1 ∷ []) (updates m2) [] _ refl (move_on-updates m2 _)))
                (picks now [] (moves m1) (moves m2 ∷ []) _ refl
                  (move_on-moves m1 updated e1 first)))
              (picks now (arrives m1 ∷ []) (moves m2) [] _ refl (move_on-moves m2 e1 e2 second)),
          refl,
          refl,
          refl,
        )
