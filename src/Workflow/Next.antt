-- ===== src/Workflow/Next.antt =====
-- `getNextStep`: along the chain, the nearest step that is not a provider's. The recursion past the
-- providers' steps ends within as many calls as the workflow has steps.
use interlook.Prelude.{
  ℕ, zero, suc, ◌-◌, ◌<◌, ◌≤◌, String, ◌≡◌, refl, ◌∙◌, inl, inr, Bool, true, false, some, List, [],
  ◌∷◌, length, get_elem?, get_elem?-lt, get_elem?-total, arith, lt_cases, if◌then◌else◌,
  starts_with, Bool-cases, length-append,
}
use interlook.Workflow.{
  undeployed_state, workflow_of, is_adjacent, deployed_state, undeployed_state, next, get_next_step,
  ignore_error,
}
use interlook.Workflow.Shape.{chain, IsConfig, step_at, at_start, at_name, at_end, position}
use interlook.Workflow.Lookup.{find_last-workflow_of_id, find_last-workflow_of_name}

-- The neighbour of a position in the direction of travel, and the steps left in that direction.
abbrev pub neighbour : Bool → ℕ → ℕ
neighbour true i = i - 1
neighbour false i = suc i

abbrev pub steps_left : List String → Bool → ℕ → ℕ
steps_left names true i = i
steps_left names false i = suc (length names) - i

-- The end of the chain in the direction of travel.
abbrev pub terminal : Bool → String
terminal true = undeployed_state
terminal false = deployed_state

abbrev pub is_provider : String → Bool
is_provider v = starts_with v "provider."

-- `m` lies strictly between `i` and `j` in the direction of travel, or `j` lies beyond `i`.
abbrev pub Between : Bool → ℕ → ℕ → ℕ → Type 0
Between true i m j = (j < m) × (m < i)
Between false i m j = (i < m) × (m < j)

abbrev pub Beyond : Bool → ℕ → ℕ → Type 0
Beyond true i j = j < i
Beyond false i j = i < j

-- `j`, which holds `v`, is the nearest position beyond `i` that is not a provider's.
pub record IsNearest (names : List String) (reverse : Bool) (i j : ℕ) (v : String) : Type 0 where
  pub holds : get_elem? (chain names) j ≡ some v
  pub beyond : Beyond reverse i j
  pub stops : is_provider v ≡ false
  pub passes :
      (m : ℕ) (u : String)
      → Between reverse i m j
      → get_elem? (chain names) m ≡ some u
      → is_provider u ≡ true

pub length-chain : (names : List String) → length (chain names) ≡ suc (suc (length names))
length-chain names = omega (arith, length-append names (deployed_state ∷ []))

module _ (names : List String) (c : IsConfig names) where
  -- One call: the neighbour, or what the walk from the neighbour finds.
  get_next_step-neighbour :
      (f : ℕ) (reverse : Bool) (i : ℕ) (u v : String)
      → get_elem? (chain names) i ≡ some u
      → 0 < steps_left names reverse i
      → get_elem? (chain names) (neighbour reverse i) ≡ some v
      → get_next_step (suc f) (workflow_of names) u reverse ≡ (
          if is_provider v
          then ignore_error (get_next_step f (workflow_of names) v reverse)
          else some (next v (some (step_at names (neighbour reverse i) v).transition)))
  unfolding get_next_step step_at
  get_next_step-neighbour f true (suc i) u v h left hv =
      rw
        (
          find_last-workflow_of_name names (suc i) u c h,
          find_last-workflow_of_id (is_adjacent true (suc i)) names (suc i - 1) v
              (λ s. ground arith) hv,
        )
        refl
  get_next_step-neighbour f true zero u v h left hv = absurd (omega arith)
  get_next_step-neighbour f false i u v h left hv =
      rw
        (
          find_last-workflow_of_name names i u c h,
          find_last-workflow_of_id (is_adjacent false i) names (suc i) v (λ s. refl) hv,
        )
        refl

  neighbour-lt :
      (reverse : Bool) (i : ℕ) (u : String)
      → get_elem? (chain names) i ≡ some u
      → 0 < steps_left names reverse i
      → neighbour reverse i < length (chain names)
  neighbour-lt true i u h left = omega (arith, get_elem?-lt (chain names) i h)
  neighbour-lt false i u h left = omega (arith, length-chain names)

  -- Where no step is left in the direction of travel stands a reserved name.
  end_stops :
      (reverse : Bool) (i : ℕ) (v : String)
      → get_elem? (chain names) i ≡ some v
      → steps_left names reverse i ≡ 0
      → is_provider v ≡ false
  end_stops true i v h e = elim (position names i v h) [
    | at_start p q ↦ rw q refl
    | at_name m p lt q ↦ absurd (omega arith)
    | at_end p q ↦ rw q refl
  ]
  end_stops false i v h e = elim (position names i v h) [
    | at_start p q ↦ rw q refl
    | at_name m p lt q ↦ absurd (omega arith)
    | at_end p q ↦ rw q refl
  ]

  -- A nearest stop from the neighbour, which is a provider's, is a nearest stop from here.
  IsNearest-past :
      (reverse : Bool) (i j : ℕ) (v w : String)
      → 0 < steps_left names reverse i
      → get_elem? (chain names) (neighbour reverse i) ≡ some v
      → is_provider v ≡ true
      → IsNearest names reverse (neighbour reverse i) j w
      → IsNearest names reverse i j w
  IsNearest-past true i j v w left hv p n = record {
    holds = n.holds;
    beyond = omega (arith, n.beyond);
    stops = n.stops;
    passes = λ m u b e. elim (lt_cases m (i - 1)) [
      | inl lt ↦ n.passes m u (b.0, lt) e
      | inr (inl eq) ↦ cc
      | inr (inr gt) ↦ absurd (omega (arith, b.1))
    ];
  }
  IsNearest-past false i j v w left hv p n = record {
    holds = n.holds;
    beyond = omega (arith, n.beyond);
    stops = n.stops;
    passes = λ m u b e. elim (lt_cases (suc i) m) [
      | inl lt ↦ n.passes m u (lt, b.1) e
      | inr (inl eq) ↦ cc
      | inr (inr gt) ↦ absurd (omega (arith, b.0))
    ];
  }

  IsNearest-neighbour :
      (reverse : Bool) (i : ℕ) (v : String)
      → 0 < steps_left names reverse i
      → get_elem? (chain names) (neighbour reverse i) ≡ some v
      → is_provider v ≡ false
      → IsNearest names reverse i (neighbour reverse i) v
  IsNearest-neighbour true i v left hv p = record {
    holds = hv;
    beyond = omega arith;
    stops = p;
    passes = λ m u b e. absurd (omega (arith, b.0, b.1));
  }
  IsNearest-neighbour false i v left hv p = record {
    holds = hv;
    beyond = omega arith;
    stops = p;
    passes = λ m u b e. absurd (omega (arith, b.0, b.1));
  }

  steps_left-neighbour :
      (reverse : Bool) (i : ℕ) (v : String)
      → 0 < steps_left names reverse i
      → get_elem? (chain names) (neighbour reverse i) ≡ some v
      → is_provider v ≡ true
      → 0 < steps_left names reverse (neighbour reverse i)
  steps_left-neighbour reverse i v left hv p =
      ground (arith, end_stops reverse (neighbour reverse i) v hv)

  steps_left_falls :
      (reverse : Bool) (i f : ℕ)
      → 0 < steps_left names reverse i
      → steps_left names reverse i ≤ suc f
      → steps_left names reverse (neighbour reverse i) ≤ f
  steps_left_falls true i f left h = omega arith
  steps_left_falls false i f left h = omega arith

  -- With names that are pairwise different and not reserved, from any position of the workflow
  -- with a step left in the direction of travel, `getNextStep` returns the nearest step in
  -- that direction that is not a provider's, with its own transition, and needs no more nested
  -- calls than steps are left.
  pub get_next_step-IsNearest :
      (f : ℕ) (reverse : Bool) (i : ℕ) (u : String)
      → get_elem? (chain names) i ≡ some u
      → 0 < steps_left names reverse i
      → steps_left names reverse i ≤ f
      → (j : ℕ) × (v : String) × IsNearest names reverse i j v
        × (get_next_step f (workflow_of names) u reverse
            ≡ some (next v (some (step_at names j v).transition)))
  get_next_step-IsNearest zero reverse i u h left fuel = absurd (omega arith)
  get_next_step-IsNearest (suc f) reverse i u h left fuel =
      let (v, hv) =
        get_elem?-total (chain names) (neighbour reverse i) (neighbour-lt reverse i u h left) in
      elim (Bool-cases (is_provider v)) [
        | inl p ↦
            let more = steps_left-neighbour reverse i v left hv p in
            let (j, w, n, e) =
              get_next_step-IsNearest f reverse (neighbour reverse i) v hv more
                (steps_left_falls reverse i f left fuel) in
            (
              j,
              w,
              IsNearest-past reverse i j v w left hv p n,
              get_next_step-neighbour f reverse i u v h left hv ∙ rw (p, e) refl,
            )
        | inr p ↦ (
          neighbour reverse i,
          v,
          IsNearest-neighbour reverse i v left hv p,
          get_next_step-neighbour f reverse i u v h left hv ∙ rw p refl,
        )
      ]
