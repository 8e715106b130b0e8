-- ===== src/Workflow/Shape.antt =====
-- Which steps the workflow of a configuration holds, by their position on the chain from
-- "undeployed" through the configured names to "deployed".
use interlook.Prelude.{
  ℕ, zero, suc, ◌+◌, ◌<◌, ◌≤◌, String, ◌==◌, lt_cases, ◌≡◌, refl, sym, ap, ◌∙◌, eq_iff, subst,
  find_last-cons_hit, ◌≢◌, inl, inr, Bool, true, false, Option, none, some, List, [], ◌∷◌, ◌++◌,
  length, All, get_elem?, arith, eqb, ==_ne, find_last, if◌then◌else◌, get_elem?-append_left,
  get_elem?-append_end,
}
use interlook.Workflow.{
  WorkflowStep, close_state, transition_for, config_steps, has_name, deployed_state,
  undeployed_state,
}

-- The names on the chain, in the order of their IDs.
abbrev pub chain : List String → List String
chain names = undeployed_state ∷ names ++ deployed_state ∷ []

-- Pairwise different names.
abbrev pub AreDistinct : List String → Type 0
AreDistinct [] = Unit
AreDistinct (v ∷ vs) = All (λ u. u ≢ v) vs × AreDistinct vs

-- A configuration whose names are pairwise different and none of the two reserved ones.
pub record IsConfig (names : List String) : Type 0 where
  pub distinct : AreDistinct names
  pub no_deployed : All (λ v. v ≢ deployed_state) names
  pub no_undeployed : All (λ v. v ≢ undeployed_state) names

-- The step at position `i` of the chain.
unfoldable pub step_at : List String → ℕ → String → WorkflowStep
step_at names i v = record {
  id = i;
  name = v;
  transition =
      if eqb i 0
      then close_state
      else if eqb i (suc (length names))
      then close_state
      else transition_for v;
}

pub length-config_steps : (k : ℕ) (vs : List String) → length (config_steps k vs) ≡ length vs
unfolding config_steps
length-config_steps k [] = refl
length-config_steps k (v ∷ vs) = ap suc (length-config_steps (suc k) vs)

abbrev pub config_step : ℕ → String → WorkflowStep
config_step id v = record { id = id; name = v; transition = transition_for v }

pub config_steps-All :
    (P : WorkflowStep → Bool) (k : ℕ) (vs : List String)
    → ((i : ℕ) (v : String) → k < i → i ≤ k + length vs → P (config_step i v) ≡ false)
    → All (λ s. P s ≡ false) (config_steps k vs)
unfolding config_steps
config_steps-All P k [] h = tt
config_steps-All P k (v ∷ vs) h = (
  h (suc k) v (omega arith) (omega arith),
  config_steps-All P (suc k) vs (λ i u lo hi. h i u (omega arith) (omega arith)),
)

pub config_steps-All_name :
    (name : String) (k : ℕ) (vs : List String)
    → All (λ u. u ≢ name) vs
    → All (λ s. has_name name s ≡ false) (config_steps k vs)
unfolding config_steps
config_steps-All_name name k [] h = tt
config_steps-All_name name k (v ∷ vs) (p, h) =
    (==_ne v name p, config_steps-All_name name (suc k) vs h)

-- A test on the ID finds the step with that ID.
pub find_last-config_steps_id :
    (P : WorkflowStep → Bool) (found : Option WorkflowStep) (j k i : ℕ) (vs : List String)
    (v : String)
    → ((s : WorkflowStep) → P s ≡ eqb s.id j)
    → j ≡ suc (k + i)
    → get_elem? vs i ≡ some v
    → find_last P found (config_steps k vs) ≡ some (config_step j v)
unfolding config_steps find_last
find_last-config_steps_id P found j k i [] v e p h = ground arith
find_last-config_steps_id P found j k zero (u ∷ vs) v e p h =
    let here : P (config_step (suc k) u) ≡ true = ground (arith, e (config_step (suc k) u)) in
    let later : All (λ s. P s ≡ false) (config_steps (suc k) vs) =
      config_steps-All P (suc k) vs (λ m w lo hi. ground (arith, e (config_step m w))) in
    let same : config_step (suc k) u ≡ config_step j v = ground arith in
    find_last-cons_hit P found (config_step (suc k) u) _ here later ∙ ap some same
find_last-config_steps_id P found j k (suc i) (u ∷ vs) v e p h =
    find_last-config_steps_id P
      (if P (config_step (suc k) u) then some (config_step (suc k) u) else found) j (suc k) i vs v e
      (omega arith) h

-- A name finds its step.
pub find_last-config_steps_name :
    (found : Option WorkflowStep) (j k i : ℕ) (vs : List String) (v : String)
    → j ≡ suc (k + i)
    → AreDistinct vs
    → get_elem? vs i ≡ some v
    → find_last (has_name v) found (config_steps k vs) ≡ some (config_step j v)
unfolding config_steps find_last
find_last-config_steps_name found j k i [] v p d h = ground arith
find_last-config_steps_name found j k zero (u ∷ vs) v p (q, d) h =
    let same : config_step (suc k) u ≡ config_step j v = ground arith in
    let here : u ≡ v = ground arith in
    find_last-cons_hit (has_name v) found (config_step (suc k) u) _ ((eq_iff u v).1 here)
      (config_steps-All_name v (suc k) vs (subst (λ w. All (λ x. x ≢ w) vs) here q))
    ∙ ap some same
find_last-config_steps_name found j k (suc i) (u ∷ vs) v p (q, d) h =
    find_last-config_steps_name (if u == v then some (config_step (suc k) u) else found) j (suc k) i
      vs v (omega arith) d h

-- A position of the chain is its start, a name of the configuration, or its end.
pub data Position (names : List String) (i : ℕ) (v : String) : Type 0 where
  at_start : i ≡ 0 → v ≡ undeployed_state → Position names i v
  at_name : (m : ℕ) → i ≡ suc m → m < length names → get_elem? names m ≡ some v → Position names i v
  at_end : i ≡ suc (length names) → v ≡ deployed_state → Position names i v

past_end :
    (names : List String) (m : ℕ)
    → length names < m
    → get_elem? (names ++ deployed_state ∷ []) m ≡ none
past_end [] (suc zero) h = refl
past_end [] (suc (suc m)) h = refl
past_end [] zero h = absurd (omega arith)
past_end (x ∷ names) zero h = absurd (omega arith)
past_end (x ∷ names) (suc m) h = past_end names m (omega arith)

pub position :
    (names : List String) (i : ℕ) (v : String)
    → get_elem? (chain names) i ≡ some v
    → Position names i v
position names zero v h = at_start refl (ground arith)
position names (suc m) v h = elim (lt_cases m (length names)) [
  | inl lt ↦ at_name m refl lt (sym (get_elem?-append_left names (deployed_state ∷ []) m lt) ∙ h)
  | inr (inl e) ↦ at_end (ap suc e) ground (
    arith,
    get_elem?-append_end names deployed_state,
    ap (λ (t : ℕ). get_elem? (names ++ deployed_state ∷ []) t) e,
  )
  | inr (inr gt) ↦ ground (arith, past_end names m gt)
]
