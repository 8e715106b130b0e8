-- ===== src/Server/Extensions.antt =====
-- Which names the extensions that are set up have.
use interlook.Prelude.{
  ℕ, suc, String, ◌≡◌, refl, Bool, true, false, Option, none, some, List, [], ◌∷◌, ◌++◌, get_elem?,
  All, split, ◌==◌, Bool-cases, inl, inr, subst,
}
use interlook.Workflow.{WorkflowStep, WorkflowSteps, workflow_of, config_steps}
use interlook.Workflow.Lookup.{workflow_of_lem, start_step, end_step}
use interlook.Server.{
  ◌>>=◌, Field, has_key, put_key, set_up, search_fields, search_step, init_from, init_extensions,
}

-- `v` is one of the names.
abbrev pub IsOneOf : List String → String → Type 0
IsOneOf names v = (i : ℕ) × (get_elem? names i ≡ some v)

pub All-append_end {ℓ κ} :
    {A : Type ℓ} (P : A → Type κ) (xs : List A) (x : A) → All P xs → P x → All P (xs ++ x ∷ [])
All-append_end P [] x h p = (p, tt)
All-append_end P (y ∷ xs) x (q, h) p = (q, All-append_end P xs x h p)

module _ (P : String → Type 0) where
  abbrev IsFine : Option (List String) → Type 0
  IsFine none = Unit
  IsFine (some extensions) = All P extensions

  bind-IsFine :
      (o : Option (List String)) (f : List String → Option (List String))
      → IsFine o
      → ((found : List String) → All P found → IsFine (f found))
      → IsFine (o >>= f)
  bind-IsFine none f h g = tt
  bind-IsFine (some found) f h g = g found h

  put_key-All : (k : String) (keys : List String) → P k → All P keys → All P (put_key k keys)
  unfolding put_key
  put_key-All k keys p h = elim (Bool-cases (has_key k keys)) [
    | inl e ↦ rw e h
    | inr e ↦ rw e (All-append_end P keys k h p)
  ]

  module _ (to_lower : String → String) where
    set_up-All :
        (step ext_name : String) (ns : List (String × Bool)) (extensions : List String)
        → P step
        → All P extensions
        → IsFine (set_up to_lower step ext_name ns extensions)
    unfolding set_up
    set_up-All step ext_name [] extensions p h = h
    set_up-All step ext_name ((n, true) ∷ ns) extensions p h =
        elim (Bool-cases (to_lower n == ext_name)) [
          | inl e ↦ rw e (
              set_up-All step ext_name ns (put_key step extensions) p
                (put_key-All step extensions p h))
          | inr e ↦ rw e (set_up-All step ext_name ns extensions p h)
        ]
    set_up-All step ext_name ((n, false) ∷ ns) extensions p h =
        elim (Bool-cases (to_lower n == ext_name)) [
          | inl e ↦ rw e tt
          | inr e ↦ rw e (set_up-All step ext_name ns extensions p h)
        ]

    search_fields-All :
        (step ext_type ext_name : String) (fs : List Field) (extensions : List String)
        → P step
        → All P extensions
        → IsFine (search_fields to_lower step ext_type ext_name fs extensions)
    unfolding search_fields
    search_fields-All step ext_type ext_name [] extensions p h = h
    search_fields-All step ext_type ext_name (f ∷ fs) extensions p h =
        elim (Bool-cases (to_lower f.name == ext_type)) [
          | inl e ↦ rw e (
              bind-IsFine _ _ (set_up-All step ext_name f.fields extensions p h)
                (λ found h'. search_fields-All step ext_type ext_name fs found p h'))
          | inr e ↦ rw e (search_fields-All step ext_type ext_name fs extensions p h)
        ]

    search_step-All :
        (fields : List Field) (step : String) (parts : List String) (extensions : List String)
        → P step
        → All P extensions
        → IsFine (search_step to_lower fields step parts extensions)
    unfolding search_step
    search_step-All fields step [] extensions p h = h
    search_step-All fields step (a ∷ []) extensions p h = h
    search_step-All fields step (a ∷ b ∷ []) extensions p h =
        search_fields-All step (to_lower a) (to_lower b) fields extensions p h
    search_step-All fields step (a ∷ b ∷ c ∷ parts) extensions p h = h

    -- What the body of the loop keeps at a step.
    abbrev Keeps : List Field → WorkflowStep → Type 0
    Keeps fields s =
        (extensions : List String)
        → All P extensions
        → IsFine (search_step to_lower fields s.name (split b'.' s.name) extensions)

    init_from-All :
        (fields : List Field) (steps : WorkflowSteps) (extensions : List String)
        → All (Keeps fields) steps
        → All P extensions
        → IsFine (init_from to_lower fields steps extensions)
    unfolding init_from
    init_from-All fields [] extensions k h = h
    init_from-All fields (s ∷ steps) extensions (k, ks) h =
        bind-IsFine _ _ (k extensions h) (λ found h'. init_from-All fields steps found ks h')

    config_steps-Keeps :
        (fields : List Field) (k : ℕ) (names : List String)
        → All P names
        → All (Keeps fields) (config_steps k names)
    unfolding config_steps
    config_steps-Keeps fields k [] h = tt
    config_steps-Keeps fields k (v ∷ names) (p, h) = (
      (λ extensions all. search_step-All fields v (split b'.' v) extensions p all),
      config_steps-Keeps fields (suc k) names h,
    )

    start-Keeps : (fields : List Field) → Keeps fields start_step
    unfolding search_step split
    start-Keeps fields extensions h = h

    end-Keeps : (fields : List Field) (names : List String) → Keeps fields (end_step names)
    unfolding search_step split
    end-Keeps fields names extensions h = h

    init_extensions-IsFine :
        (fields : List Field) (names : List String)
        → All P names
        → IsFine (init_extensions to_lower fields (workflow_of names))
    unfolding init_extensions
    init_extensions-IsFine fields names h = rw (workflow_of_lem names) (
        init_from-All fields _ []
          (All-append_end (Keeps fields) _ (end_step names)
            (All-append_end (Keeps fields) _ start_step (config_steps-Keeps fields 0 names h)
              (start-Keeps fields))
            (end-Keeps fields names))
          tt)

All-IsOneOf :
    (xs ys : List String) → ((v : String) → IsOneOf ys v → IsOneOf xs v) → All (IsOneOf xs) ys
All-IsOneOf xs [] f = tt
All-IsOneOf xs (y ∷ ys) f = (f y (0, refl), All-IsOneOf xs ys (λ v (i, e). f v (suc i, e)))

-- Whatever the fields of the configuration and the case mapping are, an extension that
-- `initExtensions` sets up, where it does not panic, has one of the configured names.
pub init_extensions-names :
    (to_lower : String → String) (fields : List Field) (names extensions : List String)
    → init_extensions to_lower fields (workflow_of names) ≡ some extensions
    → All (IsOneOf names) extensions
init_extensions-names to_lower fields names extensions e = subst (IsFine (IsOneOf names)) e (
    init_extensions-IsFine (IsOneOf names) to_lower fields names
      (All-IsOneOf names names (λ v h. h)))
