-- ===== src/Housekeeper/Sweep.antt =====
-- A run of the housekeeper treats every tracked service by itself.
use interlook.Prelude.{
  ℕ, zero, suc, ◌<◌, ◌⊎◌, String, ◌==◌, ◌≡◌, refl, sym, ap, ◌∙◌, ◌≢◌, Bool, Option, none, some,
  List, [], ◌∷◌, All, length, get_elem?, get_elem?-lt, set, arith, eq_iff, Bool-cases, inl, inr,
  subst, if◌then◌else◌,
}
use interlook.Entry.{WorkflowEntry, close}
use interlook.Dict.{lookup, remove}
use interlook.Entries.{WorkflowEntries}
use interlook.Housekeeper.Judged.{IsExpired, IsStuck, kept_or_dropped, closed_or_same}
use interlook.Housekeeper.{
  CoreConfig, removes, timeout_message, swept, turn, turn_at, sweep, housekeep,
}

-- No name and no pointer stands twice in the table.
abbrev pub NoAlias : List (String × ℕ) → Type 0
NoAlias [] = Unit
NoAlias ((k, p) ∷ m) = All (λ b. (b.0 ≢ k) × (b.1 ≢ p)) m × NoAlias m

lookup-remove_ne :
    (k j : String) (m : List (String × ℕ)) → k ≢ j → lookup j (remove k m) ≡ lookup j m
unfolding lookup remove
lookup-remove_ne k j [] h = refl
lookup-remove_ne k j ((i, p) ∷ m) h =
    ground (arith, lookup-remove_ne k j m h, eq_iff i k, eq_iff i j, eq_iff k j)

pub lookup-remove_self : (k : String) (m : List (String × ℕ)) → lookup k (remove k m) ≡ none
unfolding lookup remove
lookup-remove_self k [] = refl
lookup-remove_self k ((i, p) ∷ m) = ground (arith, lookup-remove_self k m, eq_iff i k)

get_elem?-set_ne :
    {A : Type 0} (xs : List A) (i j : ℕ) (v : A) → i ≢ j → get_elem? (set xs i v) j ≡ get_elem? xs j
get_elem?-set_ne [] i j v h = refl
get_elem?-set_ne (x ∷ xs) zero zero v h = absurd (h refl)
get_elem?-set_ne (x ∷ xs) zero (suc j) v h = refl
get_elem?-set_ne (x ∷ xs) (suc i) zero v h = refl
get_elem?-set_ne (x ∷ xs) (suc i) (suc j) v h = get_elem?-set_ne xs i j v (λ e. h (ap suc e))

get_elem?-set_self :
    {A : Type 0} (xs : List A) (i : ℕ) (v : A) → i < length xs → get_elem? (set xs i v) i ≡ some v
get_elem?-set_self [] i v h = absurd (omega arith)
get_elem?-set_self (x ∷ xs) zero v h = refl
get_elem?-set_self (x ∷ xs) (suc i) v h = get_elem?-set_self xs i v (omega arith)

All-lookup :
    (P : String × ℕ → Type 0) (k : String) (p : ℕ) (m : List (String × ℕ))
    → All P m
    → lookup k m ≡ some p
    → P (k, p)
unfolding lookup
All-lookup P k p [] h e = ground arith
All-lookup P k p ((j, q) ∷ m) (x, h) e = elim (Bool-cases (j == k)) [
  | inl here ↦ subst P (ground (arith, eq_iff j k)) x
  | inr other ↦ All-lookup P k p m h (ground arith)
]

module _ (cfg : CoreConfig) (now : ℕ) (extensions : List (String × Bool)) where
  -- A turn leaves every other service alone.
  turn_other :
      (k j : String) (p q : ℕ) (o : Option WorkflowEntry) (we : WorkflowEntries)
      → k ≢ j
      → p ≢ q
      → let we' = (turn_at cfg now extensions k p o we).0 in
        (lookup j we'.entries ≡ lookup j we.entries) × (get_elem? we'.heap q ≡ get_elem? we.heap q)
  unfolding turn
  turn_other k j p q none we h g = (refl, refl)
  turn_other k j p q (some e) we h g =
      ground
        (arith, lookup-remove_ne k j we.entries h, get_elem?-set_ne we.heap p q (swept cfg now e) g)

  turn_self :
      (k : String) (p : ℕ) (e : WorkflowEntry) (we : WorkflowEntries)
      → lookup k we.entries ≡ some p
      → get_elem? we.heap p ≡ some e
      → let we' = (turn_at cfg now extensions k p (get_elem? we.heap p) we).0 in
        (lookup k we'.entries ≡ (if removes cfg now e then none else some p))
        × (get_elem? we'.heap p ≡ some (swept cfg now e))
  unfolding turn
  turn_self k p e we found held = rw held (
      ground (
        arith,
        lookup-remove_self k we.entries,
        get_elem?-set_self we.heap p (swept cfg now e) (get_elem?-lt we.heap p held),
      ))

  sweep_other :
      (j : String) (q : ℕ) (todo : List (String × ℕ)) (we : WorkflowEntries)
      → All (λ b. (b.0 ≢ j) × (b.1 ≢ q)) todo
      → let we' = (sweep cfg now extensions todo we).0 in
        (lookup j we'.entries ≡ lookup j we.entries) × (get_elem? we'.heap q ≡ get_elem? we.heap q)
  unfolding sweep
  sweep_other j q [] we h = (refl, refl)
  sweep_other j q ((k, p) ∷ todo) we ((a, b), h) =
      let (x, y) = turn_other k j p q (get_elem? we.heap p) we a b in
      let (u, v) =
        sweep_other j q todo (turn_at cfg now extensions k p (get_elem? we.heap p) we).0 h in
      (u ∙ x, v ∙ y)

  -- The turn of a service that is still to come.
  sweep_at :
      (k : String) (p : ℕ) (e : WorkflowEntry) (todo : List (String × ℕ)) (we : WorkflowEntries)
      → NoAlias todo
      → lookup k todo ≡ some p
      → lookup k we.entries ≡ some p
      → get_elem? we.heap p ≡ some e
      → let we' = (sweep cfg now extensions todo we).0 in
        (lookup k we'.entries ≡ (if removes cfg now e then none else some p))
        × (get_elem? we'.heap p ≡ some (swept cfg now e))
  unfolding sweep lookup
  sweep_at k p e [] we d h found held = ground arith
  sweep_at k p e ((j, q) ∷ todo) we (apart, d) h found held = elim (Bool-cases (j == k)) [
    | inl here ↦
        let same : j ≡ k = (eq_iff j k).0 here in
        let at : q ≡ p = ground arith in
        let gone : All (λ b. (b.0 ≢ k) × (b.1 ≢ p)) todo =
          subst (λ n. All (λ b. (b.0 ≢ n) × (b.1 ≢ p)) todo) same
            (subst (λ n. All (λ b. (b.0 ≢ j) × (b.1 ≢ n)) todo) at apart) in
        let (x, y) =
          turn_self j q e we
            (ap (λ n. lookup n we.entries) same ∙ found ∙ ap (λ n. some n) (sym at))
            (ap (get_elem? we.heap) at ∙ held) in
        let (u, v) =
          sweep_other k p todo (turn_at cfg now extensions j q (get_elem? we.heap q) we).0 gone in
        (
          u
              ∙ subst
                  (λ n.
                    lookup n (turn_at cfg now extensions j q (get_elem? we.heap q) we).0.entries
                    ≡ (if removes cfg now e then none else some p))
                  same (x ∙ ap (λ (n : ℕ). if removes cfg now e then none else some n) at),
          v
              ∙ ap (get_elem? (turn_at cfg now extensions j q (get_elem? we.heap q) we).0.heap)
                  (sym at)
              ∙ y,
        )
    | inr other ↦
        let ahead : lookup k todo ≡ some p = ground arith in
        let (a, b) = All-lookup (λ x. (x.0 ≢ j) × (x.1 ≢ q)) k p todo apart ahead in
        let (x, y) =
          turn_other j k q p (get_elem? we.heap q) we (λ r. a (sym r)) (λ r. b (sym r)) in
        sweep_at k p e todo (turn_at cfg now extensions j q (get_elem? we.heap q) we).0 d ahead
          (x ∙ found) (y ∙ held)
  ]

module _ (cfg : CoreConfig) (now : ℕ) where
  -- In a table where no name and no pointer stands twice, a run of the housekeeper drops a
  -- service exactly if its entry has the state and the wish "undeployed", no extension works
  -- on it, and more than the configured time has passed since it was closed; it closes an
  -- entry with the time-out message exactly if an extension has worked on it for more than the
  -- configured time, and leaves any other entry as it was. A configured time of the largest
  -- duration never passes.
  pub housekeep-each :
      (extensions : List (String × Bool)) (we : WorkflowEntries) (k : String) (p : ℕ)
      (e : WorkflowEntry)
      → NoAlias we.entries
      → lookup k we.entries ≡ some p
      → get_elem? we.heap p ≡ some e
      → let we' = (housekeep cfg now extensions we).0 in
        ((IsExpired cfg now e × (lookup k we'.entries ≡ none))
          ⊎ ((¬ IsExpired cfg now e) × (lookup k we'.entries ≡ some p)))
        × ((IsStuck cfg now e × (get_elem? we'.heap p ≡ some (close now (timeout_message e) e)))
            ⊎ ((¬ IsStuck cfg now e) × (get_elem? we'.heap p ≡ some e)))
  unfolding housekeep
  housekeep-each extensions we k p e d found held =
      let (bound, entry) = sweep_at cfg now extensions k p e we.entries we d found found held in
      (kept_or_dropped cfg now e _ p bound, closed_or_same cfg now e _ entry)
