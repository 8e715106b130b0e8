-- ===== src/Workflow/Stops.antt =====
-- The names at which the walk along the workflow stops, as lists.
use mathlib.Core.List.{reverse, reverse-append}
use interlook.Prelude.{
  append-nil, ℕ, zero, suc, ◌+◌, ◌-◌, ◌<◌, ◌≤◌, String, ◌==◌, ◌≡◌, refl, sym, ap, ◌∙◌, ◌≢◌, inl,
  inr, Bool, true, false, some, List, [], ◌∷◌, ◌++◌, length, get_elem?, get_elem?-lt,
  get_elem?-total, get_elem?-append_left, subst, ◌⊎◌, get_elem?-All, arith, if◌then◌else◌,
  Bool-cases, ==_ne,
}
use interlook.Workflow.{deployed_state, undeployed_state}
use interlook.Workflow.Shape.{chain, IsConfig, at_start, at_name, at_end, position}
use interlook.Workflow.Next.{IsNearest, Between, terminal, is_provider, length-chain}

module _ {ℓ} {A : Type ℓ} where
  abbrev pub take : ℕ → List A → List A
  take zero xs = []
  take (suc n) [] = []
  take (suc n) (x ∷ xs) = x ∷ take n xs

  abbrev pub drop : ℕ → List A → List A
  drop zero xs = xs
  drop (suc n) [] = []
  drop (suc n) (x ∷ xs) = drop n xs

  take-suc :
      (xs : List A) (i : ℕ) (x : A)
      → get_elem? xs i ≡ some x
      → take (suc i) xs ≡ take i xs ++ x ∷ []
  take-suc [] i x h = ground arith
  take-suc (y ∷ xs) zero x h = ground arith
  take-suc (y ∷ xs) (suc i) x h = ap (λ l. y ∷ l) (take-suc xs i x h)

  drop-get_elem? :
      (xs : List A) (i : ℕ) (x : A) → get_elem? xs i ≡ some x → drop i xs ≡ x ∷ drop (suc i) xs
  drop-get_elem? [] i x h = ground arith
  drop-get_elem? (y ∷ xs) zero x h = ground arith
  drop-get_elem? (y ∷ xs) (suc i) x h = drop-get_elem? xs i x h

  drop-all : (xs : List A) (i : ℕ) → length xs ≤ i → drop i xs ≡ []
  drop-all [] zero h = refl
  drop-all [] (suc i) h = refl
  drop-all (y ∷ xs) zero h = absurd (omega arith)
  drop-all (y ∷ xs) (suc i) h = drop-all xs i (omega arith)

-- The names that are no provider's.
abbrev pub provisioners : List String → List String
provisioners [] = []
provisioners (v ∷ vs) = if is_provider v then provisioners vs else v ∷ provisioners vs

provisioners-append :
    (us vs : List String) → provisioners (us ++ vs) ≡ provisioners us ++ provisioners vs
provisioners-append [] vs = refl
provisioners-append (u ∷ us) vs = ground (arith, provisioners-append us vs)

-- The stops beyond a position of the chain: forward, and in reverse.
unfoldable pub stops : List String → Bool → ℕ → List String
stops names true i = reverse (provisioners (take (i - 1) names))
stops names false i = provisioners (drop i names)

module _ (names : List String) (c : IsConfig names) where
  get_elem?-chain :
      (m : ℕ) (v : String)
      → m < length names
      → get_elem? (chain names) (suc m) ≡ some v
      → get_elem? names m ≡ some v
  get_elem?-chain m v lt h = elim (position names (suc m) v h) [
    | at_start p q ↦ absurd (omega arith)
    | at_name k p l q ↦ ground arith
    | at_end p q ↦ absurd (omega arith)
  ]

  -- A stop that is nearest from `i` is nearest from a position between.
  IsNearest-within :
      (reverse : Bool) (i k j : ℕ) (v : String)
      → Between reverse i k j
      → IsNearest names reverse i j v
      → IsNearest names reverse k j v
  IsNearest-within true i k j v b n = record {
    holds = n.holds;
    beyond = b.0;
    stops = n.stops;
    passes = λ m u r e. n.passes m u (r.0, omega (arith, r.1, b.1)) e;
  }
  IsNearest-within false i k j v b n = record {
    holds = n.holds;
    beyond = b.1;
    stops = n.stops;
    passes = λ m u r e. n.passes m u (omega (arith, r.0, b.0), r.1) e;
  }

  -- A stop is a configured name or the end of the chain.
  stop_cases :
      (i j : ℕ) (v : String)
      → IsNearest names false i j v
      → ((m : ℕ) × (j ≡ suc m)
          × (m < length names)
          × (get_elem? names m ≡ some v)
          × (v ≢ deployed_state))
        ⊎ ((j ≡ suc (length names)) × (v ≡ deployed_state))
  stop_cases i j v n = elim (position names j v n.holds) [
    | at_start p q ↦ absurd (omega (arith, n.beyond))
    | at_name m p lt q ↦
        inl (
          m,
          p,
          lt,
          q,
          get_elem?-All (λ (u : String). u ≢ deployed_state) names m v c.no_deployed q,
        )
    | at_end p q ↦ inr (p, q)
  ]

  stops-forward :
      (d i j : ℕ) (v : String)
      → j ≡ suc (d + i)
      → i ≤ length names
      → IsNearest names false i j v
      → stops names false i ≡ (if v == deployed_state then [] else v ∷ stops names false j)
  unfolding stops
  stops-forward zero i j v e le n = elim (stop_cases i j v n) [
    | inl (m, p, lt, q, ne) ↦
        let same : i ≡ m = omega arith in
        let next_is : suc i ≡ j = omega arith in
        let here : get_elem? names i ≡ some v =
          subst (λ k. get_elem? names k ≡ some v) (sym same) q in
        rw (drop-get_elem? names i v here, n.stops, ==_ne v deployed_state ne)
          (ap (λ k. v ∷ provisioners (drop k names)) next_is)
    | inr (p, q) ↦ rw (drop-all names i (omega arith), q) refl
  ]
  stops-forward (suc d) i j v e le n =
      let bound : j ≤ suc (length names) =
        omega (arith, get_elem?-lt (chain names) j n.holds, length-chain names) in
      let (u, hu) = get_elem?-total names i (omega arith) in
      let b : Between false i (suc i) j = (omega arith, omega arith) in
      let passed : is_provider u ≡ true =
        n.passes (suc i) u b
          (get_elem?-append_left names (deployed_state ∷ []) i (omega arith) ∙ hu) in
      let rest =
        stops-forward d (suc i) j v (omega arith) (omega arith)
          (IsNearest-within false i (suc i) j v b n) in
      rw (drop-get_elem? names i u hu, passed) rest

  -- The stops before a position, from the nearest: one step.
  back_stops :
      (i : ℕ) (u : String)
      → get_elem? names i ≡ some u
      → stops names true (suc (suc i))
        ≡ (if is_provider u then stops names true (suc i) else u ∷ stops names true (suc i))
  unfolding stops
  back_stops i u h =
      let one : suc (suc i) - 1 ≡ suc i = omega arith in
      let two : suc i - 1 ≡ i = omega arith in
      elim (Bool-cases (is_provider u)) [
        | inl p ↦ rw (
          one,
          two,
          take-suc names i u h,
          provisioners-append (take i names) (u ∷ []),
          p,
          append-nil (provisioners (take i names)),
        )
        | inr p ↦
            rw (one, two, take-suc names i u h, provisioners-append (take i names) (u ∷ []), p)
              (reverse-append (provisioners (take i names)) (u ∷ []))
      ]

  stops-reverse :
      (d i j : ℕ) (v : String)
      → i ≡ suc (d + j)
      → i ≤ suc (length names)
      → IsNearest names true i j v
      → stops names true i ≡ (if v == undeployed_state then [] else v ∷ stops names true j)
  stops-reverse zero i j v e le n = elim (position names j v n.holds) [
    | at_start p q ↦ let first : i ≡ 1 = omega arith in rw (first, q) (unfold stops in refl)
    | at_name m p lt q ↦
        let first : i ≡ suc (suc m) = omega arith in
        rw (
          first,
          p,
          back_stops m v q,
          n.stops,
          ==_ne v undeployed_state
              (get_elem?-All (λ (u : String). u ≢ undeployed_state) names m v c.no_undeployed q),
        )
    | at_end p q ↦ absurd (omega arith)
  ]
  stops-reverse (suc d) i j v e le n =
      let (u, hu) = get_elem?-total names (d + j) (omega arith) in
      let b : Between true i (suc (d + j)) j = (omega arith, omega arith) in
      let passed : is_provider u ≡ true =
        n.passes (suc (d + j)) u b
          (get_elem?-append_left names (deployed_state ∷ []) (d + j) (omega arith) ∙ hu) in
      let here : i ≡ suc (suc (d + j)) = omega arith in
      let rest =
        stops-reverse d (suc (d + j)) j v refl (omega arith)
          (IsNearest-within true i (suc (d + j)) j v b n) in
      rw (here, back_stops (d + j) u hu, passed) rest

  -- The stops beyond a position are the nearest one, unless it is the end of the chain, and the
  -- stops beyond that.
  pub stops-IsNearest :
      (reverse : Bool) (i j : ℕ) (v : String)
      → i < length (chain names)
      → IsNearest names reverse i j v
      → stops names reverse i ≡ (if v == terminal reverse then [] else v ∷ stops names reverse j)
  stops-IsNearest true i j v lt n =
      stops-reverse (i - suc j) i j v (omega (arith, n.beyond)) (omega (arith, length-chain names))
        n
  stops-IsNearest false i j v lt n =
      stops-forward (j - suc i) i j v (omega (arith, n.beyond))
        (omega (arith, n.beyond, get_elem?-lt (chain names) j n.holds, length-chain names)) n
