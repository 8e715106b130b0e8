-- ===== src/Prelude/Lists.antt =====
-- Lists measured and indexed by native numbers, and the search loops of the program.
use Prim.Native.Nat.{ℕ, zero, suc, ◌+◌, ◌<◌}
use mathlib.Core.Path.{◌≡◌, refl}
use mathlib.Core.Bool.{Bool, true, false}
use mathlib.Core.List.{List, [], ◌∷◌, ◌++◌}
use mathlib.Core.Option.{Option, none, some}
use native.Mathlib.Omega.{arith}
use interlook.Prelude.Tests.{if◌then◌else◌}

-- What holds of every element.
abbrev pub All {ℓ κ} : {A : Type ℓ} → (A → Type κ) → List A → Type κ
All P [] = Unit
All P (x ∷ xs) = P x × All P xs

module _ {ℓ} {A : Type ℓ} where
  abbrev pub length : List A → ℕ
  length [] = 0
  length (x ∷ xs) = suc (length xs)

  abbrev pub get_elem? : List A → ℕ → Option A
  get_elem? [] i = none
  get_elem? (x ∷ xs) zero = some x
  get_elem? (x ∷ xs) (suc i) = get_elem? xs i

  -- A write out of bounds changes nothing.
  abbrev pub set : List A → ℕ → A → List A
  set [] i v = []
  set (x ∷ xs) zero v = v ∷ xs
  set (x ∷ xs) (suc i) v = x ∷ set xs i v

  -- `for _, x := range xs { if p(x) { found = x } }`: the last match wins.
  unfoldable pub find_last : (A → Bool) → Option A → List A → Option A
  find_last p found [] = found
  find_last p found (x ∷ xs) = find_last p (if p x then some x else found) xs

  -- `for _, x := range xs { if p(x) { return x } }`: the first match wins.
  unfoldable pub find_first : (A → Bool) → List A → Option A
  find_first p [] = none
  find_first p (x ∷ xs) = if p x then some x else find_first p xs

module _ {ℓ} {A : Type ℓ} where
  pub length-append : (xs ys : List A) → length (xs ++ ys) ≡ length xs + length ys
  length-append [] ys = omega arith
  length-append (x ∷ xs) ys = omega (arith, length-append xs ys)

  pub get_elem?-lt : (xs : List A) (i : ℕ) {x : A} → get_elem? xs i ≡ some x → i < length xs
  get_elem?-lt [] i h = ground arith
  get_elem?-lt (x ∷ xs) zero h = omega arith
  get_elem?-lt (x ∷ xs) (suc i) h = omega (arith, get_elem?-lt xs i h)

  pub get_elem?-total : (xs : List A) (i : ℕ) → i < length xs → (x : A) × (get_elem? xs i ≡ some x)
  get_elem?-total [] i h = absurd (omega arith)
  get_elem?-total (x ∷ xs) zero h = (x, refl)
  get_elem?-total (x ∷ xs) (suc i) h = get_elem?-total xs i (omega arith)

  pub get_elem?-append_left :
      (xs ys : List A) (i : ℕ) → i < length xs → get_elem? (xs ++ ys) i ≡ get_elem? xs i
  get_elem?-append_left [] ys i h = absurd (omega arith)
  get_elem?-append_left (x ∷ xs) ys zero h = refl
  get_elem?-append_left (x ∷ xs) ys (suc i) h = get_elem?-append_left xs ys i (omega arith)

  pub get_elem?-append_end : (xs : List A) (y : A) → get_elem? (xs ++ y ∷ []) (length xs) ≡ some y
  get_elem?-append_end [] y = refl
  get_elem?-append_end (x ∷ xs) y = get_elem?-append_end xs y

  pub get_elem?-All {κ} :
      (P : A → Type κ) (xs : List A) (i : ℕ) (x : A) → All P xs → get_elem? xs i ≡ some x → P x
  get_elem?-All P [] i x h e = ground arith
  get_elem?-All P (y ∷ xs) zero x (p, h) e = ground arith
  get_elem?-All P (y ∷ xs) (suc i) x (p, h) e = get_elem?-All P xs i x h e

  pub find_last-append :
      (p : A → Bool) (found : Option A) (xs ys : List A)
      → find_last p found (xs ++ ys) ≡ find_last p (find_last p found xs) ys
  unfolding find_last
  find_last-append p found [] ys = refl
  find_last-append p found (x ∷ xs) ys = find_last-append p (if p x then some x else found) xs ys

  pub find_last-All_false :
      (p : A → Bool) (found : Option A) (xs : List A)
      → All (λ x. p x ≡ false) xs
      → find_last p found xs ≡ found
  unfolding find_last
  find_last-All_false p found [] h = refl
  find_last-All_false p found (x ∷ xs) (e, h) = rw e (find_last-All_false p found xs h)

  -- The last match is the one that no other follows.
  pub find_last-cons_hit :
      (p : A → Bool) (found : Option A) (x : A) (xs : List A)
      → p x ≡ true
      → All (λ y. p y ≡ false) xs
      → find_last p found (x ∷ xs) ≡ some x
  unfolding find_last
  find_last-cons_hit p found x xs e h = rw (e, find_last-All_false p _ xs h) refl

  pub find_last-cons_miss :
      (p : A → Bool) (found : Option A) (x : A) (xs : List A)
      → p x ≡ false
      → find_last p found (x ∷ xs) ≡ find_last p found xs
  unfolding find_last
  find_last-cons_miss p found x xs e = rw e

  pub All-append {κ} : (P : A → Type κ) (xs ys : List A) → All P (xs ++ ys) → All P xs × All P ys
  All-append P [] ys h = (tt, h)
  All-append P (x ∷ xs) ys (p, h) = let (a, b) = All-append P xs ys h in ((p, a), b)

  pub find_first-append_hit :
      (p : A → Bool) (xs ys : List A) (x : A)
      → find_first p xs ≡ some x
      → find_first p (xs ++ ys) ≡ some x
  unfolding find_first
  find_first-append_hit p [] ys x h = ground arith
  find_first-append_hit p (y ∷ xs) ys x h = ground (arith, find_first-append_hit p xs ys x)

  pub find_first-append_miss :
      (p : A → Bool) (xs ys : List A)
      → All (λ x. p x ≡ false) xs
      → find_first p (xs ++ ys) ≡ find_first p ys
  unfolding find_first
  find_first-append_miss p [] ys h = refl
  find_first-append_miss p (y ∷ xs) ys (e, h) = rw e (find_first-append_miss p xs ys h)
