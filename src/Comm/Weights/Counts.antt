-- ===== src/Comm/Weights/Counts.antt =====
-- comm/message.go, `SetTargetWeight`: the weight of a target is the number of its occurrences.
use Prim.Native.String
use native.Mathlib.Nat.{zero-add}
use interlook.Prelude.{
  ℕ, ◌+◌, ◌<◌, min, String, ◌≡◌, refl, ap, ◌∙◌, inl, inr, Bool, true, false, ◌&&◌, List, [], ◌∷◌,
  map, ◌==◌, eqb, if◌then◌else◌, All, arith, eq_iff, Bool-cases,
}
use interlook.Comm.Weights.Keys.{IsPlain, target_of-key_of}
use interlook.Strconv.{itoa}
use interlook.Comm.{Target}
use interlook.Comm.Weights.{Tally, bump, key_of, tally_of, target_of, weighted}

-- Whether a target is on a host and port.
abbrev pub is_on : String → ℕ → Target → Bool
is_on host port t = t.host == host && eqb t.port port

-- How often a host and port occur among the targets.
unfoldable pub occurrences : String → ℕ → List Target → ℕ
occurrences host port [] = 0
occurrences host port (t ∷ ts) = (if is_on host port t then 1 else 0) + occurrences host port ts

-- The weight that the targets have on a host and port.
unfoldable pub weight_on : String → ℕ → List Target → ℕ
weight_on host port [] = 0
weight_on host port (t ∷ ts) = (if is_on host port t then t.weight else 0) + weight_on host port ts

unfoldable pub total : (String × ℕ → ℕ) → Tally → ℕ
total f [] = 0
total f (e ∷ tally) = f e + total f tally

-- Ranging over the map in this order visits each entry once.
abbrev pub VisitsOnce : (Tally → Tally) → Type 0
VisitsOnce order = (f : String × ℕ → ℕ) (tally : Tally) → total f (order tally) ≡ total f tally

-- An entry whose key is that of a plain target.
abbrev IsKey : String × ℕ → Type 0
IsKey (k, n) = (t : Target) × IsPlain t × (k ≡ key_of t)

module _ (host : String) (port : ℕ) where
  -- What an entry of the map adds to the weight.
  abbrev share : String × ℕ → ℕ
  share (key, n) = if is_on host port (target_of (key, n)) then n else 0

  weight_on-map : (tally : Tally) → weight_on host port (map target_of tally) ≡ total share tally
  unfolding weight_on total target_of
  weight_on-map [] = refl
  weight_on-map (e ∷ tally) = omega (arith, weight_on-map tally)

  one_more :
      (b : Bool) (n : ℕ) → (if b then n + 1 else 0) ≡ (if b then n else 0) + (if b then 1 else 0)
  one_more true n = refl
  one_more false n = refl

  total-bump :
      (key : String) (tally : Tally)
      → total share (bump key tally)
        ≡ total share tally + (if is_on host port (target_of (key, 1)) then 1 else 0)
  unfolding total bump target_of
  total-bump key [] = omega arith
  total-bump key ((k, n) ∷ tally) =
      let grown : share (k, n + 1) ≡ share (k, n) + share (k, 1) =
        one_more (is_on host port (target_of (k, n))) n in
      elim (Bool-cases (k == key)) [
        | inl here ↦
            let same : share (k, 1) ≡ share (key, 1) =
              ap (λ x. share (x, 1)) ((eq_iff k key).0 here) in
            rw here (omega (arith, grown, same))
        | inr other ↦ rw other (omega (arith, total-bump key tally))
      ]

  total-tally_of :
      (tally : Tally) (ts : List Target)
      → All IsPlain ts
      → total share (tally_of tally ts) ≡ total share tally + occurrences host port ts
  unfolding tally_of occurrences
  total-tally_of tally [] h = omega arith
  total-tally_of tally (t ∷ ts) (p, ps) =
      let same : share (key_of t, 1) ≡ (if is_on host port t then 1 else 0) =
        ap (λ u. if is_on host port u then 1 else 0) (target_of-key_of t 1 p) in
      omega (arith, total-tally_of (bump (key_of t) tally) ts ps, total-bump (key_of t) tally, same)

  -- Whether the key of an entry is that of the host and port.
  abbrev one : String × ℕ → ℕ
  one (key, n) = if is_on host port (target_of (key, n)) then 1 else 0

  occurrences-map : (tally : Tally) → occurrences host port (map target_of tally) ≡ total one tally
  unfolding occurrences total target_of
  occurrences-map [] = refl
  occurrences-map (e ∷ tally) = omega (arith, occurrences-map tally)

  -- Two plain keys that are read as the host and port are the same.
  on-same :
      (t u : Target) → is_on host port t ≡ true → is_on host port u ≡ true → key_of t ≡ key_of u
  unfolding key_of
  on-same t u a b =
      let here : t.host ≡ u.host = ground (arith, eq_iff t.host host, eq_iff u.host host) in
      let there : t.port ≡ u.port = ground arith in
      ap (λ h. String.◌++◌ h (String.◌∷◌ ":" (itoa t.port))) here
      ∙ ap (λ p. String.◌++◌ u.host (String.◌∷◌ ":" (itoa p))) there

  one-key_of :
      (t : Target) (n : ℕ) → IsPlain t → one (key_of t, n) ≡ (if is_on host port t then 1 else 0)
  unfolding target_of
  one-key_of t n p = ap (λ u. if is_on host port u then 1 else 0) (target_of-key_of t n p)

  -- An entry for the host and port is found, where there is one, and else added.
  occurs-bump :
      (t : Target) (tally : Tally)
      → IsPlain t
      → All IsKey tally
      → total one tally < 2
      → total one (bump (key_of t) tally) ≡ (if is_on host port t then 1 else total one tally)
  unfolding total bump target_of
  occurs-bump t [] p h small = elim (Bool-cases (is_on host port t)) [
    | inl on ↦ rw (one-key_of t 1 p, on) refl
    | inr off ↦ rw (one-key_of t 1 p, off) refl
  ]
  occurs-bump t ((k, n) ∷ tally) p ((u, q, is), h) small =
      let own : one (k, n) ≡ (if is_on host port u then 1 else 0) =
        ap (λ x. one (x, n)) is ∙ one-key_of u n q in
      elim (Bool-cases (k == key_of t)) [
        | inl here ↦
            let mine : one (k, n) ≡ (if is_on host port t then 1 else 0) =
              ap (λ x. one (x, n)) ((eq_iff k (key_of t)).0 here) ∙ one-key_of t n p in
            elim (Bool-cases (is_on host port t)) [
              | inl on ↦ rw (here, on) (omega (arith, rw on at mine, small))
              | inr off ↦ rw (here, off) refl
            ]
        | inr other ↦
            let rest = occurs-bump t tally p h (omega (arith, small)) in
            elim (Bool-cases (is_on host port t)) [
              | inl on ↦
                  let apart : is_on host port u ≡ false = elim (Bool-cases (is_on host port u)) [
                    | inl both ↦
                        absurd
                          (ground (arith, eq_iff k (key_of t), is ∙ on-same u t both on, other))
                    | inr off ↦ off
                  ] in
                  rw (other, on) (omega (arith, rw on at rest, rw apart at own))
              | inr off ↦ rw (other, off) (omega (arith, rw off at rest))
            ]
      ]

  IsKey-bump :
      (t : Target) (tally : Tally) → IsPlain t → All IsKey tally → All IsKey (bump (key_of t) tally)
  unfolding bump
  IsKey-bump t [] p h = ((t, p, refl), tt)
  IsKey-bump t ((k, n) ∷ tally) p (a, h) = elim (Bool-cases (k == key_of t)) [
    | inl here ↦ rw here (a, h)
    | inr other ↦ rw other (a, IsKey-bump t tally p h)
  ]

  occurs-tally_of :
      (tally : Tally) (ts : List Target)
      → All IsPlain ts
      → All IsKey tally
      → total one tally < 2
      → total one (tally_of tally ts) ≡ min 1 (total one tally + occurrences host port ts)
  unfolding tally_of occurrences
  occurs-tally_of tally [] ps h small = ground (arith, small)
  occurs-tally_of tally (t ∷ ts) (p, ps) h small =
      let first = occurs-bump t tally p h small in
      elim (Bool-cases (is_on host port t)) [
        | inl on ↦
            let now = rw on at first in
            let rest =
              occurs-tally_of (bump (key_of t) tally) ts ps (IsKey-bump t tally p h)
                (omega (arith, now)) in
            rw on (ground (arith, rest, now, small))
        | inr off ↦
            let now = rw off at first in
            let rest =
              occurs-tally_of (bump (key_of t) tally) ts ps (IsKey-bump t tally p h)
                (omega (arith, now, small)) in
            rw off (ground (arith, rest, now, small))
      ]

  weighs-counts :
      (order : Tally → Tally) (ts : List Target)
      → VisitsOnce order
      → All IsPlain ts
      → weight_on host port (weighted order ts) ≡ occurrences host port ts
  unfolding weighted total
  weighs-counts order ts once plain =
      let empty : total share [] ≡ 0 = refl in
      omega (
        arith,
        weight_on-map (order (tally_of [] ts)),
        once share (tally_of [] ts),
        total-tally_of [] ts plain,
        empty,
      )

  -- Whatever the order in which the map is visited, if each of its entries is visited once,
  -- and no host has a colon and every port fits in 32 bits, `SetTargetWeight` merges the
  -- targets on a host and port: there is exactly one on it afterwards if there was any and
  -- none if there was none, and its weight is the number of those that there were, counted
  -- directly.
  pub weighted-counts :
      (order : Tally → Tally) (ts : List Target)
      → VisitsOnce order
      → All IsPlain ts
      → (occurrences host port (weighted order ts) ≡ min 1 (occurrences host port ts))
        × (weight_on host port (weighted order ts) ≡ occurrences host port ts)
  unfolding weighted total
  weighted-counts order ts once plain = (
    occurrences-map (order (tally_of [] ts))
        ∙ once one (tally_of [] ts)
        ∙ occurs-tally_of [] ts plain tt (omega arith)
        ∙ ap (min 1) (zero-add (occurrences host port ts)),
    weighs-counts order ts once plain,
  )
