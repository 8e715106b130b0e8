-- ===== src/Workflow/Kinds.antt =====
-- Which transition a configured name gets: `initWorkflow` splits at the dots, `getNextStep` and the
-- handlers test the prefix "provider.". The two agree but for the name "provider" itself.
use Prim.Native.String
use text.Mathlib.TextLemmas.{nil-append, cons-append, append_assoc}
use text.Mathlib.TextEquality.{starts_with_iff, Char-path}
use text.Mathlib.TextPositions.{starts_with-append}
use interlook.Prelude.{
  ℕ, String, ◌==◌, ◌≡◌, refl, sym, ap, ◌∙◌, ◌≢◌, ◌⊎◌, inl, inr, true, false, List, [], ◌∷◌, All,
  arith, split, split-append, Lacks, cons_first, first_or, eqb, eqb_iff, code, Char, Bool-cases,
  eq_iff,
}
use interlook.Workflow.{provider_state, provisioner_state, transition_for}
use interlook.Workflow.Shape.{IsConfig}
use interlook.Workflow.Next.{is_provider}

-- The names of a configuration, none of which is the bare "provider".
pub record IsDeployable (names : List String) : Type 0 where
  pub config : IsConfig names
  pub no_bare : All (λ v. v ≢ "provider") names

abbrev dot_then : Char → String → String → String
dot_then dot s t = String.◌++◌ s (String.◌∷◌ dot t)

abbrev first_of_split : ℕ → String → String
first_of_split sep s = first_or "" (split sep s)

first_or-cons_first :
    (ch : Char) (parts : List String)
    → first_or "" (cons_first ch parts) ≡ String.◌∷◌ ch (first_or "" parts)
first_or-cons_first ch [] = refl
first_or-cons_first ch (part ∷ parts) = refl

first_of_split-cons :
    (sep : ℕ) (ch : Char) (s : String)
    → eqb (code ch) sep ≡ false
    → first_of_split sep (String.◌∷◌ ch s) ≡ String.◌∷◌ ch (first_of_split sep s)
unfolding split
first_of_split-cons sep ch s e = rw e (first_or-cons_first ch (split sep s))

-- A text is its first part, or that part, a separator and a rest.
first_part :
    (sep : ℕ) (s : String)
    → (s ≡ first_of_split sep s)
      ⊎ ((c : Char) × (t : String) × (code c ≡ sep) × (s ≡ dot_then c (first_of_split sep s) t))
unfolding split
first_part sep String.[] = inl refl
first_part sep (String.◌∷◌ ch s) = elim (Bool-cases (eqb (code ch) sep)) [
  | inl e ↦ rw e (inr (ch, s, (eqb_iff (code ch) sep).0 e, sym (nil-append _)))
  | inr e ↦
      let first = first_of_split-cons sep ch s e in
      elim (first_part sep s) [
        | inl whole ↦ inl (ap (λ t. String.◌∷◌ ch t) whole ∙ sym first)
        | inr (c, t, p, q) ↦ inr (
          c,
          t,
          p,
          ap (λ r. String.◌∷◌ ch r) q
              ∙ sym (cons-append ch _ _)
              ∙ ap (λ r. dot_then c r t) (sym first),
        )
      ]
]

abbrev dot : Char
dot = "."

-- Two ways to read a name that begins with "provider.".
provider_dot : (t : String) → dot_then dot "provider" t ≡ String.◌++◌ "provider." t
provider_dot t =
    let cons : String.◌++◌ "." t ≡ String.◌∷◌ dot t =
      cons-append dot String.[] t ∙ ap (λ r. String.◌∷◌ dot r) (nil-append t) in
    ap (λ r. String.◌++◌ "provider" r) (sym cons) ∙ sym (append_assoc "provider" "." t)

Lacks-dot : Lacks (code dot) "provider"
Lacks-dot = omega arith

-- The prefix test of a name whose first part is "provider".
is_provider-first :
    (v : String) → first_of_split b'.' v ≡ "provider" → v ≢ "provider" → is_provider v ≡ true
is_provider-first v e bare = elim (first_part b'.' v) [
  | inl whole ↦ absurd (bare (whole ∙ e))
  | inr (c, t, p, q) ↦
      let v_is : v ≡ String.◌++◌ "provider." t =
        q
        ∙ ap (λ r. dot_then c r t) e
        ∙ ap (λ d. dot_then d "provider" t) (Char-path c dot p)
        ∙ provider_dot t in
      rw v_is (starts_with-append "provider." t)
]

-- A configured name that the walk stops at has the provisioner's transition.
pub transition_for-provisioner :
    (v : String) → is_provider v ≡ false → v ≢ "provider" → transition_for v ≡ provisioner_state
unfolding transition_for
transition_for-provisioner v p bare = elim (Bool-cases (first_of_split b'.' v == "provider")) [
  | inl e ↦ absurd (cc (is_provider-first v ((eq_iff _ _).0 e) bare, p))
  | inr e ↦ rw e refl
]

-- A name that the walk passes has the provider's.
pub transition_for-provider :
    (v : String) → is_provider v ≡ true → transition_for v ≡ provider_state
unfolding transition_for
transition_for-provider v p =
    let (t, e) = (starts_with_iff v "provider.").0 p in
    let v_is : v ≡ dot_then dot "provider" t = sym e ∙ sym (provider_dot t) in
    let parts : split b'.' v ≡ "provider" ∷ split b'.' t =
      ap (split b'.') v_is ∙ split-append dot "provider" t Lacks-dot in
    rw parts refl
