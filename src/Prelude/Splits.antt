-- ===== src/Prelude/Splits.antt =====
-- The join gives back what was split, and a text with a separator in it is split there.
use Prim.Native.String
use Prim.Native.String.{String}
use Prim.Native.Nat.{ℕ}
use Prim.Native.Char.{Char, code}
use mathlib.Core.Path.{◌≡◌, refl, sym, ap, ◌∙◌}
use mathlib.Core.Logic.{inl, inr}
use mathlib.Core.List.{List, [], ◌∷◌, ◌++◌}
use text.Mathlib.TextLemmas
use text.Mathlib.TextLemmas.{nil-append, cons-append}
use text.Mathlib.TextEquality.{Char-path}
use interlook.Prelude.Tests.{eqb, eqb_iff, Bool-cases}
use interlook.Prelude.Text.{split, join}

pub split-cons :
    (sep : ℕ) (s : String) → (part : String) × (parts : List String) × (split sep s ≡ part ∷ parts)
unfolding split
split-cons sep String.[] = (String.[], [], refl)
split-cons sep (String.◌∷◌ ch s) =
    let (part, parts, e) = split-cons sep s in
    elim (Bool-cases (eqb (code ch) sep)) [
      | inl h ↦ (String.[], split sep s, rw h refl)
      | inr h ↦ (String.◌∷◌ ch part, parts, rw (h, e) refl)
    ]

join-cons_first :
    (sep ch : Char) (part : String) (parts : List String)
    → join sep (String.◌∷◌ ch part ∷ parts) ≡ String.◌∷◌ ch (join sep (part ∷ parts))
unfolding join
join-cons_first sep ch part [] = refl
join-cons_first sep ch part (next ∷ parts) = cons-append ch part _

pub join-one : (sep : Char) (part : String) → join sep (part ∷ []) ≡ part
unfolding join
join-one sep part = refl

join-nil_first :
    (sep : Char) (part : String) (parts : List String)
    → join sep (String.[] ∷ part ∷ parts) ≡ String.◌∷◌ sep (join sep (part ∷ parts))
unfolding join
join-nil_first sep part parts = nil-append _

pub join-split : (sep : Char) (s : String) → join sep (split (code sep) s) ≡ s
unfolding split
join-split sep String.[] = join-one sep String.[]
join-split sep (String.◌∷◌ ch s) =
    let (part, parts, e) = split-cons (code sep) s in
    let back = (ap (join sep) (sym e)) ∙ join-split sep s in
    elim (Bool-cases (eqb (code ch) (code sep))) [
      | inl h ↦
          rw (h, e)
            (join-nil_first sep part parts
              ∙ (ap (String.◌∷◌ sep) back
                  ∙ ap (λ c. String.◌∷◌ c s)
                      (sym (Char-path ch sep ((eqb_iff (code ch) (code sep)).0 h)))))
      | inr h ↦ rw (h, e) (join-cons_first sep ch part parts ∙ ap (String.◌∷◌ ch) back)
    ]

-- The join of a list that is cut in two parts.
pub join-append :
    (sep : Char) (x : String) (xs : List String) (y : String) (ys : List String)
    → join sep ((x ∷ xs) ++ y ∷ ys)
      ≡ String.◌++◌ (join sep (x ∷ xs)) (String.◌∷◌ sep (join sep (y ∷ ys)))
unfolding join
join-append sep x [] y ys = refl
join-append sep x (z ∷ xs) y ys =
    ap (λ s. String.◌++◌ x (String.◌∷◌ sep s)) (join-append sep z xs y ys)
    ∙ (ap (String.◌++◌ x) (sym (cons-append sep _ _)) ∙ sym (TextLemmas.append_assoc x _ _))

pub join-two :
    (sep : Char) (x y : String) → join sep (x ∷ y ∷ []) ≡ String.◌++◌ x (String.◌∷◌ sep y)
unfolding join
join-two sep x y = refl

-- The parts of a text with a separator in it.
pub split-append_all :
    (sep : Char) (s t : String)
    → split (code sep) (String.◌++◌ s (String.◌∷◌ sep t)) ≡ split (code sep) s ++ split (code sep) t
unfolding split
split-append_all sep String.[] t = rw (nil-append, (eqb_iff (code sep) (code sep)).1 refl)
split-append_all sep (String.◌∷◌ ch s) t =
    let (part, parts, e) = split-cons (code sep) s in
    elim (Bool-cases (eqb (code ch) (code sep))) [
      | inl h ↦ rw (cons-append, h, split-append_all sep s t) refl
      | inr h ↦ rw (cons-append, h, split-append_all sep s t, e) refl
    ]
