-- ===== src/Prelude/Text.antt =====
-- `strings.Split` for a separator of one byte, and the join that it inverts.
use Prim.Native.Nat.{ℕ}
use Prim.Native.Char.{Char, code}
use Prim.Native.String
use Prim.Native.String.{String}
use mathlib.Core.Path.{◌≡◌, refl}
use mathlib.Core.Logic.{◌≢◌}
use mathlib.Core.List.{List, [], ◌∷◌}
use text.Mathlib.TextLemmas.{nil-append, cons-append}
use interlook.Prelude.Tests.{if◌then◌else◌, eqb, eqb_ne, eqb_iff}
use interlook.Prelude.Lists.{All}

-- The parts grow at the front, so the first part is the one that is open.
abbrev pub cons_first : Char → List String → List String
cons_first ch [] = String.◌∷◌ ch String.[] ∷ []
cons_first ch (part ∷ parts) = String.◌∷◌ ch part ∷ parts

unfoldable pub split : ℕ → String → List String
split sep String.[] = String.[] ∷ []
split sep (String.◌∷◌ ch s) =
    let parts = split sep s in if eqb (code ch) sep then String.[] ∷ parts else cons_first ch parts

abbrev pub first_or : String → List String → String
first_or d [] = d
first_or d (s ∷ _) = s

-- The texts joined by a separator of one character.
unfoldable pub join : Char → List String → String
join sep [] = String.[]
join sep (part ∷ []) = part
join sep (part ∷ next ∷ parts) = String.◌++◌ part (String.◌∷◌ sep (join sep (next ∷ parts)))

-- No character of the text is the separator.
abbrev pub Lacks : ℕ → String → Type 0
Lacks sep String.[] = Unit
Lacks sep (String.◌∷◌ ch s) = (code ch ≢ sep) × Lacks sep s

pub split-Lacks : (sep : ℕ) (s : String) → Lacks sep s → split sep s ≡ s ∷ []
unfolding split
split-Lacks sep String.[] h = refl
split-Lacks sep (String.◌∷◌ ch s) (p, h) = rw (split-Lacks sep s h, eqb_ne (code ch) sep p)

pub split-append :
    (sep : Char) (s t : String)
    → Lacks (code sep) s
    → split (code sep) (String.◌++◌ s (String.◌∷◌ sep t)) ≡ s ∷ split (code sep) t
unfolding split
split-append sep String.[] t h = rw (nil-append, (eqb_iff (code sep) (code sep)).1 refl)
split-append sep (String.◌∷◌ ch s) t (p, h) =
    rw (cons-append, eqb_ne (code ch) (code sep) p, split-append sep s t h)

pub split-join :
    (sep : Char) (part : String) (parts : List String)
    → All (Lacks (code sep)) (part ∷ parts)
    → split (code sep) (join sep (part ∷ parts)) ≡ part ∷ parts
unfolding join
split-join sep part [] h = split-Lacks (code sep) part h.0
split-join sep part (next ∷ parts) (p, h) =
    rw (split-append sep part _ p, split-join sep next parts h)
