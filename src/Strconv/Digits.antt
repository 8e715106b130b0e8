-- ===== src/Strconv/Digits.antt =====
-- `strconv.Atoi` reads back what `strconv.Itoa` writes.
use Prim.Native.String
use interlook.Prelude.{
  List, [], ◌∷◌, split-Lacks, ◌⊎◌, ℕ, zero, suc, ◌+◌, ◌*◌, ◌/◌, ◌%◌, ◌^◌, ◌≤◌, ◌<◌, String, Char,
  code, ◌≡◌, refl, ap, ◌∙◌, some, ltb, ltb→lt, eqb_ne, eqb, arith, Lacks, Bool-cases, ◌≢◌, inl, inr,
  eqb_iff, split,
}
use text.Mathlib.TextLemmas.{nil-append, cons-append}
use interlook.Strconv.{
  last_or, after_colon, above, digit_char, itoa_before, itoa, digits_value, all_digits, pos, atoi,
}

code-digit_char : (d : ℕ) → d < 10 → code (digit_char d) ≡ 48 + d
unfolding digit_char
code-digit_char zero h = refl
code-digit_char (suc zero) h = refl
code-digit_char (suc (suc zero)) h = refl
code-digit_char (suc (suc (suc zero))) h = refl
code-digit_char (suc (suc (suc (suc zero)))) h = refl
code-digit_char (suc (suc (suc (suc (suc zero))))) h = refl
code-digit_char (suc (suc (suc (suc (suc (suc zero)))))) h = refl
code-digit_char (suc (suc (suc (suc (suc (suc (suc zero))))))) h = refl
code-digit_char (suc (suc (suc (suc (suc (suc (suc (suc zero)))))))) h = refl
code-digit_char (suc (suc (suc (suc (suc (suc (suc (suc (suc zero))))))))) h = refl
code-digit_char (suc (suc (suc (suc (suc (suc (suc (suc (suc (suc d)))))))))) h =
    absurd (omega arith)

digits_value-digit :
    (acc d : ℕ) (after : String)
    → d < 10
    → acc * 10 + d < 2 ^ 64
    → digits_value acc (String.◌∷◌ (digit_char d) after) ≡ digits_value (acc * 10 + d) after
unfolding digits_value
digits_value-digit acc d after h small = ground (arith, code-digit_char d h)

digits_value-itoa_before :
    (f n : ℕ) (after : String)
    → n < f
    → n < 2 ^ 64
    → digits_value 0 (itoa_before f n after) ≡ digits_value n after
unfolding itoa_before
digits_value-itoa_before zero n after h small = absurd (omega arith)
digits_value-itoa_before (suc f) n after h small = elim (Bool-cases (ltb n 10)) [
  | inl last ↦
      let small_n = ltb→lt n 10 last in
      rw last (
        digits_value-digit 0 (n % 10) after (omega arith) (omega arith)
        ∙ ap (λ m. digits_value m after) (omega arith))
  | inr more ↦ rw more (
      digits_value-itoa_before f (n / 10) (String.◌∷◌ (digit_char (n % 10)) after) (ground arith)
        (omega arith)
      ∙ digits_value-digit (n / 10) (n % 10) after (omega arith) (omega arith)
      ∙ ap (λ m. digits_value m after) (omega arith))
]

-- The text begins with a digit, and so has a character.
abbrev pub StartsDigit : String → Type 0
StartsDigit String.[] = ⊥
StartsDigit (String.◌∷◌ ch s) = (48 ≤ code ch) × (code ch < 58)

StartsDigit-digit : (d : ℕ) (s : String) → d < 10 → StartsDigit (String.◌∷◌ (digit_char d) s)
StartsDigit-digit d s h = omega (arith, code-digit_char d h)

StartsDigit-itoa_before :
    (f n : ℕ) (after : String) → StartsDigit after → StartsDigit (itoa_before f n after)
unfolding itoa_before
StartsDigit-itoa_before zero n after h = h
StartsDigit-itoa_before (suc f) n after h =
    let digit = StartsDigit-digit (n % 10) after (omega arith) in
    elim (Bool-cases (ltb n 10)) [
      | inl last ↦ rw last digit
      | inr more ↦
          rw more
            (StartsDigit-itoa_before f (n / 10) (String.◌∷◌ (digit_char (n % 10)) after) digit)
    ]

pub StartsDigit-itoa : (n : ℕ) → StartsDigit (itoa n)
unfolding itoa itoa_before
StartsDigit-itoa n =
    let digit = StartsDigit-digit (n % 10) "" (omega arith) in
    elim (Bool-cases (ltb n 10)) [
      | inl last ↦ rw last digit
      | inr more ↦
          rw more (StartsDigit-itoa_before n (n / 10) (String.◌∷◌ (digit_char (n % 10)) "") digit)
    ]

all_digits-start : (s : String) → StartsDigit s → all_digits s ≡ digits_value 0 s
unfolding all_digits
all_digits-start String.[] h = absurd h
all_digits-start (String.◌∷◌ ch s) h = refl

pub all_digits-itoa : (n : ℕ) → n < 2 ^ 64 → all_digits (itoa n) ≡ some n
unfolding itoa digits_value
all_digits-itoa n small =
    all_digits-start (itoa n) (StartsDigit-itoa n)
    ∙ digits_value-itoa_before (suc n) n "" (omega arith) small
    ∙ ended n
  where
    ended : (m : ℕ) → digits_value m "" ≡ some m
    ended m = refl

pub atoi-start : (s : String) → StartsDigit s → atoi s ≡ above (all_digits s)
unfolding atoi
atoi-start String.[] h = absurd h
atoi-start (String.◌∷◌ ch s) h =
    rw (eqb_ne (code ch) b'+' (omega arith), eqb_ne (code ch) b'-' (omega arith)) refl

-- The text of a number that fits in an int64 is read back as that number.
pub atoi-itoa : (n : ℕ) → n < 2 ^ 63 → atoi (itoa n) ≡ some (pos n)
atoi-itoa n small =
    atoi-start (itoa n) (StartsDigit-itoa n)
    ∙ ap above (all_digits-itoa n (omega arith))
    ∙ ground arith

-- No character of the text has the code `sep`, which is no digit.
Lacks-itoa_before :
    (sep f n : ℕ) (after : String)
    → (sep < 48) ⊎ (57 < sep)
    → Lacks sep after
    → Lacks sep (itoa_before f n after)
unfolding itoa_before
Lacks-itoa_before sep zero n after h a = a
Lacks-itoa_before sep (suc f) n after h a =
    let digit : code (digit_char (n % 10)) ≢ sep = λ e.
      let d = code-digit_char (n % 10) (omega arith) in
      elim h [ inl low ↦ omega arith | inr high ↦ omega arith ] in
    elim (Bool-cases (ltb n 10)) [
      | inl last ↦ rw last (digit, a)
      | inr more ↦
          rw more
            (Lacks-itoa_before sep f (n / 10) (String.◌∷◌ (digit_char (n % 10)) after) h (digit, a))
    ]

pub Lacks-itoa : (sep n : ℕ) → (sep < 48) ⊎ (57 < sep) → Lacks sep (itoa n)
unfolding itoa
Lacks-itoa sep n h = Lacks-itoa_before sep (suc n) n "" h tt

split-cons :
    (sep : ℕ) (s : String) → (part : String) × (parts : List String) × (split sep s ≡ part ∷ parts)
unfolding split
split-cons sep String.[] = ("", [], refl)
split-cons sep (String.◌∷◌ ch s) =
    let (part, parts, e) = split-cons sep s in
    elim (Bool-cases (eqb (code ch) sep)) [
      | inl here ↦ ("", part ∷ parts, rw (here, e) refl)
      | inr other ↦ (String.◌∷◌ ch part, parts, rw (other, e) refl)
    ]

-- A text with a separator has two parts at least, and its last is the last of what follows.
record EndsLike (sep : Char) (s t : String) : Type 0 where
  first : String
  second : String
  rest : List String
  parts : split (code sep) (String.◌++◌ s (String.◌∷◌ sep t)) ≡ first ∷ second ∷ rest
  last : last_or "" (second ∷ rest) ≡ last_or "" (split (code sep) t)

split-EndsLike : (sep : Char) (s t : String) → EndsLike sep s t
unfolding split
split-EndsLike sep String.[] t =
    let (part, parts, e) = split-cons (code sep) t in
    record {
      first = "";
      second = part;
      rest = parts;
      parts = rw (nil-append, (eqb_iff (code sep) (code sep)).1 refl, e) refl;
      last = rw e refl;
    }
split-EndsLike sep (String.◌∷◌ ch s) t =
    let ih = split-EndsLike sep s t in
    elim (Bool-cases (eqb (code ch) (code sep))) [
      | inl here ↦ record {
        first = "";
        second = ih.first;
        rest = ih.second ∷ ih.rest;
        parts = rw (cons-append, here, ih.parts) refl;
        last = ih.last;
      }
      | inr other ↦ record {
        first = String.◌∷◌ ch ih.first;
        second = ih.second;
        rest = ih.rest;
        parts = rw (cons-append, other, ih.parts) refl;
        last = ih.last;
      }
    ]

-- What follows the last colon of "…:n" is n.
pub after_colon-itoa :
    (s : String) (n : ℕ) → after_colon (String.◌++◌ s (String.◌∷◌ ":" (itoa n))) ≡ itoa n
unfolding after_colon
after_colon-itoa s n =
    let e = split-EndsLike ":" s (itoa n) in
    ap (last_or "") e.parts
    ∙ e.last
    ∙ ap (last_or "") (split-Lacks b':' (itoa n) (Lacks-itoa b':' n (inr (omega arith))))
