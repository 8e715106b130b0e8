-- ===== src/Strconv.antt =====
-- The parts of Go's `strconv` and `strings` that the program uses on decimal numbers and on texts.
pub mod Digits
use Prim.Native.String
use interlook.Prelude.{
  split, List, [], ◌∷◌, ◌==◌, eqb, ℕ, zero, suc, ◌+◌, ◌-◌, ◌*◌, ◌/◌, ◌%◌, ◌^◌, String, Char, code,
  Bool, ◌&&◌, ◌||◌, Option, none, some, ltb, leb, if◌then◌else◌, starts_with,
}

pub digit_char : ℕ → Char
digit_char zero = "0"
digit_char (suc zero) = "1"
digit_char (suc (suc zero)) = "2"
digit_char (suc (suc (suc zero))) = "3"
digit_char (suc (suc (suc (suc zero)))) = "4"
digit_char (suc (suc (suc (suc (suc zero))))) = "5"
digit_char (suc (suc (suc (suc (suc (suc zero)))))) = "6"
digit_char (suc (suc (suc (suc (suc (suc (suc zero))))))) = "7"
digit_char (suc (suc (suc (suc (suc (suc (suc (suc zero)))))))) = "8"
digit_char (suc (suc (suc (suc (suc (suc (suc (suc (suc n))))))))) = "9"

-- `strconv.Itoa` of a number that is not negative: the last digit is written in front of `after`.
-- The fuel bounds the number of digits.
unfoldable pub itoa_before : ℕ → ℕ → String → String
unfolding digit_char
itoa_before zero n after = after
itoa_before (suc f) n after =
    let digit = String.◌∷◌ (digit_char (n % 10)) after in
    let more = itoa_before f (n / 10) digit in if ltb n 10 then digit else more

unfoldable pub itoa : ℕ → String
unfolding itoa_before
itoa n = itoa_before (suc n) n String.[]

-- The value of a text of digits, read from the left; `none` if another character is met. Like
-- `strconv.ParseUint`, it stops at the first value that passes 64 bits.
unfoldable pub digits_value : ℕ → String → Option ℕ
digits_value acc String.[] = some acc
digits_value acc (String.◌∷◌ ch s) =
    let value = acc * 10 + (code ch - b'0') in
    let rest = digits_value value s in
    if leb b'0' (code ch) && leb (code ch) b'9'
    then (if leb (2 ^ 64) value then some value else rest)
    else none

-- the digits of a number; Atoi refuses the empty text
unfoldable pub all_digits : String → Option ℕ
unfolding digits_value
all_digits String.[] = none
all_digits (String.◌∷◌ ch s) = digits_value 0 (String.◌∷◌ ch s)

-- The integers of Go's `int`; `negsuc n` is -(n + 1).
pub data ℤ : Type 0 where
  pos : ℕ → ℤ
  negsuc : ℕ → ℤ

abbrev pub above : Option ℕ → Option ℤ
above none = none
above (some n) = if leb (2 ^ 63) n then none else some (pos n)

abbrev pub below : Option ℕ → Option ℤ
below none = none
below (some zero) = some (pos 0)
below (some (suc n)) = if leb (2 ^ 63) n then none else some (negsuc n)

-- `strconv.Atoi`; `none` is an error of the syntax or of the range.
unfoldable pub atoi : String → Option ℤ
unfolding all_digits
atoi String.[] = none
atoi (String.◌∷◌ ch s) =
    if eqb (code ch) b'+'
    then above (all_digits s)
    else if eqb (code ch) b'-'
    then below (all_digits s)
    else above (all_digits (String.◌∷◌ ch s))

-- the conversion to `uint32`
unfoldable pub uint32_of : ℤ → ℕ
uint32_of (pos n) = n % 2 ^ 32
uint32_of (negsuc n) = 2 ^ 32 - 1 - n % 2 ^ 32

-- the value of `strconv.ParseBool`, whose error is dropped
unfoldable pub parse_bool : String → Bool
parse_bool s = s == "1" || (s == "t" || (s == "T" || (s == "TRUE" || (s == "true" || s == "True"))))

-- The texts one after the other.
abbrev pub text : List String → String
text [] = ""
text (s ∷ ss) = String.◌++◌ s (text ss)

-- The texts with `sep` between them, as by `strings.Join`.
unfoldable pub join_by : String → List String → String
join_by sep [] = ""
join_by sep (s ∷ []) = s
join_by sep (s ∷ t ∷ ss) = text (s ∷ sep ∷ join_by sep (t ∷ ss) ∷ [])

-- `strings.Contains(s, part)`
unfoldable pub contains : String → String → Bool
contains String.[] part = starts_with String.[] part
contains (String.◌∷◌ ch s) part = starts_with (String.◌∷◌ ch s) part || contains s part

abbrev pub last_or : String → List String → String
last_or d [] = d
last_or d (s ∷ ss) = last_or s ss

-- What follows the last colon, and the whole text if there is none.
unfoldable pub after_colon : String → String
unfolding split
after_colon s = last_or "" (split b':' s)
