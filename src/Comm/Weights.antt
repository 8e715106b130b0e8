-- ===== src/Comm/Weights.antt =====
-- comm/message.go, `SetTargetWeight`: equal targets are merged into one whose weight is their
-- number. The code counts in a map keyed by "host:port" and reads the keys back. Go ranges over a
-- map in no fixed order: `order` is the order taken.
pub mod Keys
pub mod Counts
use Prim.Native.String
use interlook.Prelude.{
  ℕ, ◌+◌, ◌-◌, ◌%◌, ◌^◌, String, code, Option, none, some, List, [], ◌∷◌, map, ◌==◌, eqb, leb,
  if◌then◌else◌, split, first_or,
}
use interlook.Strconv.{itoa, all_digits}
use interlook.Comm.{Target, Message}

-- A map from texts to numbers.
abbrev pub Tally : Type 0
Tally = List (String × ℕ)

abbrev pub uint32 : ℕ → ℕ
uint32 n = n % 2 ^ 32

-- `uint32(p)` for the `p` of `p, _ := strconv.Atoi(s)` on digits after a plus or a minus: a syntax
-- error leaves 0, an overflow the nearest int64.
abbrev pub positive_port : Option ℕ → ℕ
positive_port none = 0
positive_port (some n) = if leb (2 ^ 63) n then uint32 (2 ^ 63 - 1) else uint32 n

abbrev negative_port : Option ℕ → ℕ
negative_port none = 0
negative_port (some n) = if leb (2 ^ 63) n then 0 else (2 ^ 32 - uint32 n) % 2 ^ 32

unfoldable pub parse_port : String → ℕ
unfolding all_digits
parse_port String.[] = 0
parse_port (String.◌∷◌ ch s) =
    if eqb (code ch) b'+'
    then positive_port (all_digits s)
    else if eqb (code ch) b'-'
    then negative_port (all_digits s)
    else positive_port (all_digits (String.◌∷◌ ch s))

-- wl[key] += 1
unfoldable pub bump : String → Tally → Tally
bump key [] = (key, 1) ∷ []
bump key ((k, n) ∷ tally) = if k == key then (k, n + 1) ∷ tally else (k, n) ∷ bump key tally

unfoldable pub key_of : Target → String
unfolding itoa
key_of t = String.◌++◌ t.host (String.◌∷◌ ":" (itoa t.port))

unfoldable pub tally_of : Tally → List Target → Tally
unfolding bump key_of
tally_of tally [] = tally
tally_of tally (t ∷ ts) = tally_of (bump (key_of t) tally) ts

-- the second of the parts
abbrev pub second_or : String → List String → String
second_or d [] = d
second_or d (_ ∷ parts) = first_or d parts

unfoldable pub target_of : String × ℕ → Target
unfolding parse_port
target_of (h, w) =
    let hp = split b':' h in
    record { host = first_or "" hp; port = parse_port (second_or "" hp); weight = w }

module _ (order : Tally → Tally) where
  unfoldable pub weighted : List Target → List Target
  unfolding tally_of target_of
  weighted ts = map target_of (order (tally_of [] ts))

  unfoldable pub set_target_weight : Message → Message
  unfolding weighted
  set_target_weight m = record m {
    service = record (m.service) { targets = weighted m.service.targets };
  }
