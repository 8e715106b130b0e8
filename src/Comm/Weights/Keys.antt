-- ===== src/Comm/Weights/Keys.antt =====
-- comm/message.go, `SetTargetWeight`: the keys of the map are read back as hosts and ports.
use Prim.Native.String
use interlook.Prelude.{
  eqb_ne, code, ℕ, ◌^◌, ◌<◌, String, ◌≡◌, refl, ap, ◌∙◌, inr, [], ◌∷◌, arith, Lacks, split,
  split-append, split-Lacks,
}
use interlook.Strconv.{itoa, all_digits}
use interlook.Strconv.Digits.{StartsDigit, StartsDigit-itoa, all_digits-itoa, Lacks-itoa}
use interlook.Comm.{Target}
use interlook.Comm.Weights.{positive_port, parse_port, key_of, target_of}

-- A host without a colon, and a port of 32 bits: what the map's keys can be read back from.
pub record IsPlain (t : Target) : Type 0 where
  pub host : Lacks b':' t.host
  pub port : t.port < 2 ^ 32

parse_port-start : (s : String) → StartsDigit s → parse_port s ≡ positive_port (all_digits s)
unfolding parse_port
parse_port-start String.[] h = absurd h
parse_port-start (String.◌∷◌ ch s) h =
    rw (eqb_ne (code ch) b'+' (omega arith), eqb_ne (code ch) b'-' (omega arith)) refl

parse_port-itoa : (n : ℕ) → n < 2 ^ 32 → parse_port (itoa n) ≡ n
parse_port-itoa n small =
    parse_port-start (itoa n) (StartsDigit-itoa n)
    ∙ ap positive_port (all_digits-itoa n (omega arith))
    ∙ ground arith

-- The key of a target is read back as its host and port.
pub target_of-key_of :
    (t : Target) (w : ℕ) → IsPlain t → target_of (key_of t, w) ≡ record t { weight = w }
unfolding target_of key_of
target_of-key_of t w plain =
    let parts : split b':' (String.◌++◌ t.host (String.◌∷◌ ":" (itoa t.port)))
        ≡ t.host ∷ itoa t.port ∷ [] =
      split-append ":" t.host (itoa t.port) plain.host
      ∙ ap (λ l. t.host ∷ l)
          (split-Lacks b':' (itoa t.port) (Lacks-itoa b':' t.port (inr (omega arith)))) in
    rw (parts, parse_port-itoa t.port plain.port) refl
