-- ===== src/Calls.antt =====
-- Calls to a system outside of the program. Its state is the type `W`. An error ends a sequence of
-- calls, and what was done before it stays.
use interlook.Prelude.{String}

pub data Result (A : Type 0) : Type 0 where
  ok : A → Result A
  failed : String → Result A

-- What a call does to the state, and what it returns.
abbrev pub Act : Type 0 → Type 0 → Type 0
Act W A = W → W × Result A

abbrev continue : {W A B : Type 0} → W × Result A → (A → Act W B) → W × Result B
continue (w, ok a) f = f a w
continue (w, failed e) f = (w, failed e)

infixl 5 ◌>>=◌ ◌>>◌
abbrev pub ◌>>=◌ : {W A B : Type 0} → Act W A → (A → Act W B) → Act W B
m >>= f = λ w. continue (m w) f

abbrev pub ◌>>◌ : {W A B : Type 0} → Act W A → Act W B → Act W B
m >> n = m >>= λ _. n

abbrev pub pure : {W A : Type 0} → A → Act W A
pure a = λ w. (w, ok a)

abbrev pub fails : {W A : Type 0} → String → Act W A
fails e = λ w. (w, failed e)

abbrev reworded : {W A : Type 0} → (String → String) → W × Result A → W × Result A
reworded f (w, ok a) = (w, ok a)
reworded f (w, failed e) = (w, failed (f e))

-- The error of `m` becomes `f` of it.
abbrev pub rewording : {W A : Type 0} → (String → String) → Act W A → Act W A
rewording f m = λ w. reworded f (m w)
