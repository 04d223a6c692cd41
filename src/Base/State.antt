-- ===== src/Base/State.antt =====
-- Functions of the programs that read and change a state.
use mathlib.Core.Bool.{Bool, true, false}

-- A call: it returns a value and the new state.
abbrev pub State : Type 0 → Type 0 → Type 0
State S A = S → A × S

module _ {S : Type 0} where
  infixl 5 ◌>>=◌ ◌>>◌
  unfoldable pub pure : {A : Type 0} → A → State S A
  pure a s = (a, s)

  unfoldable pub ◌>>=◌ : {A B : Type 0} → State S A → (A → State S B) → State S B
  ◌>>=◌ m f s = let (a, s') = m s in f a s'

  unfoldable pub ◌>>◌ : {B : Type 0} → State S (Unit {0}) → State S B → State S B
  unfolding ◌>>=◌
  m >> k = m >>= λ _. k

  unfoldable pub get : State S S
  get s = (s, s)

  unfoldable pub modify : (S → S) → State S (Unit {0})
  modify f s = (tt, f s)

  -- `if (b) m;`
  unfoldable pub when : Bool → State S (Unit {0}) → State S (Unit {0})
  unfolding pure
  when true m = m
  when false m = pure tt
