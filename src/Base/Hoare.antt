-- ===== src/Base/Hoare.antt =====
-- Calls that lead from one condition to another, on what a view shows of the state.
use mathlib.Core.Path.{◌≡◌, refl}
use mathlib.Core.Bool.{Bool, true, false}
use nxremote_api.Base.State.{State, pure, ◌>>=◌, ◌>>◌}

pub record Hoare {S V : Type 0} (view : S → V) {A : Type 0} (P : V → Type 0) (m : State S A)
    (Q : A → V → Type 0) : Type 0 where
  pub run : (s : S) → P (view s) → Q (m s).0 (view (m s).1)

module _ {S V : Type 0} {view : S → V} {P : V → Type 0} where
  pub Hoare-bind :
      {A B : Type 0} {m : State S A} {f : A → State S B} {Q : A → V → Type 0} {R : B → V → Type 0}
      → Hoare view P m Q
      → ((a : A) → Hoare view (Q a) (f a) R)
      → Hoare view P (m >>= f) R
  unfolding ◌>>=◌
  Hoare-bind {m} hm hf = record { run = λ s h. (hf (m s).0).run (m s).1 (hm.run s h) }

  pub Hoare-seq :
      {A : Type 0} {m : State S (Unit {0})} {k : State S A} {Q : V → Type 0} {R : A → V → Type 0}
      → Hoare view P m (λ _. Q)
      → Hoare view Q k R
      → Hoare view P (m >> k) R
  unfolding ◌>>◌
  Hoare-seq hm hk = Hoare-bind hm λ _. hk

  pub Hoare-pure :
      {A : Type 0} (a : A) {Q : A → V → Type 0} → ((v : V) → P v → Q a v) → Hoare view P (pure a) Q
  unfolding pure
  Hoare-pure a h = record { run = λ s. h (view s) }

  pub Hoare-weaken :
      {A : Type 0} {m : State S A} {Q : V → Type 0} {R : A → V → Type 0}
      → ((v : V) → P v → Q v)
      → Hoare view Q m R
      → Hoare view P m R
  Hoare-weaken h hm = record { run = λ s e. hm.run s (h (view s) e) }

  pub Hoare-cases :
      {A : Type 0} (b : Bool) {m n : State S A} {Q : A → V → Type 0}
      → (b ≡ true → Hoare view P m Q)
      → (b ≡ false → Hoare view P n Q)
      → Hoare view P (elim b [ true ↦ m | false ↦ n ]) Q
  Hoare-cases true hm hn = hm refl
  Hoare-cases false hm hn = hn refl
