-- ===== src/Prelude/Exec.antt =====
-- Methods that change a state and may raise: what was written before a raise stays written, so the
-- state comes back beside the error too.

use mathlib.Core.List.{List, [], ◌∷◌}

pub data Result {ℓ} (E A : Type ℓ) : Type ℓ where
  ok : A → Result E A
  err : E → Result E A

abbrev pub Exec {ℓ} : Type ℓ → Type ℓ → Type ℓ → Type ℓ
Exec E S A = S → Result E A × S

module _ {ℓ} {E S A : Type ℓ} where
  abbrev pub pure : A → Exec E S A
  pure a s = (ok a, s)

  abbrev pub raise : E → Exec E S A
  raise e s = (err e, s)

module _ {ℓ} {E S A B : Type ℓ} where
  abbrev pub go_on : Result E A → (A → Exec E S B) → Exec E S B
  go_on (ok a) f s = f a s
  go_on (err e) f s = (err e, s)

  infixl 5 ◌>>=◌ ◌>>◌
  abbrev pub ◌>>=◌ : Exec E S A → (A → Exec E S B) → Exec E S B
  ◌>>=◌ m f s = let (r, s') = m s in go_on r f s'

  abbrev pub ◌>>◌ : Exec E S A → Exec E S B → Exec E S B
  m >> n = m >>= λ _. n

module _ {ℓ} {E S A : Type ℓ} where
  -- A call that changes nothing
  abbrev pub read : (S → Result E A) → Exec E S A
  read f s = (f s, s)

module _ {E S A : Type 0} where
  -- for a in list: f(a)
  unfoldable pub for_each : (A → Exec E S Unit) → List A → Exec E S Unit
  for_each f [] = pure tt
  for_each f (a ∷ rest) = f a >> for_each f rest
