-- ===== src/Base/Effects.antt =====
-- Code that may raise, and code that changes a state and may raise: what was written before a
-- `raise` stays written, so the state comes back beside the error too.

use mathlib.Core.Path.{◌≡◌, refl}
use native.Mathlib.Omega.{arith}
use mathlib.Core.Logic.{◌⊎◌, inl, inr}

pub data Result {ℓ} (E A : Type ℓ) : Type ℓ where
  ok : A → Result E A
  raised : E → Result E A

-- a value of code that raises, used by what follows
abbrev pub and_then {ℓ} : {E A B : Type ℓ} → Result E A → (A → Result E B) → Result E B
and_then (ok a) go = go a
and_then (raised e) go = raised e

-- What it takes to return a value.
pub and_then-ok {ℓ} :
    {E A B : Type ℓ} (r : Result E A) (go : A → Result E B) (b : B)
    → and_then r go ≡ ok b
    → (a : A) × ((r ≡ ok a) × (go a ≡ ok b))
and_then-ok (ok a) go b h = (a, (refl, h))
and_then-ok (raised e) go b h = ground arith

abbrev pub Block {ℓ} : Type ℓ → Type ℓ → Type ℓ → Type ℓ
Block E S A = S → Result E A × S

module _ {ℓ} {E S A : Type ℓ} where
  abbrev pub pure : A → Block E S A
  pure a s = (ok a, s)

  abbrev pub raise : E → Block E S A
  raise e s = (raised e, s)

  abbrev pub lift : Result E A → Block E S A
  lift r s = (r, s)

  abbrev on_raised : Result E A → (E → Block E S A) → Block E S A
  on_raised (ok a) handler s = (ok a, s)
  on_raised (raised e) handler s = handler e s

  -- `try: m` and its `except` clauses
  abbrev pub try_except : Block E S A → (E → Block E S A) → Block E S A
  try_except m handler s = let (r, s') = m s in on_raised r handler s'

abbrev pub modify {ℓ} : {E S : Type ℓ} → (S → S) → Block E S (Unit {ℓ})
modify f s = (ok tt, f s)

module _ {ℓ} {E S A B : Type ℓ} where
  abbrev on_ok : Result E A → (A → Block E S B) → Block E S B
  on_ok (ok a) f s = f a s
  on_ok (raised e) f s = (raised e, s)

  infixl 5 ◌>>=◌ ◌>>◌
  abbrev pub ◌>>=◌ : Block E S A → (A → Block E S B) → Block E S B
  ◌>>=◌ m f s = let (r, s') = m s in on_ok r f s'

  abbrev pub ◌>>◌ : Block E S A → Block E S B → Block E S B
  m >> k = m >>= λ _. k

pub Result-cases {ℓ} :
    {E A : Type ℓ} (r : Result E A) → ((a : A) × (r ≡ ok a)) ⊎ ((e : E) × (r ≡ raised e))
Result-cases (ok a) = inl (a, refl)
Result-cases (raised e) = inr (e, refl)

-- A postcondition on what a block returns, and one on what it leaves when it raises.
abbrev pub Ensures {ℓ κ} :
    {E S A : Type ℓ} → (A → S → Type κ) → (E → S → Type κ) → Result E A × S → Type κ
Ensures Q X (ok a, s) = Q a s
Ensures Q X (raised e, s) = X e s

module _ {ℓ κ} {E S A B : Type ℓ} (P : A → S → Type κ) (Q : B → S → Type κ)
    (X : E → S → Type κ) where
  -- the rule for a block that goes on with what another returned
  pub bind-Ensures :
      (m : Block E S A) (f : A → Block E S B) (s : S)
      → Ensures P X (m s)
      → ((a : A) (s' : S) → P a s' → Ensures Q X (f a s'))
      → Ensures Q X ((m >>= f) s)
  bind-Ensures m f s h k = go (m s) h
    where
      go : (p : Result E A × S) → Ensures P X p → Ensures Q X (on_ok p.0 f p.1)
      go (ok a, s') h' = k a s' h'
      go (raised e, s') h' = h'

-- A weaker postcondition.
pub Ensures-mono {ℓ κ} :
    {E S A : Type ℓ} (P Q : A → S → Type κ) (X : E → S → Type κ) (p : Result E A × S)
    → ((a : A) (s : S) → P a s → Q a s)
    → Ensures P X p
    → Ensures Q X p
Ensures-mono P Q X (ok a, s) f h = f a s h
Ensures-mono P Q X (raised e, s) f h = h
