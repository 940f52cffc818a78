-- ===== src/Base/Lists.antt =====
-- Lists measured by native numbers, Python's `any` and `all`, and predicates on every item.
use Prim.Native.Nat.{ℕ, zero, suc, ◌+◌, ◌≤◌}
use mathlib.Core.Path.{◌≡◌, refl, ap, ◌∙◌}
use mathlib.Core.Logic.{inl, inr}
use mathlib.Core.Bool.{Bool, true, false, ◌&&◌, ◌||◌}
use mathlib.Core.List.{List, [], ◌∷◌, ◌++◌, map}
use native.Mathlib.Omega.{arith}
use web_access_mcp_server.Base.Tests.{Bool-cases, or_left, or_right}

module _ {ℓ} {A : Type ℓ} where
  abbrev pub length : List A → ℕ
  length [] = 0
  length (x ∷ xs) = suc (length xs)

  -- `any(p(x) for x in xs)` and `all(p(x) for x in xs)`
  abbrev pub any : (A → Bool) → List A → Bool
  any p [] = false
  any p (x ∷ xs) = p x || any p xs

  abbrev pub all : (A → Bool) → List A → Bool
  all p [] = true
  all p (x ∷ xs) = p x && all p xs

  -- `xs[:n]`
  abbrev pub take : ℕ → List A → List A
  take zero xs = []
  take (suc n) [] = []
  take (suc n) (x ∷ xs) = x ∷ take n xs

  abbrev pub drop : ℕ → List A → List A
  drop zero xs = xs
  drop (suc n) [] = []
  drop (suc n) (x ∷ xs) = drop n xs

  abbrev pub concat : List (List A) → List A
  concat [] = []
  concat (xs ∷ xss) = xs ++ concat xss

  -- `[x for x in xs if p(x)]`
  abbrev pub select : (A → Bool) → List A → List A
  select p [] = []
  select p (x ∷ xs) = let rest = select p xs in elim (p x) [ true ↦ x ∷ rest | false ↦ rest ]

  pub length-append : (xs ys : List A) → length (xs ++ ys) ≡ length xs + length ys
  length-append [] ys = omega arith
  length-append (x ∷ xs) ys = omega (arith, length-append xs ys)

  pub length-map : (f : A → A) (xs : List A) → length (map f xs) ≡ length xs
  length-map f [] = refl
  length-map f (x ∷ xs) = ap suc (length-map f xs)

  pub select-true :
      (p : A → Bool) (x : A) (xs : List A) → p x ≡ true → select p (x ∷ xs) ≡ x ∷ select p xs
  select-true p x xs e = rw (select, e) refl

  pub select-false :
      (p : A → Bool) (x : A) (xs : List A) → p x ≡ false → select p (x ∷ xs) ≡ select p xs
  select-false p x xs e = rw (select, e) refl

  -- Selection and a map that the test does not see may change places.
  pub select-map :
      (p : A → Bool) (f : A → A) (xs : List A)
      → ((x : A) → p (f x) ≡ p x)
      → select p (map f xs) ≡ map f (select p xs)
  select-map p f [] h = refl
  select-map p f (x ∷ xs) h = elim (Bool-cases (p x)) [
    | inl e ↦
        rw (select-true p x xs e, select-true p (f x) (map f xs) (h x ∙ e))
          (ap (λ l. f x ∷ l) (select-map p f xs h))
    | inr e ↦
        rw (select-false p x xs e, select-false p (f x) (map f xs) (h x ∙ e)) (select-map p f xs h)
  ]

  pub select-append :
      (p : A → Bool) (xs ys : List A) → select p (xs ++ ys) ≡ select p xs ++ select p ys
  select-append p [] ys = refl
  select-append p (x ∷ xs) ys = elim (Bool-cases (p x)) [
    | inl e ↦
        rw (select-true p x xs e, select-true p x (xs ++ ys) e)
          (ap (λ l. x ∷ l) (select-append p xs ys))
    | inr e ↦ rw (select-false p x xs e, select-false p x (xs ++ ys) e) (select-append p xs ys)
  ]

  -- What is not there is not selected.
  pub select-any : (p : A → Bool) (xs : List A) → any p xs ≡ false → select p xs ≡ []
  select-any p [] h = refl
  select-any p (x ∷ xs) h =
      rw (select-false p x xs (or_left (p x) (any p xs) h))
        (select-any p xs (or_right (p x) (any p xs) h))

  pub length-select-append :
      (p : A → Bool) (xs ys : List A)
      → length (select p (xs ++ ys)) ≡ length (select p xs) + length (select p ys)
  length-select-append p [] ys = omega arith
  length-select-append p (x ∷ xs) ys = elim (Bool-cases (p x)) [
    | inl e ↦
        rw (select-true p x xs e, select-true p x (xs ++ ys) e)
          (omega (arith, length-select-append p xs ys))
    | inr e ↦
        rw (select-false p x xs e, select-false p x (xs ++ ys) e) (length-select-append p xs ys)
  ]

  pub length-select : (p : A → Bool) (xs : List A) → length (select p xs) ≤ length xs
  length-select p [] = omega arith
  length-select p (x ∷ xs) = elim (Bool-cases (p x)) [
    | inl e ↦ rw (select-true p x xs e) (omega (arith, length-select p xs))
    | inr e ↦ rw (select-false p x xs e) (omega (arith, length-select p xs))
  ]

  -- A second condition leaves no more.
  pub length-select-select :
      (p q : A → Bool) (xs : List A) → length (select p (select q xs)) ≤ length (select p xs)
  length-select-select p q [] = omega arith
  length-select-select p q (x ∷ xs) = elim (Bool-cases (q x)) [
    | inl e' ↦ elim (Bool-cases (p x)) [
      | inl e ↦
          rw (select-true q x xs e', select-true p x xs e, select-true p x (select q xs) e)
            (omega (arith, length-select-select p q xs))
      | inr e ↦
          rw (select-true q x xs e', select-false p x xs e, select-false p x (select q xs) e)
            (length-select-select p q xs)
    ]
    | inr e' ↦ elim (Bool-cases (p x)) [
      | inl e ↦
          rw (select-false q x xs e', select-true p x xs e)
            (omega (arith, length-select-select p q xs))
      | inr e ↦ rw (select-false q x xs e', select-false p x xs e) (length-select-select p q xs)
    ]
  ]

  -- A weaker condition leaves no less.
  pub length-select_mono :
      (p q : A → Bool) (xs : List A)
      → ((x : A) → p x ≡ true → q x ≡ true)
      → length (select p xs) ≤ length (select q xs)
  length-select_mono p q [] f = omega arith
  length-select_mono p q (x ∷ xs) f = elim (Bool-cases (q x)) [
    | inl e' ↦ elim (Bool-cases (p x)) [
      | inl e ↦
          rw (select-true q x xs e', select-true p x xs e)
            (omega (arith, length-select_mono p q xs f))
      | inr e ↦
          rw (select-true q x xs e', select-false p x xs e)
            (omega (arith, length-select_mono p q xs f))
    ]
    | inr e' ↦ elim (Bool-cases (p x)) [
      | inl e ↦ cc (f x e, e')
      | inr e ↦ rw (select-false q x xs e', select-false p x xs e) (length-select_mono p q xs f)
    ]
  ]

module _ {ℓ κ} {A : Type ℓ} where
  abbrev pub All : (A → Type κ) → List A → Type κ
  All P [] = Unit
  All P (x ∷ xs) = P x × All P xs

  pub All-append : (P : A → Type κ) (xs ys : List A) → All P xs → All P ys → All P (xs ++ ys)
  All-append P [] ys hx hy = hy
  All-append P (x ∷ xs) ys hx hy = (hx.0, All-append P xs ys hx.1 hy)

  pub All-select : (P : A → Type κ) (p : A → Bool) (xs : List A) → All P xs → All P (select p xs)
  All-select P p [] h = tt
  All-select P p (x ∷ xs) h = elim (Bool-cases (p x)) [
    | inl e ↦ rw (select-true p x xs e) (h.0, All-select P p xs h.1)
    | inr e ↦ rw (select-false p x xs e) (All-select P p xs h.1)
  ]

  pub All-mono : (P Q : A → Type κ) (xs : List A) → ((x : A) → P x → Q x) → All P xs → All Q xs
  All-mono P Q [] f h = tt
  All-mono P Q (x ∷ xs) f h = (f x h.0, All-mono P Q xs f h.1)
