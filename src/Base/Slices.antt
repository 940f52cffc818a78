-- ===== src/Base/Slices.antt =====
-- The slices and the concatenation of lists.
use Prim.Native.Nat.{ℕ, zero, suc, ◌+◌, ◌-◌, ◌≤◌}
use mathlib.Core.Path.{◌≡◌, refl, sym, ap, ◌∙◌}
use mathlib.Core.List.{List, [], ◌∷◌, ◌++◌}
use native.Mathlib.Omega.{arith}
use web_access_mcp_server.Base.Lists.{length, take, drop}

suc_add : (m n : ℕ) → suc m + n ≡ suc (m + n)
suc_add m n = omega arith

module _ {ℓ} {A : Type ℓ} where
  pub length-take : (n : ℕ) (xs : List A) → length (take n xs) ≤ n
  length-take zero xs = omega arith
  length-take (suc n) [] = omega arith
  length-take (suc n) (x ∷ xs) = omega (arith, length-take n xs)

  pub append_nil : (xs : List A) → xs ++ [] ≡ xs
  append_nil [] = refl
  append_nil (x ∷ xs) = ap (λ l. x ∷ l) (append_nil xs)

  pub append_assoc : (xs ys zs : List A) → (xs ++ ys) ++ zs ≡ xs ++ (ys ++ zs)
  append_assoc [] ys zs = refl
  append_assoc (x ∷ xs) ys zs = ap (λ l. x ∷ l) (append_assoc xs ys zs)

  pub take_all : (n : ℕ) (xs : List A) → length xs ≤ n → take n xs ≡ xs
  take_all zero [] h = refl
  take_all zero (x ∷ xs) h = absurd (omega (arith, h))
  take_all (suc n) [] h = refl
  take_all (suc n) (x ∷ xs) h = ap (λ l. x ∷ l) (take_all n xs (omega (arith, h)))

  -- Of a list that is long enough, all are taken.
  pub length-take_enough : (n : ℕ) (xs : List A) → n ≤ length xs → length (take n xs) ≡ n
  length-take_enough zero xs h = refl
  length-take_enough (suc n) [] h = absurd (omega (arith, h))
  length-take_enough (suc n) (x ∷ xs) h = ap suc (length-take_enough n xs (omega (arith, h)))

  pub take-append :
      (n : ℕ) (xs ys : List A) → length xs ≤ n → take n (xs ++ ys) ≡ xs ++ take (n - length xs) ys
  take-append n [] ys h = ap (λ m. take m ys) (omega arith)
  take-append zero (x ∷ xs) ys h = absurd (omega (arith, h))
  take-append (suc n) (x ∷ xs) ys h =
      ap (λ l. x ∷ l)
        (take-append n xs ys (omega (arith, h)) ∙ ap (λ m. xs ++ take m ys) (omega arith))

  pub take-append_left : (n : ℕ) (xs ys : List A) → n ≤ length xs → take n (xs ++ ys) ≡ take n xs
  take-append_left zero xs ys h = refl
  take-append_left (suc n) [] ys h = absurd (omega (arith, h))
  take-append_left (suc n) (x ∷ xs) ys h =
      ap (λ l. x ∷ l) (take-append_left n xs ys (omega (arith, h)))

  pub take-drop : (n : ℕ) (xs : List A) → take n xs ++ drop n xs ≡ xs
  take-drop zero xs = refl
  take-drop (suc n) [] = refl
  take-drop (suc n) (x ∷ xs) = ap (λ l. x ∷ l) (take-drop n xs)

  pub take_add : (m n : ℕ) (xs : List A) → take (m + n) xs ≡ take m xs ++ take n (drop m xs)
  take_add zero n xs = ap (λ k. take k xs) (omega arith)
  take_add (suc m) n [] = take_none (suc m + n) ∙ sym (take_none n)
    where
      take_none : (k : ℕ) → take {A = A} k [] ≡ []
      take_none zero = refl
      take_none (suc k) = refl
  take_add (suc m) n (x ∷ xs) =
      ap (λ k. take k (x ∷ xs)) (suc_add m n) ∙ ap (λ l. x ∷ l) (take_add m n xs)

  pub drop_add : (m n : ℕ) (xs : List A) → drop (m + n) xs ≡ drop n (drop m xs)
  drop_add zero n xs = ap (λ k. drop k xs) (omega arith)
  drop_add (suc m) n [] = drop_none (suc m + n) ∙ sym (drop_none n)
    where
      drop_none : (k : ℕ) → drop {A = A} k [] ≡ []
      drop_none zero = refl
      drop_none (suc k) = refl
  drop_add (suc m) n (x ∷ xs) = ap (λ k. drop k (x ∷ xs)) (suc_add m n) ∙ drop_add m n xs

  pub length-drop : (n : ℕ) (xs : List A) → length (drop n xs) ≡ length xs - n
  length-drop zero xs = omega arith
  length-drop (suc n) [] = omega arith
  length-drop (suc n) (x ∷ xs) = omega (arith, length-drop n xs)
