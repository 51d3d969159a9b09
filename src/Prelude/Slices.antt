-- ===== src/Prelude/Slices.antt =====
-- Parts of lists: laws of `take`, `drop` and `++`.
use Prim.Native.Nat.{ℕ, zero, suc, ◌≤◌, min}
use mathlib.Core.Path.{◌≡◌, refl, ap, ◌∙◌, sym}
use mathlib.Core.List.{List, [], ◌∷◌, ◌++◌, append_assoc}
use native.Mathlib.Omega.{arith}
use iq_tool.Prelude.Lists.{length, take, drop}

module _ {ℓ} {A : Type ℓ} where
  pub append_cancel_take : (xs ys : List A) → take (length xs) (xs ++ ys) ≡ xs
  append_cancel_take [] ys = refl
  append_cancel_take (x ∷ xs) ys = ap (λ t. x ∷ t) (append_cancel_take xs ys)

  pub take-front : (n : ℕ) (xs ys : List A) → length xs ≡ n → take n (xs ++ ys) ≡ xs
  take-front n xs ys e = ap (λ k. take k (xs ++ ys)) (sym e) ∙ append_cancel_take xs ys

  pub append_cancel_drop : (xs ys : List A) → drop (length xs) (xs ++ ys) ≡ ys
  append_cancel_drop [] ys = refl
  append_cancel_drop (x ∷ xs) ys = append_cancel_drop xs ys

  pub drop-front : (n : ℕ) (xs ys : List A) → length xs ≡ n → drop n (xs ++ ys) ≡ ys
  drop-front n xs ys e = ap (λ k. drop k (xs ++ ys)) (sym e) ∙ append_cancel_drop xs ys

  pub take-append-drop : (n : ℕ) (xs : List A) → take n xs ++ drop n xs ≡ xs
  take-append-drop zero xs = refl
  take-append-drop (suc n) [] = refl
  take-append-drop (suc n) (x ∷ xs) = ap (λ t. x ∷ t) (take-append-drop n xs)

  pub take_all : (n : ℕ) (xs : List A) → length xs ≤ n → take n xs ≡ xs
  take_all zero [] h = refl
  take_all zero (x ∷ xs) h = absurd (omega arith)
  take_all (suc n) [] h = refl
  take_all (suc n) (x ∷ xs) h = ap (λ t. x ∷ t) (take_all n xs (omega arith))

  -- Both sides of an equation grow at the back by the same list.
  pub append_both :
      (ws xs gs cs ns cs' : List A)
      → ws ++ xs ≡ gs ++ cs
      → cs' ≡ cs ++ ns
      → ws ++ (xs ++ ns) ≡ gs ++ cs'
  append_both ws xs gs cs ns cs' e f =
      sym (append_assoc ws xs ns)
      ∙ ap (λ t. t ++ ns) e
      ∙ append_assoc gs cs ns
      ∙ ap (λ t. gs ++ t) (sym f)

  -- The front of the second part moves to the first part.
  pub append_between :
      (ws gs cs os cs' : List A) → ws ≡ gs ++ cs → cs ≡ os ++ cs' → ws ≡ (gs ++ os) ++ cs'
  append_between ws gs cs os cs' e f = e ∙ ap (λ t. gs ++ t) f ∙ sym (append_assoc gs os cs')

  pub take-min : (n : ℕ) (xs : List A) → take (min n (length xs)) xs ≡ take n xs
  take-min zero xs = ap (λ k. take k xs) e
    where
      e : min zero (length xs) ≡ zero
      e = omega arith
  take-min (suc n) [] = ap (λ k. take k []) e
    where
      e : min (suc n) zero ≡ zero
      e = omega arith
  take-min (suc n) (x ∷ xs) = ap (λ k. take k (x ∷ xs)) e ∙ ap (λ t. x ∷ t) (take-min n xs)
    where
      e : min (suc n) (suc (length xs)) ≡ suc (min n (length xs))
      e = omega arith

  pub drop-min : (n : ℕ) (xs : List A) → drop (min n (length xs)) xs ≡ drop n xs
  drop-min zero xs = ap (λ k. drop k xs) e
    where
      e : min zero (length xs) ≡ zero
      e = omega arith
  drop-min (suc n) [] = ap (λ k. drop k []) e
    where
      e : min (suc n) zero ≡ zero
      e = omega arith
  drop-min (suc n) (x ∷ xs) = ap (λ k. drop k (x ∷ xs)) e ∙ drop-min n xs
    where
      e : min (suc n) (suc (length xs)) ≡ suc (min n (length xs))
      e = omega arith

pub take-nil {ℓ} : (A : Type ℓ) (n : ℕ) → take {A = A} n [] ≡ []
take-nil A zero = refl
take-nil A (suc n) = refl

pub drop-nil {ℓ} : (A : Type ℓ) (n : ℕ) → drop {A = A} n [] ≡ []
drop-nil A zero = refl
drop-nil A (suc n) = refl
