-- ===== src/Prelude/Lists.antt =====
-- C arrays as lists with native indices, under the library's names, and `memcpy` between them.
use Prim.Native.Nat.{◌≤◌, ℕ, zero, suc, ◌+◌, ◌-◌, ◌<◌, min}
use mathlib.Core.Path.{◌≡◌, refl, ap, ap₂, ◌∙◌}
use mathlib.Core.List.{List, [], ◌∷◌, ◌++◌}
use mathlib.Core.Option.{Option, none, some}
use native.Mathlib.Omega.{arith}
use iq_tool.Prelude.Tests.{ltb, if◌then◌else◌}

module _ {ℓ} {A : Type ℓ} where
  abbrev pub length : List A → ℕ
  length [] = 0
  length (x ∷ xs) = suc (length xs)

  abbrev pub get_elem? : List A → ℕ → Option A
  get_elem? [] i = none
  get_elem? (x ∷ xs) zero = some x
  get_elem? (x ∷ xs) (suc i) = get_elem? xs i

  abbrev pub get_or : List A → ℕ → A → A
  get_or [] i d = d
  get_or (x ∷ xs) zero d = x
  get_or (x ∷ xs) (suc i) d = get_or xs i d

  -- A write out of bounds changes nothing.
  abbrev pub set : List A → ℕ → A → List A
  set [] i v = []
  set (x ∷ xs) zero v = v ∷ xs
  set (x ∷ xs) (suc i) v = x ∷ set xs i v

  abbrev pub take : ℕ → List A → List A
  take zero xs = []
  take (suc n) [] = []
  take (suc n) (x ∷ xs) = x ∷ take n xs

  abbrev pub drop : ℕ → List A → List A
  drop zero xs = xs
  drop (suc n) [] = []
  drop (suc n) (x ∷ xs) = drop n xs

  abbrev pub replicate : ℕ → A → List A
  replicate zero a = []
  replicate (suc n) a = a ∷ replicate n a

  -- `memcpy(xs + at, src, length src)`: what would land past the end is not written.
  pub copy_at : List A → ℕ → List A → List A
  copy_at [] at src = []
  copy_at (x ∷ xs) (suc at) src = x ∷ copy_at xs at src
  copy_at (x ∷ xs) zero [] = x ∷ xs
  copy_at (x ∷ xs) zero (y ∷ src) = y ∷ copy_at xs zero src

  -- `f 0, f 1, …, f (n - 1)`
  abbrev pub tabulate : (ℕ → A) → ℕ → List A
  tabulate f zero = []
  tabulate f (suc n) = f 0 ∷ tabulate (λ k. f (suc k)) n

  pub length-append : (xs ys : List A) → length (xs ++ ys) ≡ length xs + length ys
  length-append [] ys = omega arith
  length-append (x ∷ xs) ys = omega (arith, length-append xs ys)

  pub length-set : (xs : List A) (i : ℕ) (v : A) → length (set xs i v) ≡ length xs
  length-set [] i v = refl
  length-set (x ∷ xs) zero v = refl
  length-set (x ∷ xs) (suc i) v = ap suc (length-set xs i v)

  pub length-take : (n : ℕ) (xs : List A) → length (take n xs) ≡ min n (length xs)
  length-take zero xs = omega arith
  length-take (suc n) [] = omega arith
  length-take (suc n) (x ∷ xs) = omega (arith, length-take n xs)

  pub length-drop : (n : ℕ) (xs : List A) → length (drop n xs) ≡ length xs - n
  length-drop zero xs = omega arith
  length-drop (suc n) [] = omega arith
  length-drop (suc n) (x ∷ xs) = omega (arith, length-drop n xs)

  pub length-replicate : (n : ℕ) (a : A) → length (replicate n a) ≡ n
  length-replicate zero a = refl
  length-replicate (suc n) a = ap suc (length-replicate n a)

  pub length-copy_at :
      (xs : List A) (at : ℕ) (src : List A) → length (copy_at xs at src) ≡ length xs
  unfolding copy_at
  length-copy_at [] at src = refl
  length-copy_at (x ∷ xs) (suc at) src = ap suc (length-copy_at xs at src)
  length-copy_at (x ∷ xs) zero [] = refl
  length-copy_at (x ∷ xs) zero (y ∷ src) = ap suc (length-copy_at xs zero src)

  -- With room for them, the bytes stand at the front.
  pub copy_at-front :
      (xs src : List A) → length src ≤ length xs → copy_at xs 0 src ≡ src ++ drop (length src) xs
  unfolding copy_at
  copy_at-front [] [] h = refl
  copy_at-front [] (y ∷ src) h = absurd (omega arith)
  copy_at-front (x ∷ xs) [] h = refl
  copy_at-front (x ∷ xs) (y ∷ src) h = ap (λ t. y ∷ t) (copy_at-front xs src (omega arith))

  -- What an array holds after a copy into it.
  pub get_or-copy_at :
      (xs : List A) (at : ℕ) (src : List A) (i : ℕ) (d : A)
      → i < length xs
      → get_or (copy_at xs at src) i d ≡ (
          if ltb i at
          then get_or xs i d
          else if ltb i (at + length src)
          then get_or src (i - at) d
          else get_or xs i d)
  unfolding copy_at
  get_or-copy_at [] at src i d h = elim h [ ]
  get_or-copy_at (x ∷ xs) (suc at) src zero d h = ground arith
  get_or-copy_at (x ∷ xs) (suc at) src (suc i) d h = ground (arith, get_or-copy_at xs at src i d)
  get_or-copy_at (x ∷ xs) zero [] i d h = ground arith
  get_or-copy_at (x ∷ xs) zero (y ∷ src) zero d h = ground arith
  get_or-copy_at (x ∷ xs) zero (y ∷ src) (suc i) d h =
      ground (arith, get_or-copy_at xs zero src i d)

  pub get_or-set :
      (xs : List A) (i : ℕ) (v : A) (j : ℕ) (d : A)
      → i < length xs
      → get_or (set xs i v) j d
        ≡ (if ltb i j then get_or xs j d else if ltb j i then get_or xs j d else v)
  get_or-set [] i v j d h = elim h [ ]
  get_or-set (x ∷ xs) zero v zero d h = ground arith
  get_or-set (x ∷ xs) zero v (suc j) d h = ground arith
  get_or-set (x ∷ xs) (suc i) v zero d h = ground arith
  get_or-set (x ∷ xs) (suc i) v (suc j) d h = ground (arith, get_or-set xs i v j d)

  pub get_or-append :
      (xs ys : List A) (i : ℕ) (d : A)
      → get_or (xs ++ ys) i d
        ≡ (if ltb i (length xs) then get_or xs i d else get_or ys (i - length xs) d)
  get_or-append [] ys i d = ground arith
  get_or-append (x ∷ xs) ys zero d = ground arith
  get_or-append (x ∷ xs) ys (suc i) d = ground (arith, get_or-append xs ys i d)

  pub get_or-take :
      (n : ℕ) (xs : List A) (i : ℕ) (d : A) → i < n → get_or (take n xs) i d ≡ get_or xs i d
  get_or-take zero xs i d h = elim h [ ]
  get_or-take (suc n) [] i d h = refl
  get_or-take (suc n) (x ∷ xs) zero d h = refl
  get_or-take (suc n) (x ∷ xs) (suc i) d h = get_or-take n xs i d (omega arith)

  pub get_or-drop :
      (n : ℕ) (xs : List A) (i : ℕ) (d : A) → get_or (drop n xs) i d ≡ get_or xs (n + i) d
  get_or-drop zero xs i d = ap (λ k. get_or xs k d) (omega arith)
  get_or-drop (suc n) [] i d = refl
  get_or-drop (suc n) (x ∷ xs) i d = get_or-drop n xs i d ∙ ap (λ k. get_or (x ∷ xs) k d) e
    where
      e : suc (n + i) ≡ suc n + i
      e = omega arith

  pub length-tabulate : (f : ℕ → A) (n : ℕ) → length (tabulate f n) ≡ n
  length-tabulate f zero = refl
  length-tabulate f (suc n) = ap suc (length-tabulate (λ k. f (suc k)) n)

  -- A list is the table of its elements, and tables agree where their functions do.
  pub tabulate_cong :
      (f g : ℕ → A) (n : ℕ) → ((k : ℕ) → k < n → f k ≡ g k) → tabulate f n ≡ tabulate g n
  tabulate_cong f g zero h = refl
  tabulate_cong f g (suc n) h =
      ap₂ ◌∷◌ (h 0 (omega arith))
        (tabulate_cong (λ k. f (suc k)) (λ k. g (suc k)) n (λ k hk. h (suc k) (omega arith)))

  pub tabulate_of_get :
      (xs : List A) (n : ℕ) (d : A) → n ≡ length xs → xs ≡ tabulate (λ k. get_or xs k d) n
  tabulate_of_get [] zero d e = refl
  tabulate_of_get [] (suc n) d e = absurd (omega arith)
  tabulate_of_get (x ∷ xs) zero d e = absurd (omega arith)
  tabulate_of_get (x ∷ xs) (suc n) d e = ap (λ t. x ∷ t) (tabulate_of_get xs n d (omega arith))

  pub tabulate-append :
      (f : ℕ → A) (m n : ℕ) → tabulate f (m + n) ≡ tabulate f m ++ tabulate (λ k. f (m + k)) n
  tabulate-append f zero n =
      ap (tabulate f) e ∙ tabulate_cong f (λ k. f (0 + k)) n (λ k hk. ap f (omega arith))
    where
      e : 0 + n ≡ n
      e = omega arith
  tabulate-append f (suc m) n =
      ap (tabulate f) e
      ∙ ap (λ t. f 0 ∷ t)
          (tabulate-append (λ k. f (suc k)) m n
            ∙ ap (λ t. tabulate (λ k. f (suc k)) m ++ t)
                (tabulate_cong (λ k. f (suc (m + k))) (λ k. f (suc m + k)) n
                  (λ k hk. ap f (omega arith))))
    where
      e : suc m + n ≡ suc (m + n)
      e = omega arith

pub nil_of_length {ℓ} : {A : Type ℓ} (xs : List A) → length xs ≡ 0 → xs ≡ []
nil_of_length [] h = refl
nil_of_length (x ∷ xs) h = absurd (omega arith)
