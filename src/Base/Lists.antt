-- ===== src/Base/Lists.antt =====
-- Lists measured by native numbers, and writes into a buffer.
use Prim.Native.Nat.{ℕ, zero, suc, ◌+◌, ◌-◌, ◌≤◌}
use mathlib.Core.Path.{◌≡◌, refl, ap}
use mathlib.Core.List.{List, [], ◌∷◌, ◌++◌, map}
use native.Mathlib.Omega.{arith}

module _ {ℓ} {A : Type ℓ} where
  abbrev pub length : List A → ℕ
  length [] = 0
  length (x ∷ xs) = suc (length xs)

  abbrev pub replicate : ℕ → A → List A
  replicate zero a = []
  replicate (suc n) a = a ∷ replicate n a

  abbrev pub drop : ℕ → List A → List A
  drop zero xs = xs
  drop (suc n) [] = []
  drop (suc n) (x ∷ xs) = drop n xs

  abbrev pub take : ℕ → List A → List A
  take zero xs = []
  take (suc n) [] = []
  take (suc n) (x ∷ xs) = x ∷ take n xs

  -- `buffer` after a call that stores `stored` from its start on. The size stays.
  unfoldable pub overwrite : List A → List A → List A
  overwrite [] stored = []
  overwrite (b ∷ buffer) [] = b ∷ buffer
  overwrite (b ∷ buffer) (s ∷ stored) = s ∷ overwrite buffer stored

  pub length-append : (xs ys : List A) → length (xs ++ ys) ≡ length xs + length ys
  length-append [] ys = omega arith
  length-append (x ∷ xs) ys = omega (arith, length-append xs ys)

  pub length-replicate : (n : ℕ) (a : A) → length (replicate n a) ≡ n
  length-replicate zero a = refl
  length-replicate (suc n) a = ap suc (length-replicate n a)

  pub length-overwrite : (buffer stored : List A) → length (overwrite buffer stored) ≡ length buffer
  unfolding overwrite
  length-overwrite [] stored = refl
  length-overwrite (b ∷ buffer) [] = refl
  length-overwrite (b ∷ buffer) (s ∷ stored) = ap suc (length-overwrite buffer stored)

  pub overwrite_all :
      (buffer stored : List A) → length buffer ≡ length stored → overwrite buffer stored ≡ stored
  unfolding overwrite
  overwrite_all [] [] same = refl
  overwrite_all [] (s ∷ stored) same = absurd (omega arith)
  overwrite_all (b ∷ buffer) [] same = absurd (omega arith)
  overwrite_all (b ∷ buffer) (s ∷ stored) same =
      ap (◌∷◌ s) (overwrite_all buffer stored (omega arith))

  -- What is not overwritten keeps its first content.
  pub overwrite-replicate :
      (n : ℕ) (a : A) (stored : List A)
      → length stored ≤ n
      → overwrite (replicate n a) stored ≡ stored ++ replicate (n - length stored) a
  unfolding overwrite
  overwrite-replicate zero a [] h = refl
  overwrite-replicate zero a (s ∷ stored) h = elim h [ ]
  overwrite-replicate (suc n) a [] h = ground arith
  overwrite-replicate (suc n) a (s ∷ stored) h =
      ground (arith, overwrite-replicate n a stored (omega arith))

  pub length-take-le : (n : ℕ) (xs : List A) → length (take n xs) ≤ n
  length-take-le zero xs = omega arith
  length-take-le (suc n) [] = omega arith
  length-take-le (suc n) (x ∷ xs) = omega (arith, length-take-le n xs)

  pub length-take : (n : ℕ) (xs : List A) → n ≤ length xs → length (take n xs) ≡ n
  length-take zero xs h = refl
  length-take (suc n) [] h = elim h [ ]
  length-take (suc n) (x ∷ xs) h = omega (arith, length-take n xs (omega arith))

  pub take_of_le : (n : ℕ) (xs : List A) → length xs ≤ n → take n xs ≡ xs
  take_of_le zero [] h = refl
  take_of_le zero (x ∷ xs) h = elim h [ ]
  take_of_le (suc n) [] h = refl
  take_of_le (suc n) (x ∷ xs) h = ap (◌∷◌ x) (take_of_le n xs (omega arith))

  pub take_all : (xs : List A) → take (length xs) xs ≡ xs
  take_all [] = refl
  take_all (x ∷ xs) = ap (◌∷◌ x) (take_all xs)

pub length-map {ℓ κ} :
    {A : Type ℓ} {B : Type κ} (f : A → B) (xs : List A) → length (map f xs) ≡ length xs
length-map f [] = refl
length-map f (x ∷ xs) = ap suc (length-map f xs)

pub map-replicate {ℓ κ} :
    {A : Type ℓ} {B : Type κ} (f : A → B) (n : ℕ) (a : A)
    → map f (replicate n a) ≡ replicate n (f a)
map-replicate f zero a = refl
map-replicate f (suc n) a = ap (◌∷◌ (f a)) (map-replicate f n a)
