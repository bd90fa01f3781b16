-- ===== src/Prelude/Sums.antt =====
-- Sums over a list, with which the threads of a pool at one point of their code are counted.
use Prim.Native.Nat.{ℕ, zero, suc, ◌+◌, ◌≤◌, ◌<◌}
use mathlib.Core.Path.{◌≡◌, refl}
use mathlib.Core.List.{List, [], ◌∷◌, ◌++◌, map}
use mathlib.Core.Option.{some}
use native.Mathlib.Omega.{arith}
use c_project.Prelude.Lists.{get_elem?, set, replicate, length}
use mathlib.Core.Logic.{inl, inr}
use c_project.Prelude.Tests.{◌==◌, if◌then◌else◌, Bool-cases}

abbrev pub sum {ℓ} : {A : Type ℓ} → (A → ℕ) → List A → ℕ
sum f [] = 0
sum f (x ∷ xs) = f x + sum f xs

abbrev pub is : ℕ → ℕ → ℕ
is a b = if a == b then 1 else 0

-- How often an element is in a list.
abbrev pub count : ℕ → List ℕ → ℕ
count a xs = sum (is a) xs

module _ {ℓ} {A : Type ℓ} where
  pub sum-append : (f : A → ℕ) (xs ys : List A) → sum f (xs ++ ys) ≡ sum f xs + sum f ys
  sum-append f [] ys = omega arith
  sum-append f (x ∷ xs) ys = omega (arith, sum-append f xs ys)

  -- What one element gives is exchanged.
  pub sum-set :
      (f : A → ℕ) (xs : List A) (i : ℕ) {x : A} (y : A)
      → get_elem? xs i ≡ some x
      → sum f (set xs i y) + f x ≡ sum f xs + f y
  sum-set f [] i y h = ground arith
  sum-set f (w ∷ xs) zero y h = grind arith
  sum-set f (w ∷ xs) (suc i) y h = omega (arith, sum-set f xs i y h)

  pub le_sum : (f : A → ℕ) (xs : List A) (i : ℕ) {x : A} → get_elem? xs i ≡ some x → f x ≤ sum f xs
  le_sum f [] i h = ground arith
  le_sum f (w ∷ xs) zero h = grind arith
  le_sum f (w ∷ xs) (suc i) h = omega (arith, le_sum f xs i h)

  pub sum-map_eq :
      (f g : A → ℕ) (h : A → A) (xs : List A)
      → ((x : A) → f (h x) ≡ g x)
      → sum f (map h xs) ≡ sum g xs
  sum-map_eq f g h [] e = refl
  sum-map_eq f g h (x ∷ xs) e = omega (arith, e x, sum-map_eq f g h xs e)

  pub sum-map_le :
      (f g : A → ℕ) (h : A → A) (xs : List A)
      → ((x : A) → f (h x) ≤ g x)
      → sum f (map h xs) ≤ sum g xs
  sum-map_le f g h [] e = omega arith
  sum-map_le f g h (x ∷ xs) e = omega (arith, e x, sum-map_le f g h xs e)

  pub sum-map_zero :
      (f : A → ℕ) (h : A → A) (xs : List A) → ((x : A) → f (h x) ≡ 0) → sum f (map h xs) ≡ 0
  sum-map_zero f h [] e = refl
  sum-map_zero f h (x ∷ xs) e = omega (arith, e x, sum-map_zero f h xs e)

  pub sum-replicate_zero : (f : A → ℕ) (n : ℕ) (x : A) → f x ≡ 0 → sum f (replicate n x) ≡ 0
  sum-replicate_zero f zero x e = refl
  sum-replicate_zero f (suc n) x e = omega (arith, e, sum-replicate_zero f n x e)

  pub sum_le : (f g : A → ℕ) (xs : List A) → ((x : A) → f x ≤ g x) → sum f xs ≤ sum g xs
  sum_le f g [] e = omega arith
  sum_le f g (x ∷ xs) e = omega (arith, e x, sum_le f g xs e)

  pub sum_complement :
      (f g : A → ℕ) (xs : List A) → ((x : A) → f x + g x ≡ 1) → sum f xs + sum g xs ≡ length xs
  sum_complement f g [] e = omega arith
  sum_complement f g (x ∷ xs) e = omega (arith, e x, sum_complement f g xs e)

  pub sum_le_add :
      (f g h : A → ℕ) (xs : List A) → ((x : A) → f x ≤ g x + h x) → sum f xs ≤ sum g xs + sum h xs
  sum_le_add f g h [] e = omega arith
  sum_le_add f g h (x ∷ xs) e = omega (arith, e x, sum_le_add f g h xs e)

  -- A sum that is not zero has an element that gives a part of it.
  pub sum_pos :
      (f : A → ℕ) (xs : List A)
      → 0 < sum f xs
      → (i : ℕ) × (x : A) × (get_elem? xs i ≡ some x) × (0 < f x)
  sum_pos f [] h = elim h [ ]
  sum_pos f (x ∷ xs) h = elim (Bool-cases (0 == f x)) [
    | inl none_here ↦ let (i, y, at, more) = sum_pos f xs (ground arith) in (suc i, y, at, more)
    | inr some_here ↦ (0, x, refl, ground arith)
  ]
