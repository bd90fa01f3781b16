-- ===== src/Prelude/Lists.antt =====
-- Lists measured and indexed by native numbers, under the library's names.
use Prim.Native.Nat.{ℕ, zero, suc, ◌+◌, ◌-◌, ◌≤◌, ◌<◌, min}
use mathlib.Core.Path.{◌≡◌, refl, ap}
use mathlib.Core.Logic.{◌≢◌}
use mathlib.Core.List.{List, [], ◌∷◌, ◌++◌}
use mathlib.Core.Option.{Option, none, some}
use native.Mathlib.Omega.{arith}

module _ {ℓ} {A : Type ℓ} where
  abbrev pub length : List A → ℕ
  length [] = 0
  length (x ∷ xs) = suc (length xs)

  abbrev pub get_elem? : List A → ℕ → Option A
  get_elem? [] i = none
  get_elem? (x ∷ xs) zero = some x
  get_elem? (x ∷ xs) (suc i) = get_elem? xs i

  -- A write out of bounds changes nothing.
  abbrev pub set : List A → ℕ → A → List A
  set [] i v = []
  set (x ∷ xs) zero v = v ∷ xs
  set (x ∷ xs) (suc i) v = x ∷ set xs i v

  abbrev pub take : ℕ → List A → List A
  take zero xs = []
  take (suc n) [] = []
  take (suc n) (x ∷ xs) = x ∷ take n xs

  abbrev pub drop : ℕ → List A → List A
  drop zero xs = xs
  drop (suc n) [] = []
  drop (suc n) (x ∷ xs) = drop n xs

  abbrev pub replicate : ℕ → A → List A
  replicate zero a = []
  replicate (suc n) a = a ∷ replicate n a

module _ {ℓ} {A : Type ℓ} where
  pub length-append : (xs ys : List A) → length (xs ++ ys) ≡ length xs + length ys
  length-append [] ys = omega arith
  length-append (x ∷ xs) ys = omega (arith, length-append xs ys)

  pub length-set : (xs : List A) (i : ℕ) (v : A) → length (set xs i v) ≡ length xs
  length-set [] i v = refl
  length-set (x ∷ xs) zero v = refl
  length-set (x ∷ xs) (suc i) v = ap suc (length-set xs i v)

  pub length-take : (n : ℕ) (xs : List A) → length (take n xs) ≡ min n (length xs)
  length-take zero xs = omega arith
  length-take (suc n) [] = omega arith
  length-take (suc n) (x ∷ xs) = omega (arith, length-take n xs)

  pub length-drop : (n : ℕ) (xs : List A) → length (drop n xs) ≡ length xs - n
  length-drop zero xs = omega arith
  length-drop (suc n) [] = omega arith
  length-drop (suc n) (x ∷ xs) = omega (arith, length-drop n xs)

  pub length-replicate : (n : ℕ) (a : A) → length (replicate n a) ≡ n
  length-replicate zero a = refl
  length-replicate (suc n) a = ap suc (length-replicate n a)

  pub get_elem?-set_self :
      (xs : List A) (i : ℕ) (v : A) → i < length xs → get_elem? (set xs i v) i ≡ some v
  get_elem?-set_self [] i v h = elim h [ ]
  get_elem?-set_self (x ∷ xs) zero v h = refl
  get_elem?-set_self (x ∷ xs) (suc i) v h = get_elem?-set_self xs i v (omega arith)

  pub get_elem?-set_ne :
      (xs : List A) {i j : ℕ} (v : A) → i ≢ j → get_elem? (set xs i v) j ≡ get_elem? xs j
  get_elem?-set_ne [] v h = refl
  get_elem?-set_ne (x ∷ xs) {i = zero} {j = zero} v h = absurd (h refl)
  get_elem?-set_ne (x ∷ xs) {i = zero} {j = suc j} v h = refl
  get_elem?-set_ne (x ∷ xs) {i = suc i} {j = zero} v h = refl
  get_elem?-set_ne (x ∷ xs) {i = suc i} {j = suc j} v h = get_elem?-set_ne xs v (λ e. h (ap suc e))

  pub get_elem?-some : (xs : List A) (i : ℕ) → i < length xs → (a : A) × (get_elem? xs i ≡ some a)
  get_elem?-some [] i h = elim h [ ]
  get_elem?-some (x ∷ xs) zero h = (x, refl)
  get_elem?-some (x ∷ xs) (suc i) h = get_elem?-some xs i (omega arith)

  pub lt_of_get_elem? : (xs : List A) (i : ℕ) {a : A} → get_elem? xs i ≡ some a → i < length xs
  lt_of_get_elem? [] i h = ground arith
  lt_of_get_elem? (x ∷ xs) zero h = omega arith
  lt_of_get_elem? (x ∷ xs) (suc i) h = omega (arith, lt_of_get_elem? xs i h)

  pub get_elem?-replicate : (n i : ℕ) (a : A) → i < n → get_elem? (replicate n a) i ≡ some a
  get_elem?-replicate zero i a h = elim h [ ]
  get_elem?-replicate (suc n) zero a h = refl
  get_elem?-replicate (suc n) (suc i) a h = get_elem?-replicate n i a (omega arith)

  pub get_elem?-append :
      (xs ys : List A) (i : ℕ) → get_elem? (xs ++ ys) (length xs + i) ≡ get_elem? ys i
  get_elem?-append [] ys i = let same : 0 + i ≡ i = omega arith in rw same
  get_elem?-append (x ∷ xs) ys i =
      let next : suc (length xs) + i ≡ suc (length xs + i) = omega arith in
      rw next (get_elem?-append xs ys i)

  pub get_elem?-append_left :
      (xs ys : List A) (i : ℕ) → i < length xs → get_elem? (xs ++ ys) i ≡ get_elem? xs i
  get_elem?-append_left [] ys i h = elim h [ ]
  get_elem?-append_left (x ∷ xs) ys zero h = refl
  get_elem?-append_left (x ∷ xs) ys (suc i) h = get_elem?-append_left xs ys i (omega arith)

  pub get_elem?-drop :
      (i e : ℕ) (xs : List A) → i ≤ e → get_elem? (drop i xs) (e - i) ≡ get_elem? xs e
  get_elem?-drop zero e xs h = let same : e - 0 ≡ e = omega arith in rw same
  get_elem?-drop (suc i) e [] h = refl
  get_elem?-drop (suc i) zero (x ∷ xs) h = absurd (omega arith)
  get_elem?-drop (suc i) (suc e) (x ∷ xs) h =
      let less : suc e - suc i ≡ e - i = omega arith in
      rw less (get_elem?-drop i e xs (omega arith))

  pub get_elem?-append_at :
      (xs ys : List A) (i j : ℕ) → i ≡ length xs + j → get_elem? (xs ++ ys) i ≡ get_elem? ys j
  get_elem?-append_at xs ys i j h = rw h (get_elem?-append xs ys j)

module _ {ℓ} {A : Type ℓ} where
  -- `s` written over the elements from the index on; what would lie behind the end is dropped.
  abbrev pub overwrite : List A → ℕ → List A → List A
  overwrite [] i s = []
  overwrite (x ∷ xs) zero [] = x ∷ xs
  overwrite (x ∷ xs) zero (y ∷ s) = y ∷ overwrite xs zero s
  overwrite (x ∷ xs) (suc i) s = x ∷ overwrite xs i s

module _ {ℓ} {A : Type ℓ} where
  pub length-overwrite : (xs : List A) (i : ℕ) (s : List A) → length (overwrite xs i s) ≡ length xs
  length-overwrite [] i s = refl
  length-overwrite (x ∷ xs) zero [] = refl
  length-overwrite (x ∷ xs) zero (y ∷ s) = ap suc (length-overwrite xs zero s)
  length-overwrite (x ∷ xs) (suc i) s = ap suc (length-overwrite xs i s)

  pub overwrite-nil : (xs : List A) (i : ℕ) → overwrite xs i [] ≡ xs
  overwrite-nil [] i = refl
  overwrite-nil (x ∷ xs) zero = refl
  overwrite-nil (x ∷ xs) (suc i) = rw (overwrite-nil xs i)

  -- Two writes, the second right behind the first, are one write of both.
  pub overwrite-append :
      (xs : List A) (i : ℕ) (s t : List A)
      → overwrite (overwrite xs i s) (i + length s) t ≡ overwrite xs i (s ++ t)
  overwrite-append [] i s t = refl
  overwrite-append (x ∷ xs) zero [] t = let same : 0 + 0 ≡ 0 = omega arith in rw same
  overwrite-append (x ∷ xs) zero (y ∷ s) t =
      let next : 0 + suc (length s) ≡ suc (0 + length s) = omega arith in
      rw next (rw (overwrite-append xs zero s t))
  overwrite-append (x ∷ xs) (suc i) s t =
      let next : suc i + length s ≡ suc (i + length s) = omega arith in
      rw next (rw (overwrite-append xs i s t))

  -- A write leaves what lies before and behind it.
  pub get_elem?-overwrite_after :
      (xs : List A) (i : ℕ) (s : List A) (j : ℕ)
      → i + length s ≤ j
      → get_elem? (overwrite xs i s) j ≡ get_elem? xs j
  get_elem?-overwrite_after [] i s j h = refl
  get_elem?-overwrite_after (x ∷ xs) zero [] j h = refl
  get_elem?-overwrite_after (x ∷ xs) zero (y ∷ s) zero h = absurd (omega arith)
  get_elem?-overwrite_after (x ∷ xs) zero (y ∷ s) (suc j) h =
      get_elem?-overwrite_after xs zero s j (omega arith)
  get_elem?-overwrite_after (x ∷ xs) (suc i) s zero h = refl
  get_elem?-overwrite_after (x ∷ xs) (suc i) s (suc j) h =
      get_elem?-overwrite_after xs i s j (omega arith)

  -- A write in front of another commutes with it.
  pub set-overwrite :
      (xs : List A) (i k : ℕ) (v : A) (s : List A)
      → i < k
      → set (overwrite xs k s) i v ≡ overwrite (set xs i v) k s
  set-overwrite [] i k v s h = refl
  set-overwrite (x ∷ xs) i zero v s h = absurd (omega arith)
  set-overwrite (x ∷ xs) zero (suc k) v s h = refl
  set-overwrite (x ∷ xs) (suc i) (suc k) v s h = rw (set-overwrite xs i k v s (omega arith))

  pub get_elem?-overwrite_before :
      (xs : List A) (i : ℕ) (s : List A) (j : ℕ)
      → j < i
      → get_elem? (overwrite xs i s) j ≡ get_elem? xs j
  get_elem?-overwrite_before [] i s j h = refl
  get_elem?-overwrite_before (x ∷ xs) zero s j h = absurd (omega arith)
  get_elem?-overwrite_before (x ∷ xs) (suc i) s zero h = refl
  get_elem?-overwrite_before (x ∷ xs) (suc i) s (suc j) h =
      get_elem?-overwrite_before xs i s j (omega arith)

  -- What was written stands there, if it lies in the list.
  pub take-overwrite :
      (xs : List A) (i : ℕ) (s : List A)
      → i + length s ≤ length xs
      → take (i + length s) (overwrite xs i s) ≡ take i xs ++ s
  take-overwrite [] zero [] h = refl
  take-overwrite [] zero (y ∷ s) h = absurd (omega arith)
  take-overwrite [] (suc i) s h = absurd (omega arith)
  take-overwrite (x ∷ xs) zero [] h = refl
  take-overwrite (x ∷ xs) zero (y ∷ s) h =
      let next : 0 + suc (length s) ≡ suc (0 + length s) = omega arith in
      rw next (ap (λ t. y ∷ t) (take-overwrite xs zero s (omega arith)))
  take-overwrite (x ∷ xs) (suc i) s h =
      let next : suc i + length s ≡ suc (i + length s) = omega arith in
      rw next (ap (λ t. x ∷ t) (take-overwrite xs i s (omega arith)))

  pub take-overwrite_before :
      (xs : List A) (n : ℕ) (s : List A) → take n (overwrite xs n s) ≡ take n xs
  take-overwrite_before [] zero s = refl
  take-overwrite_before [] (suc n) s = refl
  take-overwrite_before (x ∷ xs) zero s = refl
  take-overwrite_before (x ∷ xs) (suc n) s = rw (take-overwrite_before xs n s)

  pub take-all : (n : ℕ) (xs : List A) → length xs ≤ n → take n xs ≡ xs
  take-all zero [] h = refl
  take-all zero (x ∷ xs) h = elim h [ ]
  take-all (suc n) [] h = refl
  take-all (suc n) (x ∷ xs) h = rw (take-all n xs (omega arith))
