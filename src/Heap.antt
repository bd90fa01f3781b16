-- ===== src/Heap.antt =====
-- Nodes with a `next` pointer at addresses of a heap, and the chains that they form.
use c_project.Prelude.{
  ℕ, ◌≡◌, ◌≢◌, refl, Bool, false, ◌||◌, Option, none, some, List, [], ◌∷◌, ◌++◌, ◌==◌,
  if◌then◌else◌, inl, inr, Bool-cases, arith,
}

abbrev pub Ptr : Type 0
Ptr = ℕ

abbrev pub null : Ptr
null = 0

pub record Node (A : Type 0) : Type 0 where
  pub value : A
  pub next : Ptr

abbrev pub node : {A : Type 0} → A → Ptr → Node A
node v q = record { value = v; next = q }

-- `none` is an address that holds no node.
abbrev pub Heap : Type 0 → Type 0
Heap A = Ptr → Option (Node A)

module _ {A : Type 0} where
  unfoldable pub load : Heap A → Ptr → Option (Node A)
  load h p = if p == null then none else h p

  abbrev pub store : Heap A → Ptr → Option (Node A) → Heap A
  store h p n a = if a == p then n else h a

  -- The nodes of a chain, in order: address and value.
  abbrev pub first : List (Ptr × A) → Ptr
  first [] = null
  first ((a, v) ∷ cells) = a

  abbrev pub has : Ptr → List (Ptr × A) → Bool
  has p [] = false
  has p ((a, v) ∷ cells) = (p == a) || has p cells

  abbrev pub Chain : Heap A → List (Ptr × A) → Type 0
  Chain h [] = Unit {0}
  Chain h ((a, v) ∷ cells) =
      (a ≢ null) × (h a ≡ some (node v (first cells))) × (has a cells ≡ false) × Chain h cells

  -- A change elsewhere leaves a chain as it is.
  pub Chain-frame :
      (h : Heap A) (p : Ptr) (n : Option (Node A)) (cells : List (Ptr × A))
      → has p cells ≡ false
      → Chain h cells
      → Chain (store h p n) cells
  Chain-frame h p n [] out c = tt
  Chain-frame h p n ((a, v) ∷ cells) out (ne, at, apart, c) =
      (ne, ground arith, apart, Chain-frame h p n cells (ground arith) c)

  pub load-ok : (h : Heap A) (p : Ptr) (n : Node A) → p ≢ null → h p ≡ some n → load h p ≡ some n
  unfolding load
  load-ok h p n ne at = ground arith

  pub has-append : (p : Ptr) (xs ys : List (Ptr × A)) → has p (xs ++ ys) ≡ (has p xs || has p ys)
  has-append p [] ys = refl
  has-append p ((a, v) ∷ xs) ys = ground (arith, has-append p xs ys)

  -- A node is not in a chain of a heap that has nothing at its address.
  pub not_has_of_none :
      (h : Heap A) (p : Ptr) (cells : List (Ptr × A))
      → h p ≡ none
      → Chain h cells
      → has p cells ≡ false
  not_has_of_none h p [] e c = refl
  not_has_of_none h p ((a, v) ∷ cells) e (ne, at, apart, c) = elim (Bool-cases (p == a)) [
    | inl same ↦ ground arith
    | inr other ↦ rw other (not_has_of_none h p cells e c)
  ]

module _ {A : Type 0} where
  pub store-ne :
      (h : Heap A) (p : Ptr) (n : Option (Node A)) (q : Ptr) → q ≢ p → store h p n q ≡ h q
  store-ne h p n q ne = ground arith

  pub store-eq : (h : Heap A) (p : Ptr) (n : Option (Node A)) → store h p n p ≡ n
  store-eq h p n = ground arith

  pub ne_of_has :
      (p a : Ptr) (v : A) (cells : List (Ptr × A)) → has p ((a, v) ∷ cells) ≡ false → p ≢ a
  ne_of_has p a v cells out = ground arith

  pub has-tail :
      (p a : Ptr) (v : A) (cells : List (Ptr × A))
      → has p ((a, v) ∷ cells) ≡ false
      → has p cells ≡ false
  has-tail p a v cells out = ground arith

  pub has-cons :
      (p a : Ptr) (v : A) (cells : List (Ptr × A))
      → p ≢ a
      → has p cells ≡ false
      → has p ((a, v) ∷ cells) ≡ false
  has-cons p a v cells ne out = ground arith

  pub has-snoc :
      (p f : Ptr) (w : A) (cells : List (Ptr × A))
      → has p cells ≡ false
      → p ≢ f
      → has p (cells ++ (f, w) ∷ []) ≡ false
  has-snoc p f w cells out ne = rw (has-append, out) (ground arith)
