-- ===== src/MemoryPool/Blocks/Freed.antt =====
-- The destructor of MemoryPool/MemoryPool.h gives back the blocks that the pool has taken.
use mathlib.Core.Path.{subst}
use c_project.Prelude.{
  ℕ, zero, suc, ◌<◌, ◌≡◌, ◌≢◌, refl, sym, inl, inr, Bool, true, false, ◌||◌, Bool-cases, some, List,
  [], ◌∷◌, ◌==◌, leb, length, arith,
}
use c_project.MemoryPool.Blocks.{
  Layout, Pool, update, create, new_block, room, carve, allocate, deallocate, destroy_from, destroy,
}

-- The blocks, from the one at an address on, linked by their first words.
abbrev pub Linked : (ℕ → ℕ) → (curr : ℕ) → List ℕ → Type 0
Linked next curr [] = curr ≡ 0
Linked next curr (block ∷ blocks) = (curr ≡ block) × (block ≢ 0) × Linked next (next block) blocks

abbrev pub has : ℕ → List ℕ → Bool
has a [] = false
has a (block ∷ blocks) = (a == block) || has a blocks

-- What a client does: it takes slots, of a block that is there or of a new one, and gives slots back,
-- none of which is the first word of a block.
pub data Reach (l : Layout) : Pool → List ℕ → Type 0 where
  starts : (memory : ℕ → ℕ) → Reach l (create memory) []
  reuses :
      {p : Pool} {blocks : List ℕ} (block : ℕ)
      → Reach l p blocks
      → (p.free_slots == 0) ≡ false
      → Reach l (allocate l block p).1 blocks
  carves :
      {p : Pool} {blocks : List ℕ} (block : ℕ)
      → Reach l p blocks
      → (p.free_slots == 0) ≡ true
      → leb p.last_slot p.current_slot ≡ false
      → Reach l (allocate l block p).1 blocks
  grows :
      {p : Pool} {blocks : List ℕ} (block : ℕ)
      → Reach l p blocks
      → (p.free_slots == 0) ≡ true
      → leb p.last_slot p.current_slot ≡ true
      → block ≢ 0
      → has block blocks ≡ false
      → Reach l (allocate l block p).1 (block ∷ blocks)
  frees :
      {p : Pool} {blocks : List ℕ} (slot : ℕ)
      → Reach l p blocks
      → has slot blocks ≡ false
      → Reach l (deallocate slot p) blocks

-- A write to no block's first word leaves the links.
Linked-update :
    (next : ℕ → ℕ) (a v curr : ℕ) (blocks : List ℕ)
    → has a blocks ≡ false
    → Linked next curr blocks
    → Linked (update next a v) curr blocks
Linked-update next a v curr [] h e = e
Linked-update next a v curr (block ∷ blocks) h (e, ne, rest) =
    let apart : (block == a) ≡ false = ground arith in
    let others : has a blocks ≡ false = ground arith in
    (e, ne, rw apart (Linked-update next a v (next block) blocks others rest))

Reach-Linked :
    (l : Layout) {p : Pool} {blocks : List ℕ}
    → Reach l p blocks
    → Linked p.next p.current_block blocks
unfolding create allocate room carve new_block deallocate
Reach-Linked l (starts memory) = refl
Reach-Linked l (reuses block run some_free) = rw some_free (Reach-Linked l run)
Reach-Linked l (carves block run none_free more) = rw (none_free, more) (Reach-Linked l run)
Reach-Linked l (grows {p = p} {blocks = blocks} block run none_free full ne fresh) =
    let own : update p.next block p.current_block block ≡ p.current_block = ground arith in
    let grown : allocate l block p ≡ carve l (new_block l block p) = rw (none_free, full) refl in
    subst (λ r. Linked r.1.next r.1.current_block (block ∷ blocks)) (sym grown)
      (
        refl,
        ne,
        subst (λ c. Linked (update p.next block p.current_block) c blocks) (sym own)
            (Linked-update p.next block p.current_block p.current_block blocks fresh
              (Reach-Linked l run)),
      )
Reach-Linked l (frees {p = p} {blocks = blocks} slot run apart) = elim (Bool-cases (slot == 0)) [
  | inl is_null ↦ rw is_null (Reach-Linked l run)
  | inr other ↦
      rw other
        (Linked-update p.next slot p.free_slots p.current_block blocks apart (Reach-Linked l run))
]

destroy_from-Linked :
    (fuel curr : ℕ) (next : ℕ → ℕ) (blocks : List ℕ)
    → length blocks < fuel
    → Linked next curr blocks
    → destroy_from fuel curr next ≡ some blocks
unfolding destroy_from
destroy_from-Linked zero curr next blocks h e = absurd (omega arith)
destroy_from-Linked (suc fuel) curr next [] h e = rw e refl
destroy_from-Linked (suc fuel) curr next (block ∷ blocks) h (e, ne, rest) =
    let some_block : (block == 0) ≡ false = ground arith in
    rw (e, some_block, destroy_from-Linked fuel (next block) next blocks (omega arith) rest) refl

-- After any sequence of `allocate` and `deallocate` on a new pool, in which `operator new` gives no
-- null and no block that the pool has, and no slot is given back at the first word of a block, the
-- destructor gives back exactly the blocks that the pool has taken, each once, the newest first;
-- more fuel than there are blocks is enough.
pub destroy-blocks :
    (l : Layout) (fuel : ℕ) {p : Pool} {blocks : List ℕ}
    → Reach l p blocks
    → length blocks < fuel
    → destroy fuel p ≡ some blocks
unfolding destroy
destroy-blocks l fuel {p = p} {blocks = blocks} run h =
    destroy_from-Linked fuel p.current_block p.next blocks h (Reach-Linked l run)
