-- ===== src/MemoryPool/Tests.antt =====
-- Runs of MemoryPool at concrete inputs.
use c_project.MemoryPool.Blocks.Freed.{Reach, starts, grows, frees, destroy-blocks}
use c_project.Prelude.{ℕ, ◌+◌, ◌≡◌, inl, refl, if◌then◌else◌, none, some, [], ◌∷◌, ◌==◌, arith}
use c_project.Heap.{null, node, Heap}
use c_project.MemoryPool.Blocks.{Layout, Pool, create, allocate, deallocate, destroy}
use c_project.MemoryPool.Blocks.Slots.{IsPool, InBlock, allocate-InBlock}
use c_project.MemoryPool.Stack.Lifo.{IsStack}

abbrev layout : Layout
layout = record { slot_size = 16; slot_align = 8; block_size = 4096 }

abbrev new_pool : Pool
new_pool = create (λ a. 0)

new_pool-IsPool : IsPool layout new_pool
unfolding create
new_pool-IsPool = record {
  ends = λ h. absurd (omega (arith, h));
  started = λ h. absurd (omega (arith, h));
}

allocate-InBlock_example :
    let (slot, p') = allocate layout 8192 new_pool in
    InBlock layout p'.current_block slot × (p'.current_slot ≡ slot + 16) × IsPool layout p'
unfolding create
allocate-InBlock_example =
    allocate-InBlock layout 8192 new_pool
      (record { aligned = inl refl; holds = omega arith; two = omega arith })
      (record { aligned = omega arith; fits = omega arith }) new_pool-IsPool refl

-- One block, and a slot of it given back.
abbrev one_freed : Pool
one_freed = deallocate 8200 (allocate layout 8192 new_pool).1

one_freed-Reach : Reach layout one_freed (8192 ∷ [])
unfolding create
one_freed-Reach = frees 8200 (grows 8192 (starts (λ a. 0)) refl refl (omega arith) refl) refl

destroy-blocks_example : destroy 2 one_freed ≡ some (8192 ∷ [])
destroy-blocks_example = destroy-blocks layout 2 one_freed-Reach (omega arith)

-- A stack of one node, at 2, which holds 7.
abbrev heap : Heap ℕ
heap p = if p == 2 then some (node 7 null) else none

heap-IsStack : IsStack heap 2 ((2, 7) ∷ [])
heap-IsStack = record { chain = (omega arith, refl, refl, tt); on_top = refl }
