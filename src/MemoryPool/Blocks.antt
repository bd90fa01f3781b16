-- ===== src/MemoryPool/Blocks.antt =====
-- `MemoryPool<T, BlockSize>` of MemoryPool/MemoryPool.h. An address is a number, 0 the null pointer;
-- `size_t` and `uintptr_t` have 64 bits. What `operator new` returns is an argument.
pub mod Slots
pub mod Freed
use c_project.Prelude.{
  ℕ, zero, suc, ◌+◌, ◌-◌, ◌%◌, ◌^◌, leb, ◌==◌, if◌then◌else◌, Option, none, some, List, [], ◌∷◌,
}
use c_project.Prelude.Options.{◌>>=◌}

-- `sizeof (Slot_)`, `alignof (Slot_)` and `BlockSize`.
pub record Layout : Type 0 where
  pub slot_size : ℕ
  pub slot_align : ℕ
  pub block_size : ℕ

-- `next` is the pointer that stands at an address.
pub record Pool : Type 0 where
  pub current_block : ℕ
  pub current_slot : ℕ
  pub last_slot : ℕ
  pub free_slots : ℕ
  pub next : ℕ → ℕ

abbrev pub update : (ℕ → ℕ) → ℕ → ℕ → ℕ → ℕ
update f i v j = if j == i then v else f j

unfoldable pub create : (memory : ℕ → ℕ) → Pool
create memory = record {
  current_block = 0;
  current_slot = 0;
  last_slot = 0;
  free_slots = 0;
  next = memory;
}

-- sizeof (slot_pointer_)
abbrev pub pointer_size : ℕ
pointer_size = 8

-- (alignof (slot_type_) - result) % alignof (slot_type_), the difference modulo 2 ^ 64
unfoldable pub padding : Layout → ℕ → ℕ
padding l body = (l.slot_align + 2 ^ 64 - body) % 2 ^ 64 % l.slot_align

unfoldable pub new_block : Layout → (block : ℕ) → Pool → Pool
new_block l block p =
    let body = block + pointer_size in
    record p {
      next = update p.next block p.current_block;
      current_block = block;
      current_slot = body + padding l body;
      last_slot = block + l.block_size - l.slot_size;
    }

-- The branch without a free slot, up to `currentSlot_++`.
unfoldable pub room : Layout → (block : ℕ) → Pool → Pool
room l block p = if leb p.last_slot p.current_slot then new_block l block p else p

unfoldable pub carve : Layout → Pool → ℕ × Pool
carve l p = (p.current_slot, record p { current_slot = p.current_slot + l.slot_size })

-- `block` is what `operator new` returns if it is called.
unfoldable pub allocate : Layout → (block : ℕ) → Pool → ℕ × Pool
allocate l block p =
    if p.free_slots == 0
    then carve l (room l block p)
    else (p.free_slots, record p { free_slots = p.next p.free_slots })

unfoldable pub deallocate : (slot : ℕ) → Pool → Pool
deallocate slot p =
    if slot == 0 then p else record p { next = update p.next slot p.free_slots; free_slots = slot }

-- The destructor: the blocks that are given back, the first one first. On fuel, `none` when it is out.
unfoldable pub destroy_from : (fuel curr : ℕ) → (next : ℕ → ℕ) → Option (List ℕ)
destroy_from zero curr next = none
destroy_from (suc fuel) curr next =
    let rest = destroy_from fuel (next curr) next in
    if curr == 0 then some [] else (do blocks ← rest; some (curr ∷ blocks))

unfoldable pub destroy : (fuel : ℕ) → Pool → Option (List ℕ)
destroy fuel p = destroy_from fuel p.current_block p.next
