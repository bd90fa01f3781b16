-- ===== src/MemoryPool/Blocks/Slots.antt =====
-- Where the slots of the pool lie.
use mathlib.Core.Path.{subst}
use c_project.Prelude.{
  ℕ, ◌+◌, ◌-◌, ◌*◌, ◌%◌, ◌^◌, ◌≤◌, ◌<◌, ◌≡◌, ◌≢◌, refl, sym, ap, ◌⊎◌, inl, inr, Bool-cases, true,
  leb, ◌==◌, if◌then◌else◌, arith,
}
use c_project.MemoryPool.Blocks.{
  Layout, Pool, update, pointer_size, padding, new_block, room, carve, allocate, deallocate,
}

-- A slot holds a pointer, and its size is a multiple of its alignment; a block holds two slots.
pub record IsLayout (l : Layout) : Type 0 where
  pub aligned : (l.slot_align ≡ 8) ⊎ (l.slot_align ≡ 16)
  pub holds : l.slot_align ≤ l.slot_size
  pub two : 2 * l.slot_size ≤ l.block_size

-- `operator new` returns an address that is aligned for every fundamental type.
pub record IsBlock (l : Layout) (block : ℕ) : Type 0 where
  pub aligned : block % 16 ≡ 0
  pub fits : block + l.block_size < 2 ^ 64

pad_eight : (b : ℕ) → b % 16 ≡ 0 → b + 8 < 2 ^ 64 → (8 + 2 ^ 64 - (b + 8)) % 2 ^ 64 % 8 ≡ 0
pad_eight b h k = omega arith

pad_sixteen : (b : ℕ) → b % 16 ≡ 0 → b + 8 < 2 ^ 64 → (16 + 2 ^ 64 - (b + 8)) % 2 ^ 64 % 16 ≡ 8
pad_sixteen b h k = omega arith

padding-le :
    (l : Layout) (block : ℕ)
    → IsLayout l
    → block % 16 ≡ 0
    → block + 8 < 2 ^ 64
    → padding l (block + pointer_size) + 8 ≤ l.slot_size
unfolding padding
padding-le l block i b k = elim i.aligned [
  | inl eight ↦ rw (eight, pad_eight block b k) (omega (arith, i.holds, eight))
  | inr sixteen ↦ rw (sixteen, pad_sixteen block b k) (omega (arith, i.holds, sixteen))
]

-- Slots are carved behind the pointer of a block, and none reaches behind its end.
pub record IsPool (l : Layout) (p : Pool) : Type 0 where
  pub ends :
      (p.current_slot < p.last_slot) → p.last_slot + l.slot_size ≡ p.current_block + l.block_size
  pub started : (p.current_slot < p.last_slot) → p.current_block + pointer_size ≤ p.current_slot

-- What `allocate` gives: a slot that was freed, or a new one inside a block.
abbrev pub InBlock : Layout → ℕ → ℕ → Type 0
InBlock l block slot = (block + pointer_size ≤ slot) × (slot + l.slot_size ≤ block + l.block_size)

room-IsPool :
    (l : Layout) (block : ℕ) (p : Pool)
    → IsLayout l
    → IsBlock l block
    → IsPool l p
    → IsPool l (room l block p)
      × InBlock l (room l block p).current_block (room l block p).current_slot
unfolding room new_block
room-IsPool l block p i b v = elim (Bool-cases (leb p.last_slot p.current_slot)) [
  | inl full ↦
      let pad = padding-le l block i b.aligned (omega (arith, b.fits, i.two, i.holds, i.aligned)) in
      rw full (
        record { ends = λ h. omega (arith, i.two); started = λ h. omega arith },
        (omega arith, omega (arith, pad, i.two)),
      )
  | inr more ↦
      rw more (v, (v.started (ground arith), (let ends = v.ends (ground arith) in ground arith)))
]

-- Where slots are at least as large as their alignment of 8 or 16, a block has room for two,
-- `operator new` returns an address that is a multiple of 16 and whose block ends below 2 ^ 64, and
-- no freed slot waits: `allocate` returns a slot that lies inside the current block, behind the
-- block's pointer; the next slot starts where it ends; and the pool's invariant is kept.
pub allocate-InBlock :
    (l : Layout) (block : ℕ) (p : Pool)
    → IsLayout l
    → IsBlock l block
    → IsPool l p
    → p.free_slots ≡ 0
    → let (slot, p') = allocate l block p in
      InBlock l p'.current_block slot × (p'.current_slot ≡ slot + l.slot_size) × IsPool l p'
unfolding allocate carve
allocate-InBlock l block p i b v none_free =
    let (w, inside) = room-IsPool l block p i b v in
    let q = room l block p in
    let test : (p.free_slots == 0) ≡ true = ground arith in
    let carved =
      ap
        (λ e.
          if e then carve l q else (p.free_slots, record p { free_slots = p.next p.free_slots }))
        test in
    subst
      (λ r. InBlock l r.1.current_block r.0 × (r.1.current_slot ≡ r.0 + l.slot_size) × IsPool l r.1)
      (sym carved)
      (
        inside,
        refl,
        record { ends = λ h. w.ends (omega (arith, h)); started = λ h. omega (arith, inside.0, h) },
      )

-- A slot that is freed, and is not the null pointer, is the one that the next `allocate` returns,
-- and the pool is then as before but for the pointer in that slot.
pub allocate-deallocate :
    (l : Layout) (block slot : ℕ) (p : Pool)
    → slot ≢ 0
    → allocate l block (deallocate slot p)
      ≡ (slot, record p { next = update p.next slot p.free_slots })
unfolding allocate deallocate
allocate-deallocate l block slot p ne = ground arith
