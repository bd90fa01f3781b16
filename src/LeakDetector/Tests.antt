-- ===== src/LeakDetector/Tests.antt =====
-- Runs of LeakDetector at concrete inputs.
use c_project.Prelude.{
  ◌+◌, ◌%◌, ◌^◌, ◌≡◌, refl, true, false, if◌then◌else◌, none, some, [], ◌∷◌, ◌==◌, arith,
}
use c_project.Heap.{null, node}
use c_project.LeakDetector.{Info, Detector, new_info, allocate_memory, delete_memory}
use c_project.LeakDetector.Held.{AllHeld}
use c_project.LeakDetector.Tracked.{IsTracked, allocate_memory-IsTracked, delete_memory-drops}

abbrev root_info : Info
root_info = record { prev = null; size = 0; is_array = false; file = none; line = 0 }

-- Two allocations of eight bytes, the node at 3 made after the node at 2.
abbrev eight : Info
eight = new_info 1 8 false none 0

abbrev two : Detector
two = record {
  heap = λ p.
      if p == 1
      then some (node root_info 3)
      else if p == 3
      then some (node eight 2)
      else if p == 2
      then some (node eight null)
      else none;
  memory_allocated = 16;
}

two-IsTracked : IsTracked 1 root_info two.heap ((3, eight) ∷ (2, eight) ∷ [])
two-IsTracked = record {
  chain = (omega arith, refl, refl, (omega arith, refl, refl, (omega arith, refl, refl, tt)));
  prevs = (refl, (refl, tt));
}

allocate_memory-IsTracked_example :
    (e : Detector) × (allocate_memory 1 4 5 true none 9 two ≡ some e)
    × IsTracked 1 root_info e.heap ((4, new_info 1 5 true none 9) ∷ (3, eight) ∷ (2, eight) ∷ [])
    × (e.memory_allocated ≡ (16 + 5) % 2 ^ 64)
allocate_memory-IsTracked_example =
    allocate_memory-IsTracked 1 root_info 4 5 true none 9 two ((3, eight) ∷ (2, eight) ∷ [])
      (omega arith) refl two-IsTracked

-- A third one, at 4, made after both.
abbrev three : Detector
three = record {
  heap = λ p.
      if p == 1
      then some (node root_info 4)
      else if p == 4
      then some (node eight 3)
      else two.heap p;
  memory_allocated = 24;
}

three-IsTracked : IsTracked 1 root_info three.heap ((4, eight) ∷ (3, eight) ∷ (2, eight) ∷ [])
three-IsTracked = record {
  chain = (
    omega arith,
    refl,
    refl,
    (omega arith, refl, refl, (omega arith, refl, refl, (omega arith, refl, refl, tt))),
  );
  prevs = (refl, (refl, (refl, tt)));
}

delete_memory-drops_example :
    (e : Detector) × (delete_memory 1 3 false three ≡ some e)
    × IsTracked 1 root_info e.heap ((2, eight) ∷ [])
    × (e.heap 3 ≡ none)
    × AllHeld e.heap ((4, eight) ∷ [])
delete_memory-drops_example =
    delete_memory-drops 1 root_info three ((4, eight) ∷ []) 3 eight false refl 2 eight []
      three-IsTracked
