-- ===== src/LeakDetector.antt =====
-- The list of allocations of LeakDetector/LeakDetector.cpp: nodes behind the static node `_root`.
-- What `malloc` returns is an argument; `none` is a read through a bad pointer, or that the fuel of
-- a walk is out. The user's pointer stands for the node in front of it.
pub mod Held
pub mod Tracked
pub mod Reported
pub mod Tests
use c_project.Prelude.{
  ℕ, zero, suc, ◌+◌, ◌-◌, ◌%◌, ◌^◌, Bool, true, false, not, Option, none, some, ◌==◌, if◌then◌else◌,
  List, [], ◌∷◌,
}
use c_project.Prelude.Options.{◌>>=◌}
use c_project.Heap.{Ptr, null, Node, node, Heap, load, store}

-- A node but for its `next`; `file` is the copied name, if one was given.
pub record Info : Type 0 where
  pub prev : Ptr
  pub size : ℕ
  pub is_array : Bool
  pub file : Option ℕ
  pub line : ℕ

-- `_memory_allocated` has 64 bits.
pub record Detector : Type 0 where
  pub heap : Heap Info
  pub memory_allocated : ℕ

abbrev pub same_kind : Bool → Bool → Bool
same_kind true b = b
same_kind false b = not b

-- The `while` of `LeakDetector`.
pub count_leaks : (fuel cnt : ℕ) → Ptr → Heap Info → Option ℕ
count_leaks zero cnt ptr h = none
count_leaks (suc fuel) cnt ptr h =
    if ptr == null then some cnt else (do n ← load h ptr; count_leaks fuel (cnt + 1) n.next h)

module _ (root : Ptr) where
  -- The node that is filled in for an allocation.
  abbrev pub new_info : (size : ℕ) → Bool → Option ℕ → (line : ℕ) → Info
  new_info size is_array file line = record {
    prev = root;
    size = size;
    is_array = is_array;
    file = file;
    line = line;
  }

  unfoldable pub allocate_memory :
      (fresh : Ptr) → (size : ℕ) → Bool → Option ℕ → (line : ℕ) → Detector → Option Detector
  allocate_memory fresh size is_array file line d = do
    r ← load d.heap root
    some (record {
      heap =
          store (store d.heap fresh (some (node (new_info size is_array file line) r.next))) root
            (some (record r { next = fresh }));
      memory_allocated = (d.memory_allocated + size) % 2 ^ 64;
    })

  -- `curr->prev->next = curr->next; curr->next->prev = curr->prev`
  unfoldable pub unlink : Node Info → Heap Info → Option (Heap Info)
  unlink curr h = do
    p ← load h curr.value.prev
    let h = store h curr.value.prev (some (record p { next = curr.next }))
    n ← load h curr.next
    some (store h curr.next (some (record n { value = record n.value { prev = curr.value.prev } })))

  unfoldable pub delete_memory : Ptr → Bool → Detector → Option Detector
  delete_memory ptr is_array d = do
    curr ← load d.heap ptr
    if same_kind curr.value.is_array is_array
        then (do
          h ← unlink curr d.heap
          some (record {
            heap = store h ptr none;
            memory_allocated = (d.memory_allocated + 2 ^ 64 - curr.value.size) % 2 ^ 64;
          }))
        else some d

  unfoldable pub leak_detector : ℕ → Detector → Option ℕ
  leak_detector fuel d = do r ← load d.heap root; count_leaks fuel 0 r.next d.heap

  -- The operators, for which the file and the line are not known.
  abbrev pub operator_new : Ptr → ℕ → Detector → Option Detector
  operator_new fresh size = allocate_memory fresh size false none 0

  abbrev pub operator_new_array : Ptr → ℕ → Detector → Option Detector
  operator_new_array fresh size = allocate_memory fresh size true none 0

  abbrev pub operator_delete : Ptr → Detector → Option Detector
  operator_delete ptr = delete_memory ptr false

  abbrev pub operator_delete_array : Ptr → Detector → Option Detector
  operator_delete_array ptr = delete_memory ptr true

-- The static objects of the class: how many there are, and what the last of them has reported.
pub record Counter : Type 0 where
  pub call_cnt : ℕ
  pub reports : List ℕ

-- The constructor.
unfoldable pub enter : Counter → Counter
enter c = record c { call_cnt = (c.call_cnt + 1) % 2 ^ 32 }

unfoldable pub report : Option ℕ → Counter → Option Counter
report none c = none
report (some cnt) c = some (record c { reports = cnt ∷ c.reports })

-- The destructor: `if (--callCnt == 0) LeakDetector ()`.
unfoldable pub leave : Ptr → (fuel : ℕ) → Detector → Counter → Option Counter
leave root fuel d c =
    let c = record c { call_cnt = (c.call_cnt + 2 ^ 32 - 1) % 2 ^ 32 } in
    if c.call_cnt == 0 then report (leak_detector root fuel d) c else some c

abbrev pub no_object : Counter
no_object = record { call_cnt = 0; reports = [] }

-- So many constructors, and so many destructors.
unfoldable pub enter_all : ℕ → Counter → Counter
enter_all zero c = c
enter_all (suc n) c = enter (enter_all n c)

unfoldable pub leave_all : Ptr → (fuel : ℕ) → Detector → ℕ → Counter → Option Counter
leave_all root fuel d zero c = some c
leave_all root fuel d (suc n) c = do c ← leave root fuel d c; leave_all root fuel d n c
