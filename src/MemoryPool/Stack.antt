-- ===== src/MemoryPool/Stack.antt =====
-- `StackAlloc<T>` of MemoryPool/StackAlloc.h, on a heap of nodes. What the allocator returns is an
-- argument; `none` is a read through a bad pointer, or that the fuel of `clear` is out.
pub mod Lifo
use c_project.Prelude.{ℕ, suc, Bool, Option, none, some, ◌==◌}
use c_project.Prelude.Options.{◌>>=◌}
use c_project.Heap.{Ptr, null, Node, node, Heap, load, store}
use c_project.QueueService.Queue.{delete_nodes}

-- A stack is its `head_`; `prev` is the `next` of a node.
abbrev pub create : Ptr
create = null

abbrev pub empty : Ptr → Bool
empty head = head == null

module _ {A : Type 0} where
  unfoldable pub push : (fresh : Ptr) → A → Ptr → Heap A → Ptr × Heap A
  push fresh ele head h = (fresh, store h fresh (some (node ele head)))

  unfoldable pub pop : Ptr → Heap A → Option (A × Ptr × Heap A)
  pop head h = do n ← load h head; some (n.value, n.next, store h head none)

  unfoldable pub top : Ptr → Heap A → Option A
  top head h = do n ← load h head; some n.value

  -- The same loop as that of `clearQueue`; the pointer itself is left as it is.
  unfoldable pub clear : ℕ → Ptr → Heap A → Option (Ptr × Heap A)
  clear fuel head h = do h ← delete_nodes fuel head h; some (head, h)
