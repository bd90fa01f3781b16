-- ===== src/QueueService/Queue.antt =====
-- `Queue<T>` of queue.h: a chain behind a head node, with a pointer to a back node. What `new`
-- returns is an argument. `none` is a read through a bad pointer, or that the fuel of a walk is out.
pub mod Fifo
pub mod Ordered
pub mod Walks
use c_project.Prelude.{ℕ, zero, suc, ◌+◌, ◌-◌, Bool, Option, none, some, ltb, ◌==◌, if◌then◌else◌}
use c_project.Prelude.Options.{◌>>=◌}
use c_project.Heap.{Ptr, null, Node, node, Heap, load, store}

pub record Queue : Type 0 where
  pub front : Ptr
  pub back : Ptr

module _ {A : Type 0} where
  -- The constructor: a head node, with some value.
  unfoldable pub create : (fresh : Ptr) → A → Heap A → Queue × Heap A
  create fresh v h = (record { front = fresh; back = fresh }, store h fresh (some (node v null)))

  -- `given` is the node that is copied, with its `next`.
  unfoldable pub enqueue : (fresh : Ptr) → Node A → Queue → Heap A → Option (Queue × Heap A)
  enqueue fresh given q h = do
    let h = store h fresh (some given)
    b ← load h q.back
    some (record q { back = fresh }, store h q.back (some (record b { next = fresh })))

  unfoldable pub dequeue : Queue → Heap A → Option (Ptr × Queue × Heap A)
  dequeue q h = do
    f ← load h q.front
    if f.next == null then some (null, q, h) else (do
      r ← load h f.next
      some (
        f.next,
        (if f.next == q.back then record q { back = q.front } else q),
        store h q.front (some (record f { next = r.next })),
      ))

  -- The `while` of `orderEnqueue`: the last node before the place of `time`.
  pub walk : (A → ℕ) → ℕ → ℕ → Ptr → Heap A → Option Ptr
  walk key zero time p h = none
  walk key (suc fuel) time p h = do
    n ← load h p
    if n.next == null then some p else (do
      m ← load h n.next
      if ltb (key m.value) time then walk key fuel time n.next h else some p)

  -- `e->next = tmp->next; tmp->next = e`
  unfoldable pub link : (e p : Ptr) → Heap A → Option (Heap A)
  link e p h = do
    n ← load h p
    given ← load h e
    let h = store h e (some (record given { next = n.next }))
    some (store h p (some (record n { next = e })))

  -- `e` is allocated first; on an empty queue `enqueue` allocates a node of its own, and `e` leaks.
  unfoldable pub order_enqueue :
      (A → ℕ) → (fuel : ℕ) → (e fresh : Ptr) → Node A → Queue → Heap A → Option (Queue × Heap A)
  order_enqueue key fuel e fresh given q h = do
    let h = store h e (some given)
    f ← load h q.front
    if f.next == null
        then enqueue fresh given q h
        else (do p ← walk key fuel (key given.value) q.front h; h ← link e p h; some (q, h))

  -- The nodes from `p` on, counted into `len`.
  pub count_nodes : ℕ → ℕ → Ptr → Heap A → Option ℕ
  count_nodes zero len p h = none
  count_nodes (suc fuel) len p h =
      if p == null then some len else (do n ← load h p; count_nodes fuel (len + 1) n.next h)

  unfoldable pub length : ℕ → Queue → Heap A → Option ℕ
  length fuel q h = do len ← count_nodes fuel 0 q.front h; some (len - 1)

  -- The `while` of `clearQueue`.
  pub delete_nodes : ℕ → Ptr → Heap A → Option (Heap A)
  delete_nodes zero p h = none
  delete_nodes (suc fuel) p h =
      if p == null then some h else (do n ← load h p; delete_nodes fuel n.next (store h p none))

  unfoldable pub clear_queue : ℕ → Queue → Heap A → Option (Queue × Heap A)
  clear_queue fuel q h = do
    f ← load h q.front
    h ← delete_nodes fuel f.next h
    some (record q { back = q.front }, store h q.front (some (record f { next = null })))
