-- ===== src/MemoryPool/Stack/Lifo.antt =====
-- What the stack holds, and what its operations do to that.
use c_project.Prelude.{ℕ, ◌<◌, ◌≡◌, ◌≢◌, refl, ap, ◌∙◌, false, none, some, List, ◌∷◌, length, arith}
use c_project.Prelude.Options.{◌>>=◌}
use c_project.Heap.{
  Ptr, null, node, Heap, load, store, first, Chain, Chain-frame, load-ok, not_has_of_none, store-eq,
}
use c_project.QueueService.Queue.Walks.{Without, delete_nodes-Without}
use c_project.QueueService.Queue.{delete_nodes}
use c_project.MemoryPool.Stack.{empty, push, pop, top, clear}

module _ {A : Type 0} where
  -- The nodes of the stack, the top first.
  pub record IsStack (h : Heap A) (head : Ptr) (cells : List (Ptr × A)) : Type 0 where
    pub chain : Chain h cells
    pub on_top : head ≡ first cells

  -- With a fresh address that is not null, `push` puts the element on top of those that the stack
  -- holds; `top` then returns it, and the stack is not empty.
  pub push-IsStack :
      (fresh : Ptr) (ele : A) (head : Ptr) (h : Heap A) (cells : List (Ptr × A))
      → fresh ≢ null
      → h fresh ≡ none
      → IsStack h head cells
      → let (head', h') = push fresh ele head h in
        IsStack h' head' ((fresh, ele) ∷ cells) × (top head' h' ≡ some ele) × (empty head' ≡ false)
  unfolding push top
  push-IsStack fresh ele head h cells ne unused s =
      let out = not_has_of_none h fresh cells unused s.chain in
      let at = store-eq h fresh (some (node ele head)) in
      (
        record {
          chain = (
            ne,
            at ∙ ap (λ p. some (node ele p)) s.on_top,
            out,
            Chain-frame h fresh (some (node ele head)) cells out s.chain,
          );
          on_top = refl;
        },
        rw (load-ok (store h fresh (some (node ele head))) fresh (node ele head) ne at) refl,
        ground arith,
      )

  -- On a stack that is not empty `pop` returns the top element, leaves the others in their order,
  -- and frees the node.
  pub pop-IsStack :
      (h : Heap A) (head a : Ptr) (v : A) (cells : List (Ptr × A))
      → IsStack h head ((a, v) ∷ cells)
      → (head' : Ptr) × (h' : Heap A) × (pop head h ≡ some (v, head', h'))
        × IsStack h' head' cells
        × (h' a ≡ none)
  unfolding pop
  pop-IsStack h head a v cells s =
      let (ne, at, apart, c) = s.chain in
      (
        first cells,
        store h a none,
        ap (λ p. load h p >>= (λ n. some (n.value, n.next, store h p none))) s.on_top
            ∙ rw (load-ok h a (node v (first cells)) ne at) refl,
        record { chain = Chain-frame h a none cells apart c; on_top = refl },
        store-eq h a none,
      )

  -- With fuel for the nodes, `clear` frees every node of the stack, changes no other address, and
  -- leaves the pointer to the top as it is.
  pub clear-Without :
      (h : Heap A) (head : Ptr) (cells : List (Ptr × A)) (fuel : ℕ)
      → length cells < fuel
      → IsStack h head cells
      → (h' : Heap A) × (clear fuel head h ≡ some (head, h')) × Without cells h h'
  unfolding clear
  clear-Without h head cells fuel enough s =
      let (h', run, gone) = delete_nodes-Without h fuel cells enough s.chain in
      (
        h',
        ap (λ r. r >>= (λ k. some (head, k))) (ap (λ p. delete_nodes fuel p h) s.on_top ∙ run),
        gone,
      )
