-- ===== src/QueueService/Queue/Walks.antt =====
-- `length` and `clearQueue`.
use c_project.Prelude.{
  ℕ, zero, suc, ◌+◌, ◌<◌, ◌≡◌, ◌≢◌, refl, ap, ◌∙◌, false, if◌then◌else◌, none, some, List, [], ◌∷◌,
  ◌==◌, arith,
}
use c_project.Prelude.Lists
use c_project.Heap.{
  Ptr, null, node, Heap, store, first, has, Chain, Chain-frame, load-ok, store-ne, store-eq,
}
use c_project.QueueService.Queue.{Queue, count_nodes, length, delete_nodes, clear_queue}

module _ {A : Type 0} where
  count_nodes-length :
      (h : Heap A) (fuel len : ℕ) (cells : List (Ptr × A))
      → Lists.length cells < fuel
      → Chain h cells
      → count_nodes fuel len (first cells) h ≡ some (len + Lists.length cells)
  unfolding count_nodes
  count_nodes-length h zero len cells enough c = absurd (omega arith)
  count_nodes-length h (suc fuel) len [] enough c = ap some (omega arith)
  count_nodes-length h (suc fuel) len ((a, v) ∷ cells) enough (ne, at, apart, c) =
      let there : (a == null) ≡ false = ground arith in
      rw (there, load-ok h a (node v (first cells)) ne at)
        (count_nodes-length h fuel (len + 1) cells (omega arith) c ∙ ap some (omega arith))

  -- With fuel for the nodes and the head, `length` of a queue is the number of the nodes behind its
  -- head.
  pub length_lem :
      (h : Heap A) (q : Queue) (v : A) (cells : List (Ptr × A)) (fuel : ℕ)
      → Lists.length cells + 1 < fuel
      → Chain h ((q.front, v) ∷ cells)
      → length fuel q h ≡ some (Lists.length cells)
  unfolding length
  length_lem h q v cells fuel enough c =
      rw (count_nodes-length h fuel 0 ((q.front, v) ∷ cells) (omega arith) c)
        (ap some (omega arith))

  -- What is left when the nodes of a chain have been deleted.
  abbrev pub Without : List (Ptr × A) → Heap A → Heap A → Type 0
  Without cells h h' = (a : Ptr) → h' a ≡ (if has a cells then none else h a)

  pub delete_nodes-Without :
      (h : Heap A) (fuel : ℕ) (cells : List (Ptr × A))
      → Lists.length cells < fuel
      → Chain h cells
      → (h' : Heap A) × (delete_nodes fuel (first cells) h ≡ some h') × Without cells h h'
  unfolding delete_nodes
  delete_nodes-Without h zero cells enough c = absurd (omega arith)
  delete_nodes-Without h (suc fuel) [] enough c = (h, refl, λ a. refl)
  delete_nodes-Without h (suc fuel) ((a, v) ∷ cells) enough (ne, at, apart, c) =
      let there : (a == null) ≡ false = ground arith in
      let (h', run, gone) =
        delete_nodes-Without (store h a none) fuel cells (omega arith)
          (Chain-frame h a none cells apart c) in
      (h', rw (there, load-ok h a (node v (first cells)) ne at) run, λ b. ground (arith, gone b))

  -- With fuel for the nodes behind the head, `clearQueue` succeeds, leaves the head node alone in
  -- its chain with the back pointer at it, frees every other node of the queue, and changes no
  -- other address.
  pub clear_queue-Without :
      (h : Heap A) (q : Queue) (v : A) (cells : List (Ptr × A)) (fuel : ℕ)
      → Lists.length cells < fuel
      → Chain h ((q.front, v) ∷ cells)
      → (h' : Heap A) × (clear_queue fuel q h ≡ some (record q { back = q.front }, h'))
        × Chain h' ((q.front, v) ∷ [])
        × ((a : Ptr) → a ≢ q.front → h' a ≡ (if has a cells then none else h a))
  unfolding clear_queue
  clear_queue-Without h q v cells fuel enough (ne, at, apart, c) =
      let (h', run, gone) = delete_nodes-Without h fuel cells enough c in
      let emptied = some (node v null) in
      (
        store h' q.front emptied,
        rw (load-ok h q.front (node v (first cells)) ne at, run),
        (ne, store-eq h' q.front emptied, refl, tt),
        λ a other. store-ne h' q.front emptied a other ∙ gone a,
      )
