-- ===== src/LeakDetector/Tracked.antt =====
-- Which allocations the list holds.
use mathlib.Core.Path.{subst}
use c_project.Prelude.{
  ℕ, zero, suc, ◌+◌, ◌-◌, ◌%◌, ◌^◌, ◌<◌, ◌≡◌, ◌≢◌, refl, sym, ap, ◌∙◌, Bool, true, false, Option,
  none, some, List, [], ◌∷◌, ◌++◌, ◌==◌, length, arith,
}
use c_project.Heap.{
  Ptr, null, Node, node, Heap, load, store, first, has, Chain, Chain-frame, load-ok,
  not_has_of_none, store-ne, store-eq, ne_of_has, has-tail, has-cons,
}
use c_project.LeakDetector.Held.{
  has-suffix, has-here, has-next, AllHeld, AllApart, AllApart-of_Chain, AllHeld-of_Chain,
  AllHeld-store, AllApart-of_has,
}
use c_project.LeakDetector.{
  Info, Detector, same_kind, new_info, allocate_memory, unlink, delete_memory, count_leaks,
  leak_detector,
}

-- Every `prev` is that of a node made by `AllocateMemory`: it names the root.
abbrev pub AllPrev : Ptr → List (Ptr × Info) → Type 0
AllPrev root [] = Unit {0}
AllPrev root ((p, i) ∷ cells) = (i.prev ≡ root) × AllPrev root cells

-- The allocations in the list, the newest first.
pub record IsTracked (root : Ptr) (r : Info) (h : Heap Info) (cells : List (Ptr × Info))
    : Type 0 where
  pub chain : Chain h ((root, r) ∷ cells)
  pub prevs : AllPrev root cells

Chain-suffix : (h : Heap Info) (xs ys : List (Ptr × Info)) → Chain h (xs ++ ys) → Chain h ys
Chain-suffix h [] ys c = c
Chain-suffix h ((p, i) ∷ xs) ys (ne, at, apart, c) = Chain-suffix h xs ys c

AllPrev-suffix :
    (root : Ptr) (xs ys : List (Ptr × Info)) → AllPrev root (xs ++ ys) → AllPrev root ys
AllPrev-suffix root [] ys a = a
AllPrev-suffix root ((p, i) ∷ xs) ys (e, a) = AllPrev-suffix root xs ys a

module _ (root : Ptr) (r : Info) where
  -- On a list behind the root in which every `prev` is the root, with a fresh address that is not
  -- null, `AllocateMemory` puts the new allocation in front of the list, keeps every `prev` at the
  -- root, and adds the size to the bytes counted, modulo 2 ^ 64.
  pub allocate_memory-IsTracked :
      (fresh : Ptr) (size : ℕ) (is_array : Bool) (file : Option ℕ) (line : ℕ) (d : Detector)
      (cells : List (Ptr × Info))
      → fresh ≢ null
      → d.heap fresh ≡ none
      → IsTracked root r d.heap cells
      → (e : Detector) × (allocate_memory root fresh size is_array file line d ≡ some e)
        × IsTracked root r e.heap ((fresh, new_info root size is_array file line) ∷ cells)
        × (e.memory_allocated ≡ (d.memory_allocated + size) % 2 ^ 64)
  unfolding allocate_memory
  allocate_memory-IsTracked fresh size is_array file line d cells ne unused t =
      let (rne, at, apart, c) = t.chain in
      let out = not_has_of_none d.heap fresh ((root, r) ∷ cells) unused t.chain in
      let i = new_info root size is_array file line in
      let h₁ = store d.heap fresh (some (node i (first cells))) in
      let other = ne_of_has fresh root r cells out in
      (
        _,
        rw (load-ok d.heap root (node r (first cells)) rne at) refl,
        record {
          chain = (
            rne,
            store-eq h₁ root (some (node r fresh)),
            has-cons root fresh i cells (λ x. other (sym x)) apart,
            (
              ne,
              store-ne h₁ root (some (node r fresh)) fresh other
                  ∙ store-eq d.heap fresh (some (node i (first cells))),
              has-tail fresh root r cells out,
              Chain-frame h₁ root (some (node r fresh)) cells apart (
                  Chain-frame d.heap fresh (some (node i (first cells))) cells
                    (has-tail fresh root r cells out) c),
            ),
          );
          prevs = (refl, t.prevs);
        },
        refl,
      )

  count_leaks-length :
      (h : Heap Info) (fuel cnt : ℕ) (cells : List (Ptr × Info))
      → length cells < fuel
      → Chain h cells
      → count_leaks fuel cnt (first cells) h ≡ some (cnt + length cells)
  unfolding count_leaks
  count_leaks-length h zero cnt cells enough c = absurd (omega arith)
  count_leaks-length h (suc fuel) cnt [] enough c = ap some (omega arith)
  count_leaks-length h (suc fuel) cnt ((a, v) ∷ cells) enough (ne, at, apart, c) =
      let there : (a == null) ≡ false = ground arith in
      rw (there, load-ok h a (node v (first cells)) ne at)
        (count_leaks-length h fuel (cnt + 1) cells (omega arith) c ∙ ap some (omega arith))

  -- With fuel for the nodes, `LeakDetector` returns the number of the allocations in the list.
  pub leak_detector-length :
      (fuel : ℕ) (d : Detector) (cells : List (Ptr × Info))
      → length cells < fuel
      → IsTracked root r d.heap cells
      → leak_detector root fuel d ≡ some (length cells)
  unfolding leak_detector
  leak_detector-length fuel d cells enough t =
      let (rne, at, apart, c) = t.chain in
      rw (load-ok d.heap root (node r (first cells)) rne at)
        (count_leaks-length d.heap fuel 0 cells enough c ∙ ap some (omega arith))

  unlink-null :
      (i : Info) (h : Heap Info) (n : Node Info)
      → load h i.prev ≡ some n
      → unlink root (node i null) h ≡ none
  unfolding unlink load
  unlink-null i h n found = rw found refl

  unlink-next :
      (i j : Info) (q : Ptr) (older : List (Ptr × Info)) (h : Heap Info) (n : Node Info)
      → load h i.prev ≡ some n
      → q ≢ i.prev
      → q ≢ null
      → h q ≡ some (node j (first older))
      → unlink root (node i q) h
        ≡ some (
            store
              (store h i.prev (some (node n.value q)))
              q
              (some (node (record j { prev = i.prev }) (first older))))
  unfolding unlink
  unlink-next i j q older h n found other ne at =
      let h₁ = store h i.prev (some (node n.value q)) in
      rw
        (
          found,
          load-ok h₁ q (node j (first older)) ne
              (store-ne h i.prev (some (node n.value q)) q other ∙ at),
        )
        refl

  module _ (d : Detector) (newer : List (Ptr × Info)) (p : Ptr) (i : Info) (is_array : Bool)
      (kind : same_kind i.is_array is_array ≡ true) where
    root-load :
        (cells : List (Ptr × Info))
        → i.prev ≡ root
        → IsTracked root r d.heap cells
        → load d.heap i.prev ≡ some (node r (first cells))
    root-load cells e t =
        ap (load d.heap) e ∙ load-ok d.heap root (node r (first cells)) t.chain.0 t.chain.1

    -- On a list in which every `prev` is the root, deleting the oldest allocation, of the same
    -- kind, reads through the null pointer.
    pub delete_memory-oldest :
        IsTracked root r d.heap (newer ++ (p, i) ∷ []) → delete_memory root p is_array d ≡ none
    unfolding delete_memory
    delete_memory-oldest t =
        let (rne, rat, apart, c) = t.chain in
        let (ne, at, alone, nil) = Chain-suffix d.heap newer ((p, i) ∷ []) c in
        let (e, pa) = AllPrev-suffix root newer ((p, i) ∷ []) t.prevs in
        rw
          (
            load-ok d.heap p (node i null) ne at,
            kind,
            unlink-null i d.heap (node r (first (newer ++ (p, i) ∷ [])))
                (root-load (newer ++ (p, i) ∷ []) e t),
          )
          refl

    -- On a list in which every `prev` is the root, deleting an allocation of the same kind that is
    -- not the oldest leaves a list of the older ones alone: with it, every allocation made after it
    -- leaves the list. Of these only the one that is deleted gives its memory back; the memory of
    -- each newer one is still held.
    pub delete_memory-drops :
        (q : Ptr) (j : Info) (older : List (Ptr × Info))
        → IsTracked root r d.heap (newer ++ (p, i) ∷ (q, j) ∷ older)
        → (e : Detector) × (delete_memory root p is_array d ≡ some e)
          × IsTracked root r e.heap ((q, record j { prev = i.prev }) ∷ older)
          × (e.heap p ≡ none)
          × AllHeld e.heap newer
    unfolding delete_memory
    delete_memory-drops q j older t =
        let cells = newer ++ (p, i) ∷ (q, j) ∷ older in
        let (rne, rat, apart, c) = t.chain in
        let (ne, at, p_apart, (qne, qat, q_apart, oc)) =
          Chain-suffix d.heap newer ((p, i) ∷ (q, j) ∷ older) c in
        let (e, (qe, oa)) = AllPrev-suffix root newer ((p, i) ∷ (q, j) ∷ older) t.prevs in
        let root_apart = has-suffix root newer ((p, i) ∷ (q, j) ∷ older) apart in
        let j' : Info = record j { prev = i.prev } in
        let h₁ = store d.heap i.prev (some (node r q)) in
        let h₂ = store h₁ q (some (node j' (first older))) in
        let h₃ = store h₂ p none in
        let behind = has-tail root p i ((q, j) ∷ older) root_apart in
        let root_p = ne_of_has root p i ((q, j) ∷ older) root_apart in
        let root_q = ne_of_has root q j older behind in
        let p_q = ne_of_has p q j older p_apart in
        let root_older = has-tail root q j older behind in
        let apart_from : (x : Ptr) → has x ((p, i) ∷ (q, j) ∷ older) ≡ true → AllApart x newer =
          λ x inside. AllApart-of_Chain d.heap newer ((p, i) ∷ (q, j) ∷ older) x inside c in
        let unlinked =
          unlink-next i j q older d.heap (node r (first cells)) (root-load cells e t)
            (λ x. root_q (sym (x ∙ e))) qne qat in
        (
          record { heap = h₃; memory_allocated = (d.memory_allocated + 2 ^ 64 - i.size) % 2 ^ 64 },
          rw (load-ok d.heap p (node i q) ne at, kind, unlinked) refl,
          record {
            chain = (
              rne,
              store-ne h₂ p none root root_p
                  ∙ store-ne h₁ q (some (node j' (first older))) root root_q
                  ∙ ap (λ x. store d.heap x (some (node r q)) root) e
                  ∙ store-eq d.heap root (some (node r q)),
              has-cons root q j' older root_q root_older,
              (
                qne,
                store-ne h₂ p none q (λ x. p_q (sym x))
                    ∙ store-eq h₁ q (some (node j' (first older))),
                q_apart,
                Chain-frame h₂ p none older (has-tail p q j older p_apart) (
                    Chain-frame h₁ q (some (node j' (first older))) older q_apart (
                      Chain-frame d.heap i.prev (some (node r q)) older
                        (ap (λ x. has x older) e ∙ root_older) oc)),
              ),
            );
            prevs = (e, oa);
          },
          store-eq h₂ p none,
          AllHeld-store h₂ p none newer (apart_from p (has-here p i ((q, j) ∷ older))) (
              AllHeld-store h₁ q _ newer
                (apart_from q (has-next q p i ((q, j) ∷ older) (has-here q j older)))
                (AllHeld-store d.heap i.prev _ newer
                  (subst (λ x. AllApart x newer) (sym e)
                    (AllApart-of_has root newer ((p, i) ∷ (q, j) ∷ older) apart))
                  (AllHeld-of_Chain d.heap newer ((p, i) ∷ (q, j) ∷ older) c))),
        )
