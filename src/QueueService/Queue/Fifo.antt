-- ===== src/QueueService/Queue/Fifo.antt =====
-- `enqueue` and `dequeue` on a queue whose back node is its last.
use mathlib.Core.Path.{subst}
use c_project.Prelude.{
  ◌≡◌, ◌≢◌, refl, sym, ap, ◌∙◌, true, false, if◌then◌else◌, none, some, List, [], ◌∷◌, ◌++◌, ◌==◌,
  arith,
}
use c_project.Heap.{
  Ptr, null, Node, node, Heap, load, store, first, has, Chain, Chain-frame, load-ok,
  not_has_of_none, store-ne, store-eq, ne_of_has, has-tail, has-cons, has-snoc,
}
use c_project.QueueService.Queue.{Queue, enqueue, dequeue}

-- What `dequeue` makes of the back pointer when the node at `a` leaves.
abbrev pub back_after : Ptr → Queue → Queue
back_after a q = if a == q.back then record q { back = q.front } else q

back_after-front : (a : Ptr) (q : Queue) → (back_after a q).front ≡ q.front
back_after-front a q = ground arith

module _ {A : Type 0} where
  -- The address of the last node of a chain that begins at `p`.
  abbrev pub last_of : Ptr → List (Ptr × A) → Ptr
  last_of p [] = p
  last_of p ((a, v) ∷ cells) = last_of a cells

  -- The nodes of a queue behind its head, which holds `v`; the back node is the last.
  pub record IsFifo (h : Heap A) (q : Queue) (v : A) (cells : List (Ptr × A)) : Type 0 where
    pub chain : Chain h ((q.front, v) ∷ cells)
    pub back_last : q.back ≡ last_of q.front cells

  has-last_of :
      (p : Ptr) (v : A) (cells : List (Ptr × A)) → has (last_of p cells) ((p, v) ∷ cells) ≡ true
  has-last_of p v [] = ground arith
  has-last_of p v ((a, u) ∷ cells) = ground (arith, has-last_of a u cells)

  ne-last_of :
      (p a : Ptr) (v : A) (cells : List (Ptr × A))
      → has p ((a, v) ∷ cells) ≡ false
      → p ≢ last_of a cells
  ne-last_of p a v cells out e =
      cc (sym out ∙ ap (λ x. has x ((a, v) ∷ cells)) e ∙ has-last_of a v cells)

  -- The last node of a chain is linked to a new one.
  Chain-snoc :
      (h : Heap A) (p : Ptr) (v : A) (cells : List (Ptr × A)) (fresh : Ptr) (w : A)
      → fresh ≢ null
      → has fresh ((p, v) ∷ cells) ≡ false
      → h fresh ≡ some (node w null)
      → Chain h ((p, v) ∷ cells)
      → (b : Node A) × (load h (last_of p cells) ≡ some b)
        × Chain
            (store h (last_of p cells) (some (record b { next = fresh })))
            ((p, v) ∷ (cells ++ (fresh, w) ∷ []))
  Chain-snoc h p v [] fresh w ne out new (pne, at, apart, c) =
      let other : p ≢ fresh = λ e. ne_of_has fresh p v [] out (sym e) in
      (
        node v null,
        load-ok h p (node v null) pne at,
        (
          pne,
          store-eq h p (some (node v fresh)),
          has-cons p fresh w [] other refl,
          (ne, store-ne h p (some (node v fresh)) fresh (λ e. other (sym e)) ∙ new, refl, tt),
        ),
      )
  Chain-snoc h p v ((a, u) ∷ cells) fresh w ne out new (pne, at, apart, c) =
      let (b, found, c') =
        Chain-snoc h a u cells fresh w ne (has-tail fresh p v ((a, u) ∷ cells) out) new c in
      let linked = some (record b { next = fresh }) in
      let other : p ≢ fresh = λ e. ne_of_has fresh p v ((a, u) ∷ cells) out (sym e) in
      (
        b,
        found,
        (
          pne,
          store-ne h (last_of a cells) linked p (ne-last_of p a u cells apart) ∙ at,
          has-snoc p fresh w ((a, u) ∷ cells) apart other,
          c',
        ),
      )

  last_of-snoc :
      (p : Ptr) (cells : List (Ptr × A)) (fresh : Ptr) (w : A)
      → last_of p (cells ++ (fresh, w) ∷ []) ≡ fresh
  last_of-snoc p [] fresh w = refl
  last_of-snoc p ((a, u) ∷ cells) fresh w = last_of-snoc a cells fresh w

  -- With a fresh address that is not null, `enqueue` succeeds on a queue whose back node is its
  -- last, keeps the head, and leaves a queue that holds the nodes in their order and a copy of the
  -- given node, whose `next` is null, behind them, the back node its last again.
  pub enqueue-snoc :
      (h : Heap A) (q : Queue) (v : A) (cells : List (Ptr × A)) (fresh : Ptr) (w : A)
      → fresh ≢ null
      → h fresh ≡ none
      → IsFifo h q v cells
      → (q' : Queue) × (h' : Heap A) × (enqueue fresh (node w null) q h ≡ some (q', h'))
        × (q'.front ≡ q.front)
        × IsFifo h' q' v (cells ++ (fresh, w) ∷ [])
  unfolding enqueue
  enqueue-snoc h q v cells fresh w ne unused is =
      let out = not_has_of_none h fresh ((q.front, v) ∷ cells) unused is.chain in
      let h₁ = store h fresh (some (node w null)) in
      let c₁ = Chain-frame h fresh (some (node w null)) ((q.front, v) ∷ cells) out is.chain in
      let (b, found, c₂) =
        Chain-snoc h₁ q.front v cells fresh w ne out (store-eq h fresh (some (node w null))) c₁ in
      let at_back : load h₁ q.back ≡ some b = rw is.back_last found in
      (
        record q { back = fresh },
        store h₁ q.back (some (record b { next = fresh })),
        rw at_back,
        refl,
        record {
          chain =
              subst
                (λ x.
                  Chain (store h₁ x (some (record b { next = fresh })))
                    ((q.front, v) ∷ (cells ++ (fresh, w) ∷ [])))
                (sym is.back_last) c₂;
          back_last = sym (last_of-snoc q.front cells fresh w);
        },
      )

  dequeue-run :
      (h : Heap A) (q : Queue) (v : A) (a : Ptr) (w : A) (rest : List (Ptr × A))
      → Chain h ((q.front, v) ∷ (a, w) ∷ rest)
      → dequeue q h ≡ some (a, back_after a q, store h q.front (some (node v (first rest))))
  unfolding dequeue
  dequeue-run h q v a w rest (fne, fat, fapart, (ane, aat, aapart, c)) =
      let there : (a == null) ≡ false = ground arith in
      rw (load-ok h q.front (node v a) fne fat, there, load-ok h a (node w (first rest)) ane aat)

  dequeue-Chain :
      (h : Heap A) (p : Ptr) (v : A) (a : Ptr) (w : A) (rest : List (Ptr × A))
      → Chain h ((p, v) ∷ (a, w) ∷ rest)
      → Chain (store h p (some (node v (first rest)))) ((p, v) ∷ rest)
  dequeue-Chain h p v a w rest (pne, at, apart, (ane, aat, aapart, c)) =
      let out = has-tail p a w rest apart in
      (
        pne,
        store-eq h p (some (node v (first rest))),
        out,
        Chain-frame h p (some (node v (first rest))) rest out c,
      )

  back_after-last :
      (q : Queue) (a : Ptr) (w : A) (rest : List (Ptr × A))
      → has a rest ≡ false
      → q.back ≡ last_of a rest
      → (back_after a q).back ≡ last_of q.front rest
  back_after-last q a w [] apart e = ground arith
  back_after-last q a w ((b, u) ∷ rest) apart e =
      let other = ne-last_of a b u rest apart in ground arith

  -- On a queue that is not empty and whose back node is its last, `dequeue` returns the first node
  -- behind the head, keeps the head, and leaves a queue of the remaining nodes in their order, the
  -- back node its last.
  pub dequeue-cons :
      (h : Heap A) (q : Queue) (v : A) (a : Ptr) (w : A) (rest : List (Ptr × A))
      → IsFifo h q v ((a, w) ∷ rest)
      → (q' : Queue) × (h' : Heap A) × (dequeue q h ≡ some (a, q', h'))
        × (q'.front ≡ q.front)
        × IsFifo h' q' v rest
  dequeue-cons h q v a w rest is = (
    back_after a q,
    store h q.front (some (node v (first rest))),
    dequeue-run h q v a w rest is.chain,
    back_after-front a q,
    record {
      chain =
          subst (λ x. Chain (store h q.front (some (node v (first rest)))) ((x, v) ∷ rest))
            (sym (back_after-front a q)) (dequeue-Chain h q.front v a w rest is.chain);
      back_last =
          back_after-last q a w rest is.chain.3.2 is.back_last
          ∙ ap (λ x. last_of x rest) (sym (back_after-front a q));
    },
  )

  -- On an empty queue `dequeue` returns the null pointer and leaves the queue and the heap as they
  -- are.
  pub dequeue-nil :
      (h : Heap A) (q : Queue) (v : A) → IsFifo h q v [] → dequeue q h ≡ some (null, q, h)
  unfolding dequeue
  dequeue-nil h q v is = rw (load-ok h q.front (node v null) is.chain.0 is.chain.1)
