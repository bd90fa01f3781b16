-- ===== src/QueueService/Queue/Ordered.antt =====
-- `orderEnqueue` puts an event in its place.
use c_project.Prelude.{
  ℕ, zero, suc, ◌≤◌, ◌<◌, ◌≡◌, ◌≢◌, refl, sym, ap, ◌∙◌, inl, inr, Bool-cases, true, false,
  if◌then◌else◌, Option, none, some, List, [], ◌∷◌, ltb, ◌==◌, length, arith,
}
use c_project.Heap.{
  Ptr, null, Node, node, Heap, store, first, has, Chain, Chain-frame, load-ok, not_has_of_none,
  store-ne, store-eq, ne_of_has, has-tail, has-cons,
}
use c_project.QueueService.Queue.{Queue, walk, link, order_enqueue}

module _ {A : Type 0} (key : A → ℕ) where
  -- The list with a cell put before the first that is not earlier.
  pub insert : Ptr × A → List (Ptr × A) → List (Ptr × A)
  insert (e, w) [] = (e, w) ∷ []
  insert (e, w) ((a, u) ∷ cells) =
      if ltb (key u) (key w) then (a, u) ∷ insert (e, w) cells else (e, w) ∷ (a, u) ∷ cells

  has-insert :
      (p e : Ptr) (w : A) (cells : List (Ptr × A))
      → p ≢ e
      → has p cells ≡ false
      → has p (insert (e, w) cells) ≡ false
  unfolding insert
  has-insert p e w [] ne out = has-cons p e w [] ne refl
  has-insert p e w ((a, u) ∷ cells) ne out = elim (Bool-cases (ltb (key u) (key w))) [
    | inl earlier ↦ rw earlier (
        has-cons p a u (insert (e, w) cells) (ne_of_has p a u cells out)
          (has-insert p e w cells ne (has-tail p a u cells out)))
    | inr later ↦ rw later (has-cons p e w ((a, u) ∷ cells) ne out)
  ]

  has-insert_mono :
      (p e : Ptr) (w : A) (cells : List (Ptr × A))
      → has p cells ≡ true
      → has p (insert (e, w) cells) ≡ true
  unfolding insert
  has-insert_mono p e w [] inside = cc
  has-insert_mono p e w ((a, u) ∷ cells) inside = ground (arith, has-insert_mono p e w cells)

  has-kept :
      (c : Ptr × A) (p e : Ptr) (w : A) (cells : List (Ptr × A))
      → has p (c ∷ cells) ≡ true
      → has p (c ∷ insert (e, w) cells) ≡ true
  has-kept (a, u) p e w cells inside = ground (arith, has-insert_mono p e w cells)

  -- In the order of their keys.
  abbrev pub IsSorted : List (Ptr × A) → Type 0
  IsSorted [] = Unit {0}
  IsSorted ((a, u) ∷ []) = Unit {0}
  IsSorted ((a, u) ∷ (b, v) ∷ cells) = (key u ≤ key v) × IsSorted ((b, v) ∷ cells)

  -- The list stays sorted, whatever event is put in.
  pub insert-IsSorted :
      (e : Ptr) (w : A) (cells : List (Ptr × A)) → IsSorted cells → IsSorted (insert (e, w) cells)
  unfolding insert
  insert-IsSorted e w [] s = tt
  insert-IsSorted e w ((a, u) ∷ []) s = ground arith
  insert-IsSorted e w ((a, u) ∷ (b, v) ∷ cells) s =
      let rest = insert-IsSorted e w ((b, v) ∷ cells) s.1 in ground arith

  module _ (e : Ptr) (w : A) (ne : e ≢ null) where
    -- The heap after `link` behind the node at `p`.
    abbrev linked : Heap A → Ptr → A → List (Ptr × A) → Heap A
    linked h p v cells = store (store h e (some (node w (first cells)))) p (some (node v e))

    link-linked :
        (h : Heap A) (p : Ptr) (v : A) (cells : List (Ptr × A))
        → h e ≡ some (node w null)
        → Chain h ((p, v) ∷ cells)
        → link e p h ≡ some (linked h p v cells)
    unfolding link
    link-linked h p v cells new (pne, at, apart, c) =
        rw (load-ok h p (node v (first cells)) pne at, load-ok h e (node w null) ne new)

    Chain-linked :
        (h : Heap A) (p : Ptr) (v : A) (cells : List (Ptr × A))
        → has e ((p, v) ∷ cells) ≡ false
        → Chain h ((p, v) ∷ cells)
        → Chain (linked h p v cells) ((p, v) ∷ (e, w) ∷ cells)
    Chain-linked h p v cells out (pne, at, apart, c) =
        let e_p = ne_of_has e p v cells out in
        let h₁ = store h e (some (node w (first cells))) in
        (
          pne,
          store-eq h₁ p (some (node v e)),
          has-cons p e w cells (λ x. e_p (sym x)) apart,
          (
            ne,
            store-ne h₁ p (some (node v e)) e e_p ∙ store-eq h e (some (node w (first cells))),
            has-tail e p v cells out,
            Chain-frame h₁ p (some (node v e)) cells apart
                (Chain-frame h e (some (node w (first cells))) cells (has-tail e p v cells out) c),
          ),
        )

    -- What the walk from `p` and the link make of a chain.
    record Placed (fuel : ℕ) (h : Heap A) (p : Ptr) (v : A) (cells : List (Ptr × A)) : Type 0 where
      place : Ptr
      after : Heap A
      walks : walk key fuel (key w) p h ≡ some place
      links : link e place h ≡ some after
      inside : has place ((p, v) ∷ cells) ≡ true
      chain : Chain after ((p, v) ∷ insert (e, w) cells)
      others : (a : Ptr) → a ≢ place → a ≢ e → after a ≡ h a

    linked-others :
        (h : Heap A) (p : Ptr) (v : A) (cells : List (Ptr × A)) (a : Ptr)
        → a ≢ p
        → a ≢ e
        → linked h p v cells a ≡ h a
    linked-others h p v cells a x y =
        store-ne (store h e (some (node w (first cells)))) p (some (node v e)) a x
        ∙ store-ne h e (some (node w (first cells))) a y

    place_here :
        (fuel : ℕ) (h : Heap A) (p : Ptr) (v : A) (cells : List (Ptr × A))
        → h e ≡ some (node w null)
        → has e ((p, v) ∷ cells) ≡ false
        → Chain h ((p, v) ∷ cells)
        → walk key fuel (key w) p h ≡ some p
        → insert (e, w) cells ≡ (e, w) ∷ cells
        → Placed fuel h p v cells
    place_here fuel h p v cells new out c walks same = record {
      place = p;
      after = linked h p v cells;
      walks = walks;
      links = link-linked h p v cells new c;
      inside = ground arith;
      chain = rw same (Chain-linked h p v cells out c);
      others = linked-others h p v cells;
    }

    walk-step :
        (fuel : ℕ) (h : Heap A) (p : Ptr) (v : A) (a : Ptr) (u : A) (cells : List (Ptr × A))
        → Chain h ((p, v) ∷ (a, u) ∷ cells)
        → walk key (suc fuel) (key w) p h
          ≡ (if ltb (key u) (key w) then walk key fuel (key w) a h else some p)
    unfolding walk
    walk-step fuel h p v a u cells (pne, at, apart, (ane, aat, aapart, c)) =
        let there : (a == null) ≡ false = ground arith in
        rw (load-ok h p (node v a) pne at, there, load-ok h a (node u (first cells)) ane aat)

    place_further :
        (fuel : ℕ) (h : Heap A) (p : Ptr) (v : A) (a : Ptr) (u : A) (cells : List (Ptr × A))
        → has e ((p, v) ∷ (a, u) ∷ cells) ≡ false
        → Chain h ((p, v) ∷ (a, u) ∷ cells)
        → ltb (key u) (key w) ≡ true
        → Placed fuel h a u cells
        → Placed (suc fuel) h p v ((a, u) ∷ cells)
    unfolding insert
    place_further fuel h p v a u cells out (pne, at, apart, c) earlier f = record {
      place = f.place;
      after = f.after;
      walks = walk-step fuel h p v a u cells (pne, at, apart, c) ∙ rw earlier f.walks;
      links = f.links;
      inside = ground (arith, f.inside);
      chain = rw earlier (
        pne,
        f.others p p_place p_e ∙ at,
        has-cons p a u (insert (e, w) cells) (ne_of_has p a u cells apart)
            (has-insert p e w cells p_e (has-tail p a u cells apart)),
        f.chain,
      );
      others = f.others;
    }
      where
        p_e : p ≢ e
        p_e x = ne_of_has e p v ((a, u) ∷ cells) out (sym x)

        p_place : p ≢ f.place
        p_place x = cc (sym apart ∙ ap (λ y. has y ((a, u) ∷ cells)) x ∙ f.inside)

    place_lem :
        (fuel : ℕ) (h : Heap A) (p : Ptr) (v : A) (cells : List (Ptr × A))
        → length cells < fuel
        → h e ≡ some (node w null)
        → has e ((p, v) ∷ cells) ≡ false
        → Chain h ((p, v) ∷ cells)
        → Placed fuel h p v cells
    unfolding walk insert
    place_lem zero h p v cells enough new out c = absurd (omega arith)
    place_lem (suc fuel) h p v [] enough new out c =
        place_here (suc fuel) h p v [] new out c (rw (load-ok h p (node v null) c.0 c.1)) refl
    place_lem (suc fuel) h p v ((a, u) ∷ cells) enough new out (pne, at, apart, c) =
        elim (Bool-cases (ltb (key u) (key w))) [
          | inl earlier ↦
              place_further fuel h p v a u cells out (pne, at, apart, c) earlier
                (place_lem fuel h a u cells (omega arith) new (has-tail e p v ((a, u) ∷ cells) out)
                  c)
          | inr later ↦
              place_here (suc fuel) h p v ((a, u) ∷ cells) new out (pne, at, apart, c)
                (walk-step fuel h p v a u cells (pne, at, apart, c) ∙ rw later) (rw later)
        ]

  -- The event list: the back node is the head, or one of the nodes.
  pub record IsEvents (h : Heap A) (q : Queue) (v : A) (cells : List (Ptr × A)) : Type 0 where
    pub chain : Chain h ((q.front, v) ∷ cells)
    pub back_in : has q.back ((q.front, v) ∷ cells) ≡ true

  -- On an event list that is not empty, with fuel for the nodes behind the head, a fresh address
  -- that is not null, and a back node that is the head or one of the nodes, `orderEnqueue` returns
  -- the same queue over a heap in which the event stands before the first event that is not
  -- earlier, and the back node is still the head or one of the nodes.
  pub order_enqueue-insert :
      (fuel : ℕ) (e fresh : Ptr) (w : A) (h : Heap A) (q : Queue) (v : A) (c : Ptr × A)
      (cells : List (Ptr × A))
      → length (c ∷ cells) < fuel
      → e ≢ null
      → h e ≡ none
      → IsEvents h q v (c ∷ cells)
      → (h' : Heap A) × (order_enqueue key fuel e fresh (node w null) q h ≡ some (q, h'))
        × IsEvents h' q v (insert (e, w) (c ∷ cells))
  unfolding order_enqueue
  order_enqueue-insert fuel e fresh w h q v (a, u) cells enough ne unused is =
      (f.after, run, record { chain = f.chain; back_in = kept })
    where
      given : Option (Node A)
      given = some (node w null)

      out : has e ((q.front, v) ∷ (a, u) ∷ cells) ≡ false
      out = not_has_of_none h e ((q.front, v) ∷ (a, u) ∷ cells) unused is.chain

      chained : Chain (store h e given) ((q.front, v) ∷ (a, u) ∷ cells)
      chained = Chain-frame h e given ((q.front, v) ∷ (a, u) ∷ cells) out is.chain

      f : Placed e w ne fuel (store h e given) q.front v ((a, u) ∷ cells)
      f =
          place_lem e w ne fuel (store h e given) q.front v ((a, u) ∷ cells) enough
            (store-eq h e given) out chained

      filled : (a == null) ≡ false
      filled = let a_null = chained.3.0 in ground arith

      run : order_enqueue key fuel e fresh (node w null) q h ≡ some (q, f.after)
      run = rw (
        load-ok (store h e given) q.front (node v a) chained.0 chained.1,
        filled,
        f.walks,
        f.links,
      )

      kept : has q.back ((q.front, v) ∷ insert (e, w) ((a, u) ∷ cells)) ≡ true
      kept = has-kept (q.front, v) q.back e w ((a, u) ∷ cells) is.back_in
