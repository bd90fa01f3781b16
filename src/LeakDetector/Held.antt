-- ===== src/LeakDetector/Held.antt =====
-- The memory of the allocations that the list of LeakDetector/LeakDetector.cpp no longer holds.
use c_project.Prelude.{
  ◌≡◌, ◌≢◌, refl, sym, ◌∙◌, true, false, Option, some, List, [], ◌∷◌, ◌++◌, arith, ==_refl,
}
use c_project.Heap.{Ptr, Node, node, Heap, store, has, Chain, store-ne, ne_of_has, has-tail}
use c_project.LeakDetector.{Info}

pub has-suffix : (p : Ptr) (xs ys : List (Ptr × Info)) → has p (xs ++ ys) ≡ false → has p ys ≡ false
has-suffix p [] ys out = out
has-suffix p ((a, i) ∷ xs) ys out = has-suffix p xs ys (has-tail p a i (xs ++ ys) out)

-- The memory of every one of the allocations is still held, with what its node says of it.
abbrev pub AllHeld : Heap Info → List (Ptr × Info) → Type 0
AllHeld h [] = Unit {0}
AllHeld h ((p, i) ∷ cells) = ((q : Ptr) × (h p ≡ some (node i q))) × AllHeld h cells

-- The nodes in front of a part of a chain are apart from those in it.
abbrev pub AllApart : Ptr → List (Ptr × Info) → Type 0
AllApart p [] = Unit {0}
AllApart p ((a, i) ∷ cells) = (a ≢ p) × AllApart p cells

pub has-here : (p : Ptr) (i : Info) (cells : List (Ptr × Info)) → has p ((p, i) ∷ cells) ≡ true
has-here p i cells = rw (==_refl p) refl

pub has-next :
    (p a : Ptr) (i : Info) (cells : List (Ptr × Info))
    → has p cells ≡ true
    → has p ((a, i) ∷ cells) ≡ true
has-next p a i cells h = ground arith

pub AllApart-of_Chain :
    (h : Heap Info) (xs ys : List (Ptr × Info)) (p : Ptr)
    → has p ys ≡ true
    → Chain h (xs ++ ys)
    → AllApart p xs
AllApart-of_Chain h [] ys p inside c = tt
AllApart-of_Chain h ((a, i) ∷ xs) ys p inside (ne, at, apart, c) =
    let out : has a ys ≡ false = has-suffix a xs ys apart in
    (λ same. cc, AllApart-of_Chain h xs ys p inside c)

pub AllHeld-of_Chain :
    (h : Heap Info) (xs ys : List (Ptr × Info)) → Chain h (xs ++ ys) → AllHeld h xs
AllHeld-of_Chain h [] ys c = tt
AllHeld-of_Chain h ((a, i) ∷ xs) ys (ne, at, apart, c) = ((_, at), AllHeld-of_Chain h xs ys c)

pub AllHeld-store :
    (h : Heap Info) (p : Ptr) (n : Option (Node Info)) (xs : List (Ptr × Info))
    → AllApart p xs
    → AllHeld h xs
    → AllHeld (store h p n) xs
AllHeld-store h p n [] apart held = tt
AllHeld-store h p n ((a, i) ∷ xs) (ne, apart) ((q, at), held) =
    ((q, store-ne h p n a ne ∙ at), AllHeld-store h p n xs apart held)

pub AllApart-of_has :
    (p : Ptr) (xs ys : List (Ptr × Info)) → has p (xs ++ ys) ≡ false → AllApart p xs
AllApart-of_has p [] ys out = tt
AllApart-of_has p ((a, i) ∷ xs) ys out = (
  λ same. ne_of_has p a i (xs ++ ys) out (sym same),
  AllApart-of_has p xs ys (has-tail p a i (xs ++ ys) out),
)
