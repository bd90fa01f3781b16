-- ===== src/ThreadSem/Ring.antt =====
-- The ring of Thread/threadSem.c is a queue.
use mathlib.Core.Path.{subst}
use mathlib.Core.List.{append_assoc}
use c_project.Prelude.Options.{◌>>=◌}
use c_project.Prelude.{
  ℕ, suc, ◌+◌, ◌%◌, ◌≤◌, ◌<◌, ◌≡◌, ◌≢◌, refl, sym, ap, ◌∙◌, inl, inr, Bool-cases, none, some,
  some-injective, List, [], ◌∷◌, ◌++◌, ◌==◌, get_elem?, get_elem?-set_self, get_elem?-set_ne,
  get_elem?-append, get_elem?-append_left, set, length, length-append, length-set, if◌then◌else◌,
  arith,
}
use c_project.ThreadSem.{
  len, Stage, waits, works, posts, Shared, start, wait_blank, produce, post_full, wait_full,
  consume, post_blank, Reach, starts, waits_blank, produces, posts_full, waits_full, consumes,
  posts_blank,
}

abbrev pub working : Stage → ℕ
working waits = 0
working works = 1
working posts = 0

abbrev pub posting : Stage → ℕ
posting waits = 0
posting works = 0
posting posts = 1

-- `pending` stands in the ring, from the place of the next read on.
pub record IsRing (s : Shared) (pending : List ℕ) : Type 0 where
  pub size : length s.my_queue ≡ len
  pub in_order : s.produced ≡ s.consumed ++ pending
  pub room : s.blank + working s.producer + posting s.consumer + length pending ≡ len
  pub ready : s.full + posting s.producer + working s.consumer ≡ length pending
  pub p_at : (s.p + posting s.producer) % len ≡ (length s.consumed + length pending) % len
  pub p_in : s.p < len
  pub c_at : (s.c + posting s.consumer) % len ≡ length s.consumed % len
  pub c_in : s.c < len
  pub contents :
      (k : ℕ)
      → k < length pending
      → get_elem? s.my_queue ((length s.consumed + k) % len) ≡ get_elem? pending k

-- The place that is written is none of those that are still to be read.
places_apart : (n k m : ℕ) → k < m → m < 10 → (n + k) % 10 ≢ (n + m) % 10
places_apart n k m h j e = omega arith

-- The place that is read is none of those behind it.
next_apart : (n k m : ℕ) → suc k < m → m ≤ 10 → n % 10 ≢ (n + suc k) % 10
next_apart n k m h j e = omega arith

-- A number is written behind those that are pending.
module _ (queue pending : List ℕ) (n p num : ℕ) where
  write-contents :
      length queue ≡ len
      → p ≡ (n + length pending) % len
      → length pending < len
      → ((k : ℕ) → k < length pending → get_elem? queue ((n + k) % len) ≡ get_elem? pending k)
      → (k : ℕ) → k < length (pending ++ num ∷ [])
      → get_elem? (set queue p num) ((n + k) % len) ≡ get_elem? (pending ++ num ∷ []) k
  write-contents size at room before k h = elim (Bool-cases (k == length pending)) [
    | inl is_last ↦
        let e : k ≡ length pending = ground arith in
        let here : (n + k) % len ≡ p = ap (λ j. (n + j) % len) e ∙ sym at in
        ap (get_elem? (set queue p num)) here
        ∙ get_elem?-set_self queue p num (omega arith)
        ∙ sym (
            ap (get_elem? (pending ++ num ∷ [])) (e ∙ omega arith)
            ∙ get_elem?-append pending (num ∷ []) 0)
    | inr other ↦
        let l = length-append pending (num ∷ []) in
        let less : k < length pending = ground arith in
        get_elem?-set_ne queue num
          (λ e. places_apart n k (length pending) less room (sym (sym at ∙ e)))
        ∙ before k less
        ∙ sym (get_elem?-append_left pending (num ∷ []) k less)
  ]

if_positive :
    (n : ℕ) (s : Shared) {t : Shared}
    → (if n == 0 then none else some s) ≡ some t
    → (0 < n) × (t ≡ s)
if_positive n s e = elim (Bool-cases (n == 0)) [
  | inl is_zero ↦
      absurd (let x = sym (ap (λ b. if b then none else some s) is_zero) ∙ e in ground arith)
  | inr positive ↦
      (ground arith, some-injective (sym e ∙ ap (λ b. if b then none else some s) positive))
]

module _ (s : Shared) where
  wait_blank-IsRing :
      {t : Shared} (pending : List ℕ)
      → s.producer ≡ waits
      → wait_blank s ≡ some t
      → IsRing s pending
      → IsRing t pending
  unfolding wait_blank
  wait_blank-IsRing pending e gives r =
      let (positive, same) = if_positive s.blank _ gives in
      let w = ap working e in
      let p = ap posting e in
      subst (λ t. IsRing t pending) (sym same)
        (record {
          size = r.size;
          in_order = r.in_order;
          room = let m = r.room in omega arith;
          ready = let m = r.ready in omega arith;
          p_at = let m = r.p_at in omega arith;
          p_in = r.p_in;
          c_at = r.c_at;
          c_in = r.c_in;
          contents = r.contents;
        })

  wait_full-IsRing :
      {t : Shared} (pending : List ℕ)
      → s.consumer ≡ waits
      → wait_full s ≡ some t
      → IsRing s pending
      → IsRing t pending
  unfolding wait_full
  wait_full-IsRing pending e gives r =
      let (positive, same) = if_positive s.full _ gives in
      let w = ap working e in
      let p = ap posting e in
      subst (λ t. IsRing t pending) (sym same)
        (record {
          size = r.size;
          in_order = r.in_order;
          room = let m = r.room in omega arith;
          ready = let m = r.ready in omega arith;
          p_at = r.p_at;
          p_in = r.p_in;
          c_at = let m = r.c_at in omega arith;
          c_in = r.c_in;
          contents = r.contents;
        })

  post_full-IsRing :
      (pending : List ℕ) → s.producer ≡ posts → IsRing s pending → IsRing (post_full s) pending
  unfolding post_full
  post_full-IsRing pending e r =
      let w = ap working e in
      let p = ap posting e in
      record {
        size = r.size;
        in_order = r.in_order;
        room = let m = r.room in omega arith;
        ready = let m = r.ready in omega arith;
        p_at = let m = r.p_at in omega arith;
        p_in = omega arith;
        c_at = r.c_at;
        c_in = r.c_in;
        contents = r.contents;
      }

  post_blank-IsRing :
      (pending : List ℕ) → s.consumer ≡ posts → IsRing s pending → IsRing (post_blank s) pending
  unfolding post_blank
  post_blank-IsRing pending e r =
      let w = ap working e in
      let p = ap posting e in
      record {
        size = r.size;
        in_order = r.in_order;
        room = let m = r.room in omega arith;
        ready = let m = r.ready in omega arith;
        p_at = r.p_at;
        p_in = r.p_in;
        c_at = let m = r.c_at in omega arith;
        c_in = omega arith;
        contents = r.contents;
      }

  produce-IsRing :
      (num : ℕ) (pending : List ℕ)
      → s.producer ≡ works
      → IsRing s pending
      → IsRing (produce num s) (pending ++ num ∷ [])
  unfolding produce
  produce-IsRing num pending e r =
      let w = ap working e in
      let p = ap posting e in
      let l = length-append pending (num ∷ []) in
      let at : s.p ≡ (length s.consumed + length pending) % len =
        let m = r.p_at in let k = r.p_in in omega arith in
      record {
        size = length-set s.my_queue s.p num ∙ r.size;
        in_order = ap (λ t. t ++ num ∷ []) r.in_order ∙ append_assoc s.consumed pending (num ∷ []);
        room = let m = r.room in omega arith;
        ready = let m = r.ready in omega arith;
        p_at = let m = r.p_at in omega arith;
        p_in = r.p_in;
        c_at = r.c_at;
        c_in = r.c_in;
        contents =
            write-contents s.my_queue pending (length s.consumed) s.p num r.size at
              (let m = r.room in omega arith) r.contents;
      }

  -- The number that is read is the first of those that are pending.
  consume-IsRing :
      {t : Shared} (pending : List ℕ)
      → s.consumer ≡ works
      → consume s ≡ some t
      → IsRing s pending
      → (rest : List ℕ) × IsRing t rest
  unfolding consume
  consume-IsRing [] e gives r = absurd (let w = ap working e in let m = r.ready in omega arith)
  consume-IsRing (num ∷ rest) e gives r =
      let w = ap working e in
      let p = ap posting e in
      let n = length s.consumed in
      let at : s.c ≡ n % len = let m = r.c_at in let k = r.c_in in omega arith in
      let here : (n + 0) % len ≡ s.c = ap (λ j. j % len) (omega arith) ∙ sym at in
      let there : get_elem? s.my_queue s.c ≡ some num =
        sym (ap (get_elem? s.my_queue) here) ∙ r.contents 0 (omega arith) in
      let l = length-append s.consumed (num ∷ []) in
      let after = record s {
        my_queue = set s.my_queue s.c 0;
        consumed = s.consumed ++ num ∷ [];
        consumer = posts;
      } in
      let same : after ≡ _ = some-injective (
        sym (
          ap
            (λ o. o >>= (λ num. some (record s {
              my_queue = set s.my_queue s.c 0;
              consumed = s.consumed ++ num ∷ [];
              consumer = posts;
            })))
            there)
        ∙ gives) in
      let further : (k : ℕ) → length (s.consumed ++ num ∷ []) + k ≡ n + suc k = λ k. omega arith in
      let apart : (k : ℕ) → k < length rest → n % len ≢ (n + suc k) % len =
        λ k h. next_apart n k (suc (length rest)) (omega arith) (let m = r.room in omega arith) in
      (
        rest,
        subst (λ t. IsRing t rest) same
            (record {
              size = length-set s.my_queue s.c 0 ∙ r.size;
              in_order = r.in_order ∙ sym (append_assoc s.consumed (num ∷ []) rest);
              room = let m = r.room in omega arith;
              ready = let m = r.ready in omega arith;
              p_at = r.p_at ∙ ap (λ j. j % len) (omega arith);
              p_in = r.p_in;
              c_at = let m = r.c_at in omega arith;
              c_in = r.c_in;
              contents = λ k h.
                  ap (λ j. get_elem? (set s.my_queue s.c 0) (j % len)) (further k)
                  ∙ get_elem?-set_ne s.my_queue 0 (λ x. apart k h (sym at ∙ x))
                  ∙ r.contents (suc k) (omega arith);
            }),
      )

replicate_size : length start.my_queue ≡ len
unfolding start
replicate_size = refl

-- In every state that the producer and the consumer reach, in any order of their steps, the ring is
-- a queue: the numbers produced are those consumed, and behind them those pending, in their order;
-- these stand in the ring from the place of the next read on; and with the units of the semaphore
-- `blank`, and those that the two hold, they are ten, so that no number is written over before it
-- is read.
pub Reach-IsRing : {s : Shared} → Reach s → (pending : List ℕ) × IsRing s pending
unfolding start
Reach-IsRing starts = (
  [],
  record {
    size = replicate_size;
    in_order = refl;
    room = refl;
    ready = refl;
    p_at = refl;
    p_in = omega arith;
    c_at = refl;
    c_in = omega arith;
    contents = λ k h. absurd (omega arith);
  },
)
Reach-IsRing (waits_blank {s = s} run e gives) =
    let (pending, r) = Reach-IsRing run in (pending, wait_blank-IsRing s pending e gives r)
Reach-IsRing (produces {s = s} num run e) =
    let (pending, r) = Reach-IsRing run in (pending ++ num ∷ [], produce-IsRing s num pending e r)
Reach-IsRing (posts_full {s = s} run e) =
    let (pending, r) = Reach-IsRing run in (pending, post_full-IsRing s pending e r)
Reach-IsRing (waits_full {s = s} run e gives) =
    let (pending, r) = Reach-IsRing run in (pending, wait_full-IsRing s pending e gives r)
Reach-IsRing (consumes {s = s} run e gives) =
    let (pending, r) = Reach-IsRing run in consume-IsRing s pending e gives r
Reach-IsRing (posts_blank {s = s} run e) =
    let (pending, r) = Reach-IsRing run in (pending, post_blank-IsRing s pending e r)
