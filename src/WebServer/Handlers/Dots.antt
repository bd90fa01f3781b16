-- ===== src/WebServer/Handlers/Dots.antt =====
-- The path of the default resource: every dot but the last one is taken out.
use mathlib.Core.List.{append_assoc}
use mathlib.Core.Option.{some-injective}
use c_project.Prelude.{
  ℕ, zero, suc, ◌+◌, ◌-◌, ◌≤◌, ◌<◌, ◌≡◌, refl, sym, ap, ◌∙◌, inl, inr, true, false, Bool-cases,
  ==_refl, Option, none, some, [], ◌∷◌, ◌++◌, ◌==◌, if◌then◌else◌, length, length-append, arith,
}
use c_project.Prelude.Sums.{count}
use c_project.WebServer.Parser.{Text, has_char}
use c_project.WebServer.Parser.Lines.{Free, Free-uncons, Free-append}
use c_project.WebServer.Handlers.{
  dot, find, rfind, erase, is_pos, pred_pos, filter_loop, filter_path,
}
use c_project.WebServer.Handlers.Search.{
  strip_dots, find-append, find-Free, rfind-append, rfind-has, erase-append, split_first,
  strip_dots-Free, strip_dots-append, rfind-cons, rfind-last, strip_dots-more, strip_dots-last,
}

-- A round, on what the search gives.
abbrev after_find : (fuel : ℕ) → (last_pos : Option ℕ) → Text → Option ℕ → Option Text
after_find fuel last_pos path none = some path
after_find fuel last_pos path (some pos) =
    if is_pos pos last_pos
    then some path
    else filter_loop fuel pos (pred_pos last_pos) (erase pos path)

filter_loop-after_find :
    (fuel from : ℕ) (last_pos : Option ℕ) (path : Text)
    → filter_loop (suc fuel) from last_pos path ≡ after_find fuel last_pos path (find dot from path)
unfolding filter_loop
filter_loop-after_find fuel from last_pos path =
    elim (find dot from path)
      as (λ o.
        (elim o [
          | none ↦ some path
          | some pos ↦
              if is_pos pos last_pos
              then some path
              else filter_loop fuel pos (pred_pos last_pos) (erase pos path)
        ])
        ≡ after_find fuel last_pos path o) [ none ↦ refl | some pos ↦ refl ]

module _ (fuel from : ℕ) (before : Text) (free : Free dot before) (at : from ≤ length before) where
  -- The last dot stays.
  filter_loop-last :
      (text : Text)
      → filter_loop (suc fuel) from (some (length before)) (before ++ dot ∷ text)
        ≡ some (before ++ dot ∷ text)
  filter_loop-last text =
      filter_loop-after_find fuel from (some (length before)) (before ++ dot ∷ text)
      ∙ ap (after_find fuel (some (length before)) (before ++ dot ∷ text))
          (find-append dot from before text at free)
      ∙ ap
          (λ b.
            if b
            then some (before ++ dot ∷ text)
            else filter_loop fuel (length before) (pred_pos (some (length before)))
                (erase (length before) (before ++ dot ∷ text)))
          (==_refl (length before))

  -- Another dot goes.
  filter_loop-more :
      (text : Text) (pos : ℕ)
      → filter_loop (suc fuel) from (some (length before + suc pos)) (before ++ dot ∷ text)
        ≡ filter_loop fuel (length before) (some (length before + pos)) (before ++ text)
  filter_loop-more text pos =
      let other : (length before == (length before + suc pos)) ≡ false = ground arith in
      let less : length before + suc pos - 1 ≡ length before + pos = omega arith in
      filter_loop-after_find fuel from (some (length before + suc pos)) (before ++ dot ∷ text)
      ∙ ap (after_find fuel (some (length before + suc pos)) (before ++ dot ∷ text))
          (find-append dot from before text at free)
      ∙ ap
          (λ b.
            if b
            then some (before ++ dot ∷ text)
            else filter_loop fuel (length before) (some (length before + suc pos - 1))
                (erase (length before) (before ++ dot ∷ text)))
          other
      ∙ ap
          (λ n.
            filter_loop fuel (length before) (some n)
              (erase (length before) (before ++ dot ∷ text)))
          less
      ∙ ap (filter_loop fuel (length before) (some (length before + pos)))
          (erase-append before text dot)

-- The loop leaves what is before its position, and strips the rest.
filter_loop-strip_dots :
    (fuel from : ℕ) (before text : Text)
    → Free dot before
    → from ≤ length before
    → length text < fuel
    → filter_loop fuel from (rfind dot (before ++ text)) (before ++ text)
      ≡ some (before ++ strip_dots text)
filter_loop-strip_dots zero from before text free at enough = absurd (omega arith)
filter_loop-strip_dots (suc fuel) from before text free at enough =
    elim (Bool-cases (has_char dot text)) [
      | inr none_left ↦
          filter_loop-after_find fuel from (rfind dot (before ++ text)) (before ++ text)
          ∙ ap (after_find fuel (rfind dot (before ++ text)) (before ++ text))
              (find-Free dot from (before ++ text) (Free-append dot before text free none_left))
          ∙ ap (λ t. some (before ++ t)) (sym (strip_dots-Free text none_left))
      | inl some_left ↦
          let (b, behind, e, first) = split_first dot text some_left in
          let head = before ++ b in
          let head_free : Free dot head = Free-append dot before b free first in
          let far : from ≤ length head = let l = length-append before b in omega arith in
          let split : before ++ text ≡ head ++ dot ∷ behind =
            ap (λ t. before ++ t) e ∙ sym (append_assoc before b (dot ∷ behind)) in
          let stripped : head ++ strip_dots (dot ∷ behind) ≡ before ++ strip_dots text =
            append_assoc before b (strip_dots (dot ∷ behind))
            ∙ ap (λ t. before ++ t) (sym (strip_dots-append b (dot ∷ behind) first))
            ∙ ap (λ t. before ++ strip_dots t) (sym e) in
          ap (λ t. filter_loop (suc fuel) from (rfind dot t) t) split
          ∙ elim (Bool-cases (has_char dot behind)) [
            | inr last_one ↦
                ap (λ o. filter_loop (suc fuel) from o (head ++ dot ∷ behind))
                  (rfind-append dot head (dot ∷ behind) 0 (rfind-last behind last_one)
                    ∙ ap some (omega arith))
                ∙ filter_loop-last fuel from head head_free far behind
                ∙ ap (λ t. some (head ++ t)) (sym (strip_dots-last behind last_one))
            | inl more ↦
                let (pos, found) = rfind-has dot behind more in
                ap (λ o. filter_loop (suc fuel) from o (head ++ dot ∷ behind))
                  (rfind-append dot head (dot ∷ behind) (suc pos) (rfind-cons behind pos found))
                ∙ filter_loop-more fuel from head head_free far behind pos
                ∙ ap (λ o. filter_loop fuel (length head) o (head ++ behind))
                    (sym (rfind-append dot head behind pos found))
                ∙ filter_loop-strip_dots fuel (length head) head behind head_free (omega arith)
                    (let l = ap length e in let m = length-append b (dot ∷ behind) in omega arith)
                ∙ ap (λ t. some (head ++ t)) (sym (strip_dots-more behind more))
          ]
          ∙ ap some stripped
    ]

-- The loop that erases dots from a path, while the positions of the dots move, ends for every path
-- within as many rounds as the path has characters and one more, and gives the path with every dot
-- but the last one left out.
pub filter_path-strip_dots : (path : Text) → filter_path path ≡ some (strip_dots path)
unfolding filter_path has_char
filter_path-strip_dots path =
    filter_loop-strip_dots (suc (length path)) 0 [] path refl (omega arith) (omega arith)

count-Free : (text : Text) → Free dot text → count dot text ≡ 0
count-Free [] free = refl
count-Free (c ∷ text) free =
    let (ne, rest) = Free-uncons dot c text free in
    let none_here : (dot == c) ≡ false = ground arith in
    let none_there = count-Free text rest in rw none_here (omega arith)

count-strip_dots : (text : Text) → count dot (strip_dots text) ≤ 1
unfolding strip_dots
count-strip_dots [] = omega arith
count-strip_dots (c ∷ text) =
    let rest = count-strip_dots text in
    elim (Bool-cases (c == dot)) [
      | inr other ↦
          let none_here : (dot == c) ≡ false = ground arith in rw (other, none_here) (omega arith)
      | inl is_dot ↦ elim (Bool-cases (has_char dot text)) [
        | inl more ↦ rw (is_dot, more) rest
        | inr last_one ↦
            let none_there =
              ap (count dot) (strip_dots-Free text last_one) ∙ count-Free text last_one in
            let one_here : (dot == c) ≡ true = ground arith in
            rw (is_dot, last_one, one_here) (omega arith)
      ]
    ]

-- At most one dot is left.
pub count-filter_path : (path out : Text) → filter_path path ≡ some out → count dot out ≤ 1
count-filter_path path out e =
    let same : out ≡ strip_dots path =
      some-injective out (strip_dots path) (sym e ∙ filter_path-strip_dots path) in
    rw same (count-strip_dots path)
