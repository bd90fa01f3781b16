-- ===== src/CgiServer/Find.antt =====
-- Where `process` finds the end of a line.
use c_project.Prelude.{
  ℕ, zero, suc, ◌+◌, ◌-◌, ◌≤◌, ◌<◌, ◌≡◌, refl, ap, ◌∙◌, ◌⊎◌, inl, inr, Bool, Bool-cases, ◌&&◌, none,
  some, List, [], ◌∷◌, ◌==◌, length, get_elem?, get_elem?-some, arith,
}
use c_project.CgiServer.{CgiConn, Received, bytes, Forked, find_line, process, cr, lf}

-- A line ends at `k`: CR stands before it, LF at it.
abbrev pub EndsLine : List ℕ → ℕ → Type 0
EndsLine buf k = (get_elem? buf (k - 1) ≡ some cr) × (get_elem? buf k ≡ some lf)

-- From a place behind the beginning of the buffer, for bytes that lie in it, the search for the end
-- of a line reads inside the buffer and ends: at a line feed with a carriage return before it, or
-- behind the bytes.
pub find_line-EndsLine :
    (n : ℕ) (buf : List ℕ) (i : ℕ)
    → 0 < i
    → i + n ≤ length buf
    → (k : ℕ) × (find_line n buf i ≡ some k)
      × (i ≤ k)
      × ((k ≡ i + n) ⊎ ((k < i + n) × EndsLine buf k))
unfolding find_line
find_line-EndsLine zero buf i pos inside = (i, refl, omega arith, inl (omega arith))
find_line-EndsLine (suc n) buf zero pos inside = absurd (omega arith)
find_line-EndsLine (suc n) buf (suc k) pos inside =
    let (a, before) = get_elem?-some buf k (omega arith) in
    let (b, here) = get_elem?-some buf (suc k) (omega arith) in
    elim (Bool-cases ((a == cr) && (b == lf))) [
      | inl both ↦
          let is_cr : a ≡ cr = ground arith in
          let is_lf : b ≡ lf = ground arith in
          let same : suc k - 1 ≡ k = omega arith in
          (
            suc k,
            rw (before, here, both) refl,
            omega arith,
            inr (omega arith, (rw same (before ∙ ap some is_cr), here ∙ ap some is_lf)),
          )
      | inr other ↦
          let (j, found, le, which) =
            find_line-EndsLine n buf (suc k + 1) (omega arith) (omega arith) in
          (
            j,
            rw (before, here, other) found,
            omega arith,
            elim which [
              | inl e ↦ inl (omega (arith, e))
              | inr (lt, ends) ↦ inr (omega arith, ends)
            ],
          )
    ]

-- Whenever `process` reads bytes into a buffer in which none were read before, it reads in front of
-- the buffer.
pub process-none :
    (exists : List ℕ → Bool) (forked : Forked) (s : List ℕ) (more : List Received) (c : CgiConn)
    → c.m_read_idx ≡ 0
    → 0 < length s
    → process exists forked (bytes s ∷ more) c ≡ none
unfolding process find_line
process-none exists forked [] more c new some_bytes = absurd (omega arith)
process-none exists forked (b ∷ s) more c new some_bytes = rw new refl
