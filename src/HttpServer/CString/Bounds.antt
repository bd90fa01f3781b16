-- ===== src/HttpServer/CString/Bounds.antt =====
-- Where the strings and offsets of CString.antt lie in their array.
use c_project.Prelude.{
  ℕ, zero, suc, ◌+◌, ◌-◌, ◌≤◌, ◌<◌, ◌≡◌, Bool, some, List, [], ◌∷◌, arith, true, inl, inr,
  Bool-cases, ◌==◌, length, drop, get_elem?, get_elem?-drop,
}
use c_project.HttpServer.CString.{c_str, c_str_at, find_index, starts_with_text, strspn_blank}

c_str-some :
    (buf : List ℕ) (e : ℕ)
    → get_elem? buf e ≡ some 0
    → (s : List ℕ) × (c_str buf ≡ some s) × (length s ≤ e)
unfolding c_str
c_str-some [] e h = ground arith
c_str-some (b ∷ bs) zero h = ([], ground arith, omega arith)
c_str-some (b ∷ bs) (suc e) h = elim (Bool-cases (b == 0)) [
  | inl zero_byte ↦ ([], ground arith, omega arith)
  | inr other ↦ let (s, read, short) = c_str-some bs e h in (b ∷ s, rw (other, read), omega arith)
]

-- A string read at or before a NUL byte ends there at the latest.
pub c_str_at-some :
    (buf : List ℕ) (i e : ℕ)
    → i ≤ e
    → get_elem? buf e ≡ some 0
    → (s : List ℕ) × (c_str_at buf i ≡ some s) × (i + length s ≤ e)
unfolding c_str_at
c_str_at-some buf i e le h =
    let (s, read, short) = c_str-some (drop i buf) (e - i) (rw (get_elem?-drop i e buf le) h) in
    (s, read, omega arith)

pub find_index-lt : (p : ℕ → Bool) (s : List ℕ) (k : ℕ) → find_index p s ≡ some k → k < length s
unfolding find_index
find_index-lt p [] k h = ground arith
find_index-lt p (b ∷ s) k h = ground (arith, find_index-lt p s (k - 1))

pub strspn_blank-le : (s : List ℕ) → strspn_blank s ≤ length s
unfolding strspn_blank
strspn_blank-le [] = omega arith
strspn_blank-le (b ∷ s) = ground (arith, strspn_blank-le s)

pub starts_with_text-length : (s t : List ℕ) → starts_with_text s t ≡ true → length t ≤ length s
unfolding starts_with_text
starts_with_text-length s [] h = omega arith
starts_with_text-length [] (y ∷ ys) h = cc
starts_with_text-length (x ∷ xs) (y ∷ ys) h = ground (arith, starts_with_text-length xs ys)
