-- ===== src/HttpServer/CString.antt =====
-- The functions of <string.h> and <stdlib.h> that http_conn.cpp calls, over the bytes of a string
-- up to its terminator. A string that has no terminator in its array is not there (`none`).
pub mod Bounds
use mathlib.Core.Option
use Prim.Native.Char.{code}
use Prim.Native.String
use Prim.Native.String.{String}
use c_project.Prelude.{
  ℕ, zero, suc, ◌+◌, ◌-◌, ◌*◌, ◌%◌, ◌^◌, ◌≤◌, ◌<◌, ◌≡◌, refl, ap, Bool, true, false, ◌&&◌, ◌||◌,
  Option, none, some, List, [], ◌∷◌, ◌++◌, arith, ltb, leb, ◌==◌, if◌then◌else◌, length, drop,
  get_elem?,
}
use c_project.Prelude.Int.{ℤ, pos, negsuc, sub_ℕ}

abbrev pub codes : String → List ℕ
codes String.[] = []
codes (String.◌∷◌ c s) = code c ∷ codes s

-- The bytes before the first NUL.
pub c_str : List ℕ → Option (List ℕ)
c_str [] = none
c_str (b ∷ bs) = if b == 0 then some [] else Option.map (λ s. b ∷ s) (c_str bs)

unfoldable pub c_str_at : List ℕ → ℕ → Option (List ℕ)
unfolding c_str
c_str_at buf i = c_str (drop i buf)

-- `" \t"`
unfoldable pub is_blank : ℕ → Bool
is_blank c = c == 32 || c == 9

unfoldable pub find_index : (ℕ → Bool) → List ℕ → Option ℕ
find_index p [] = none
find_index p (b ∷ bs) = if p b then some 0 else Option.map (λ n. suc n) (find_index p bs)

-- strpbrk (s, " \t") - s
abbrev pub strpbrk_blank : List ℕ → Option ℕ
strpbrk_blank = find_index is_blank

-- strchr (s, c) - s
abbrev pub strchr : List ℕ → ℕ → Option ℕ
strchr s c = find_index (λ b. b == c) s

-- strspn (s, " \t")
unfoldable pub strspn_blank : List ℕ → ℕ
strspn_blank [] = 0
strspn_blank (b ∷ bs) = if is_blank b then suc (strspn_blank bs) else 0

unfoldable pub to_lower : ℕ → ℕ
to_lower c = if leb 65 c && leb c 90 then c + 32 else c

-- strcasecmp (s, t) == 0
unfoldable pub same_text : List ℕ → List ℕ → Bool
unfolding to_lower
same_text [] [] = true
same_text [] (y ∷ ys) = false
same_text (x ∷ xs) [] = false
same_text (x ∷ xs) (y ∷ ys) = (to_lower x == to_lower y) && same_text xs ys

-- strncasecmp (s, t, n) == 0, where n is the length of t
unfoldable pub starts_with_text : List ℕ → List ℕ → Bool
unfolding to_lower
starts_with_text s [] = true
starts_with_text [] (y ∷ ys) = false
starts_with_text (x ∷ xs) (y ∷ ys) = (to_lower x == to_lower y) && starts_with_text xs ys

is_digit : ℕ → Bool
is_digit c = leb 48 c && leb c 57

digits : ℕ → List ℕ → ℕ
digits n [] = n
digits n (c ∷ s) = let rest = digits (n * 10 + (c - 48)) s in if is_digit c then rest else n

-- strtol saturates at the ends of `long`.
magnitude : ℕ → List ℕ → ℕ
unfolding digits is_digit
magnitude limit s = let n = digits 0 s in if ltb limit n then limit else n

negated : ℕ → ℤ
negated n = sub_ℕ 0 n

is_space : ℕ → Bool
is_space c = c == 32 || (leb 9 c && leb c 13)

skip_space : List ℕ → List ℕ
skip_space [] = []
skip_space (c ∷ s) = let rest = skip_space s in if is_space c then rest else c ∷ s

signed : List ℕ → ℤ
signed [] = pos 0
signed (c ∷ s) =
    if c == b'-'
    then negated (magnitude (2 ^ 63) s)
    else if c == b'+'
    then pos (magnitude (2 ^ 63 - 1) s)
    else pos (magnitude (2 ^ 63 - 1) (c ∷ s))

unfoldable pub atol : List ℕ → ℤ
unfolding skip_space is_space signed negated magnitude
atol s = signed (skip_space s)

-- (int) of a `long`: the low 32 bits, as a signed number.
from_word : ℕ → ℤ
from_word w = if ltb w (2 ^ 31) then pos w else sub_ℕ w (2 ^ 32)

unfoldable pub to_int : ℤ → ℤ
unfolding from_word
to_int (pos n) = from_word (n % 2 ^ 32)
to_int (negsuc n) = from_word ((2 ^ 32 - 1) - n % 2 ^ 32)

atol_length : atol (codes " 42x") ≡ pos 42
unfolding atol
atol_length = refl

atol_negative : to_int (atol (codes "-1")) ≡ negsuc 0
unfolding atol to_int
atol_negative = refl
