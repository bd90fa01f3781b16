-- ===== src/HttpServer/Run.antt =====
-- Runs of the C++ code of HttpServer/: a value, an access that C leaves undefined, or no fuel left.
use c_project.Prelude.{ℕ, ◌≡◌, refl, Option, none, some, List, get_elem?}
pub mod Returns

-- A read outside an array, a write outside an array, the write of `parse_content`, whose place the
-- peer chooses, or a `%s` that is handed an `int`.
pub data Access : Type 0 where
  over_read over_write bad_length bad_argument : Access

pub data Run (A : Type 0) : Type 0 where
  ok : A → Run A
  fault : Access → Run A
  out_of_fuel : Run A

infixl 5 ◌>>=◌
abbrev pub ◌>>=◌ : {A B : Type 0} → Run A → (A → Run B) → Run B
out_of_fuel >>= rest = out_of_fuel
fault access >>= rest = fault access
ok x >>= rest = rest x

-- An array read.
abbrev pub checked : {A : Type 0} → Option A → Run A
checked none = fault over_read
checked (some a) = ok a

abbrev pub read_at : List ℕ → ℕ → Run ℕ
read_at buf i = checked (get_elem? buf i)

-- Inversion of a run of two parts that returns.
pub >>=-eq-ok :
    {A B : Type 0} (start : Run A) (rest : A → Run B) (y : B)
    → (start >>= rest) ≡ ok y
    → (x : A) × (start ≡ ok x) × (rest x ≡ ok y)
>>=-eq-ok out_of_fuel rest y h = cc
>>=-eq-ok (fault access) rest y h = cc
>>=-eq-ok (ok x) rest y h = (x, refl, h)
