-- ===== src/Prelude/Options.antt =====
-- The bind of `Option`, for `do` blocks: `none` stands for a fault, or for fuel that is out.
use mathlib.Core.Option.{Option, none, some}

infixl 5 ◌>>=◌
abbrev pub ◌>>=◌ : {A : Type 0} → {B : Type 0} → Option A → (A → Option B) → Option B
none >>= f = none
some a >>= f = f a
