-- ===== src/HttpServer/Run/Returns.antt =====
-- Total correctness of a run, and safety up to the one write whose place the peer chooses.
use c_project.HttpServer.Run.{Run, ok, fault, bad_length, ◌>>=◌}

pub data Returns {A : Type 0} (Post : A → Type 0) : Run A → Type 0 where
  returns : {x : A} → Post x → Returns Post (ok x)

pub data Safe {A : Type 0} (Post : A → Type 0) : Run A → Type 0 where
  safe : {x : A} → Post x → Safe Post (ok x)
  stops : Safe Post (fault bad_length)

module _ {A B : Type 0} {Mid : A → Type 0} {Post : B → Type 0} {rest : A → Run B} where
  pub Safe-bind :
      {start : Run A}
      → Safe Mid start
      → ((x : A) → Mid x → Safe Post (rest x))
      → Safe Post (start >>= rest)
  Safe-bind (safe mid) later = later _ mid
  Safe-bind stops later = stops

  pub Returns-bind :
      {start : Run A}
      → Returns Mid start
      → ((x : A) → Mid x → Returns Post (rest x))
      → Returns Post (start >>= rest)
  Returns-bind (returns mid) later = later _ mid

module _ {A : Type 0} {P : A → Type 0} where
  pub Safe-of_Returns : {r : Run A} → Returns P r → Safe P r
  Safe-of_Returns (returns p) = safe p

  pub Returns-mono :
      {Q : A → Type 0} {r : Run A} → Returns P r → ((a : A) → P a → Q a) → Returns Q r
  Returns-mono (returns p) weaken = returns (weaken _ p)
