-- ===== src/ProcessPool/Parent/Choice.antt =====
-- The round robin of `run_parent`: the child that the `do` finds.
use native.Mathlib.Nat.{mod-eq_of_lt, mod_self}
use c_project.Prelude.{
  ℕ, zero, suc, ◌+◌, ◌-◌, ◌%◌, ◌≤◌, ◌<◌, ◌≡◌, ◌≢◌, refl, ap, ◌∙◌, ◌⊎◌, inl, inr, Bool, Bool-cases,
  true, false, ◌&&◌, ◌||◌, some, List, ◌==◌, ltb, leb, if◌then◌else◌, arith,
}
use c_project.ProcessPool.Parent.{Process, is_live_at, choose}

-- The next place of the ring.
abbrev pub next_place : ℕ → ℕ → ℕ
next_place n i = if i + 1 == n then 0 else i + 1

pub mod-next_place : (n i : ℕ) → i < n → (i + 1) % n ≡ next_place n i
mod-next_place n i h = elim (Bool-cases (i + 1 == n)) [
  | inl last ↦ let e : i + 1 ≡ n = ground arith in rw (last, e) (mod_self n)
  | inr before ↦ rw before (mod-eq_of_lt (ground arith))
]

-- Whether the walk from `counter` has passed the place `j` when it stands at `i`.
abbrev pub passed : (counter i j : ℕ) → Bool
passed counter i j = if leb counter i then leb counter j && ltb j i else leb counter j || ltb j i

-- The places that are left to the walk.
abbrev pub left : (n counter i : ℕ) → ℕ
left n counter i = if leb counter i then n - i + counter else counter - i

module _ (n counter : ℕ) (in_ring : counter < n) (processes : List Process) where
  abbrev pub AllDead : Type 0
  AllDead = (j : ℕ) → j < n → is_live_at processes j ≡ false

  -- A live child, or the place where the walk began when every child has exited.
  abbrev pub Found : ℕ → Type 0
  Found k = (k < n) × ((is_live_at processes k ≡ true) ⊎ ((k ≡ counter) × AllDead))

  one_more :
      (i k : ℕ)
      → ((j : ℕ) → j < n → passed counter i j ≡ true → is_live_at processes j ≡ false)
      → is_live_at processes i ≡ false
      → k < n
      → (k ≢ i → passed counter i k ≡ true)
      → is_live_at processes k ≡ false
  one_more i k dead exited h before = elim (Bool-cases (k == i)) [
    | inl here ↦ let e : k ≡ i = ground arith in ap (is_live_at processes) e ∙ exited
    | inr other ↦ dead k h (before (ground arith))
  ]

  -- With as much fuel as there are places the walk ends: at a live child, or where it began.
  pub choose-Found :
      (fuel i : ℕ)
      → i < n
      → left n counter i ≤ fuel
      → ((j : ℕ) → j < n → passed counter i j ≡ true → is_live_at processes j ≡ false)
      → (k : ℕ) × (choose fuel n counter i processes ≡ some k) × Found k
  unfolding choose
  choose-Found zero i at enough dead = absurd (ground arith)
  choose-Found (suc fuel) i at enough dead = elim (Bool-cases (is_live_at processes i)) [
    | inl live ↦ (i, rw live refl, (at, inl live))
    | inr exited ↦
        let j = next_place n i in
        elim (Bool-cases (j == counter)) [
          | inl round ↦ (
            j,
            rw (exited, mod-next_place n i at, round) refl,
            (
              ground arith,
              inr (ground arith, λ k h. one_more i k dead exited h (λ ne. ground arith)),
            ),
          )
          | inr on ↦
              let (k, walks, found) =
                choose-Found fuel j (ground arith) (ground arith)
                  (λ k h p. one_more i k dead exited h (λ ne. ground arith)) in
              (k, rw (exited, mod-next_place n i at, on) walks, found)
        ]
  ]
