-- ===== src/QueueService/System/Windows.antt =====
-- Which windows are busy, and what `getIdelServiceWindow` finds.
use c_project.Prelude.{
  ℕ, zero, suc, ◌+◌, ◌≤◌, ◌<◌, ◌≡◌, refl, sym, ap, ◌∙◌, inl, inr, Bool-cases, true, false,
  if◌then◌else◌, Option, none, some, List, [], ◌∷◌, get_elem?, length, set, arith,
}
use c_project.QueueService.System.{ServiceWindow, is_idle, find_idle}

abbrev pub busy_window : Option ServiceWindow → ℕ
busy_window none = 0
busy_window (some w) = if is_idle w then 0 else 1

-- 1 for a window that serves, 0 for one that is idle or is not there.
abbrev pub busy : List ServiceWindow → ℕ → ℕ
busy windows i = busy_window (get_elem? windows i)

pub busy_window_le : (o : Option ServiceWindow) → busy_window o ≤ 1
busy_window_le none = omega arith
busy_window_le (some w) = ground arith

pub find_idle-idle :
    (k : ℕ) (windows : List ServiceWindow) {i : ℕ}
    → find_idle k windows ≡ some i
    → (j : ℕ) × (w : ServiceWindow) × (i ≡ k + j)
      × (get_elem? windows j ≡ some w)
      × (is_idle w ≡ true)
unfolding find_idle
find_idle-idle k [] e = ground arith
find_idle-idle k (w ∷ windows) e = elim (Bool-cases (is_idle w)) [
  | inl is_true ↦ (0, w, ground arith, refl, is_true)
  | inr is_false ↦
      let (j, v, at, there, is) = find_idle-idle (k + 1) windows (sym (rw is_false refl) ∙ e) in
      (suc j, v, omega arith, there, is)
]

-- A window that becomes busy makes none idle.
pub find_idle-set :
    (k : ℕ) (windows : List ServiceWindow) (i : ℕ) (w : ServiceWindow)
    → find_idle k windows ≡ none
    → is_idle w ≡ false
    → find_idle k (set windows i w) ≡ none
unfolding find_idle
find_idle-set k [] i w e b = e
find_idle-set k (v ∷ windows) zero w e b = ground arith
find_idle-set k (v ∷ windows) (suc i) w e b = ground (arith, find_idle-set (k + 1) windows i w)

pub find_idle_zero :
    (windows : List ServiceWindow) (i : ℕ)
    → find_idle 0 windows ≡ some i
    → (w : ServiceWindow) × (get_elem? windows i ≡ some w) × (is_idle w ≡ true)
find_idle_zero windows i e =
    let (j, w, at, there, free) = find_idle-idle 0 windows e in
    let same : i ≡ j = omega (arith, at) in (w, ap (get_elem? windows) same ∙ there, free)

pub window_there : (windows : List ServiceWindow) (i : ℕ) → 0 < busy windows i → i < length windows
window_there [] i h = ground arith
window_there (w ∷ windows) zero h = omega arith
window_there (w ∷ windows) (suc i) h = omega (arith, window_there windows i h)
