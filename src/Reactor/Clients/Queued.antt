-- ===== src/Reactor/Clients/Queued.antt =====
-- The clients are served in the order of their events, and none waits while a worker could take it.
use c_project.Prelude.{◌+◌, ◌≤◌, ◌≡◌, ◌⊎◌, false, List, ◌++◌, length}
use c_project.Prelude.Sums.{sum}
use c_project.Reactor.Clients.{Reactor, is_waiting, is_woken}

pub record Queued (r : Reactor) : Type 0 where
  pub in_order : r.queued ≡ r.taken ++ r.list_clients
  pub awake :
      r.stop ≡ false
      → (length r.list_clients ≤ r.signals + sum is_woken r.workers)
        ⊎ (sum is_waiting r.workers ≡ 0)
