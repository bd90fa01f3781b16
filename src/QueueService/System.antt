-- ===== src/QueueService/System.antt =====
-- `QueueSystem` of queue_system.h, with event.h, customer.h and service_window.h. The two queues,
-- whose operations on the heap are in QueueService/Queue, are here the lists that they hold. The
-- draws of `Random::uniform` are arguments.
-- `none` is a read through a null pointer or behind the windows.
pub mod Windows
pub mod Invariant
pub mod Order
pub mod Weights
pub mod Ending
use c_project.Prelude.{
  ℕ, zero, suc, ◌+◌, Bool, true, false, Option, none, some, List, [], ◌∷◌, ◌++◌, ltb, if◌then◌else◌,
  get_elem?, set, replicate,
}
use c_project.Prelude.Int.{ℤ, pos, ◌+ℤ◌, ◌-ℤ◌}
use c_project.Prelude.Options.{◌>>=◌}

-- `event_type`: -1 for an arrival, and the number of the window for a departure.
pub data EventType : Type 0 where
  arrival : EventType
  departure : ℕ → EventType

pub record Event : Type 0 where
  pub occur_time : ℕ
  pub event_type : EventType

abbrev pub event : ℕ → EventType → Event
event occur_time event_type = record { occur_time = occur_time; event_type = event_type }

pub record Customer : Type 0 where
  pub duration : ℕ
  pub arrive_time : ℕ

abbrev pub customer : (duration arrive_time : ℕ) → Customer
customer duration arrive_time = record { duration = duration; arrive_time = arrive_time }

pub data WindowStatus : Type 0 where
  service : WindowStatus
  idle : WindowStatus

pub record ServiceWindow : Type 0 where
  pub window_status : WindowStatus
  pub served : Customer

abbrev pub status_is_idle : WindowStatus → Bool
status_is_idle service = false
status_is_idle idle = true

abbrev pub is_idle : ServiceWindow → Bool
is_idle w = status_is_idle w.window_status

-- `serveCustomer` and `setBusy`.
unfoldable pub serve_customer : Customer → ServiceWindow → ServiceWindow
serve_customer c w = record w { served = c; window_status = service }

unfoldable pub set_idle : ServiceWindow → ServiceWindow
set_idle w = record w { window_status = idle }

pub record QueueSystem : Type 0 where
  pub total_service_time : ℕ
  pub total_customer_stay_time : ℤ
  pub total_customer_num : ℕ
  pub windows : List ServiceWindow
  pub customer_list : List Customer
  pub event_list : List Event
  pub current_event : Option Event

-- What the draws of one event give: the time to the next arrival, and the time a service takes.
pub record Draw : Type 0 where
  pub interval : ℕ
  pub duration : ℕ

-- The window's own customer, of the default constructor, is drawn too; nothing reads it.
unfoldable pub create : Customer → (total_service_time window_num : ℕ) → QueueSystem
create c total_service_time window_num = record {
  total_service_time = total_service_time;
  total_customer_stay_time = pos 0;
  total_customer_num = 0;
  windows = replicate window_num (record { window_status = idle; served = c });
  customer_list = [];
  event_list = [];
  current_event = none;
}

unfoldable pub init : (first : ℕ) → QueueSystem → QueueSystem
init first s = record s { current_event = some (event first arrival) }

-- `orderEnqueue`, on what the queue holds.
pub insert_event : Event → List Event → List Event
insert_event e [] = e ∷ []
insert_event e (f ∷ events) =
    if ltb f.occur_time e.occur_time then f ∷ insert_event e events else e ∷ f ∷ events

unfoldable pub order_enqueue : Event → QueueSystem → QueueSystem
order_enqueue e s = record s { event_list = insert_event e s.event_list }

pub find_idle : (i : ℕ) → List ServiceWindow → Option ℕ
find_idle i [] = none
find_idle i (w ∷ windows) = if is_idle w then some i else find_idle (i + 1) windows

unfoldable pub get_idle_service_window : QueueSystem → Option ℕ
get_idle_service_window s = find_idle 0 s.windows

-- `customer_list.dequeue ()`, the service at the window and the event of the departure.
pub serve_next : (i now : ℕ) → ServiceWindow → List Customer → QueueSystem → Option QueueSystem
serve_next i now w [] s = none
serve_next i now w (c ∷ rest) s = some (
    order_enqueue (event (now + c.duration) (departure i))
      (record s { customer_list = rest; windows = set s.windows i (serve_customer c w) }))

unfoldable pub serve_at : (i now : ℕ) → QueueSystem → Option QueueSystem
serve_at i now s = do w ← get_elem? s.windows i; serve_next i now w s.customer_list s

-- The `if` of `customerArrived` on `idleIndex`.
pub assign : (idle_index : Option ℕ) → (now : ℕ) → QueueSystem → Option QueueSystem
assign none now s = some s
assign (some i) now s = serve_at i now s

unfoldable pub next_arrival : (time : ℕ) → QueueSystem → QueueSystem
next_arrival time s =
    if ltb time s.total_service_time then order_enqueue (event time arrival) s else s

unfoldable pub join : Customer → QueueSystem → QueueSystem
join c s = record s { customer_list = s.customer_list ++ c ∷ [] }

unfoldable pub customer_arrived : Draw → (now : ℕ) → QueueSystem → Option QueueSystem
customer_arrived d now s =
    let s = record s { total_customer_num = s.total_customer_num + 1 } in
    let s = next_arrival (now + d.interval) s in
    let s = join (customer d.duration now) s in assign (get_idle_service_window s) now s

-- The inner `if` of `customerDeparture`, on whether a customer waits.
pub release : (i now : ℕ) → ServiceWindow → List Customer → QueueSystem → Option QueueSystem
release i now w [] s = some (record s { windows = set s.windows i (set_idle w) })
release i now w (c ∷ rest) s = serve_next i now w (c ∷ rest) s

unfoldable pub customer_departure : (i now : ℕ) → QueueSystem → Option QueueSystem
customer_departure i now s =
    if ltb now s.total_service_time
    then (do
      w ← get_elem? s.windows i
      let stay = pos now -ℤ pos w.served.arrive_time
      release i now w s.customer_list
          (record s { total_customer_stay_time = s.total_customer_stay_time +ℤ stay }))
    else some s

pub handle : Draw → (now : ℕ) → EventType → QueueSystem → Option QueueSystem
handle d now arrival s = customer_arrived d now s
handle d now (departure i) s = customer_departure i now s

-- `current_event = event_list.dequeue ()`
pub dequeue_event : List Event → QueueSystem → QueueSystem
dequeue_event [] s = record s { current_event = none }
dequeue_event (e ∷ events) s = record s { current_event = some e; event_list = events }

unfoldable pub next_event : QueueSystem → QueueSystem
next_event s = dequeue_event s.event_list s

-- One round of the `while` of `run`.
unfoldable pub turn : Draw → Event → QueueSystem → Option QueueSystem
turn d e s = do s ← handle d e.occur_time e.event_type s; some (next_event s)

-- The `while`, for as many events as there are draws.
pub run_loop : List Draw → Option Event → QueueSystem → Option QueueSystem
run_loop draws none s = some s
run_loop [] (some e) s = some s
run_loop (d ∷ draws) (some e) s = do s ← turn d e s; run_loop draws s.current_event s

unfoldable pub run : (first : ℕ) → List Draw → QueueSystem → Option QueueSystem
run first draws s = let s = init first s in run_loop draws s.current_event s

pub set_all_idle : List ServiceWindow → List ServiceWindow
set_all_idle [] = []
set_all_idle (w ∷ windows) = set_idle w ∷ set_all_idle windows

unfoldable pub end_run : QueueSystem → QueueSystem
end_run s = record s { windows = set_all_idle s.windows; customer_list = []; event_list = [] }

-- The runs of `simulate`, each with the time of its first arrival and its draws, and the clean-up at
-- the end of each.
pub simulate : List (ℕ × List Draw) → QueueSystem → Option QueueSystem
simulate [] s = some s
simulate ((first, draws) ∷ runs) s = do s ← run first draws s; simulate runs (end_run s)
