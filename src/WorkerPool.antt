-- ===== src/WorkerPool.antt =====
-- The worker pool of workerpool.go, with the worker of scalamsgq.go as its workers, and what
-- autoScaler and QueryMsgQInfo do with it. A goroutine is a cell of the store: its variable done,
-- which the pool points to, the channel that it held, and what the goroutine is about. The counters
-- are natural numbers: the invariant shows that none falls below zero.
pub mod Cells
pub mod Invariant
pub mod Removal
pub mod Turns
pub mod Close
pub mod Reach
pub mod Drain
pub mod Stuck
pub mod Scale
mod Examples
use adaptiveservice.Prelude.{
  ℕ, zero, suc, ◌+◌, ◌-◌, ◌/◌, ◌<◌, ◌==◌, ltb, ◌≡◌, Bool, true, false, Option, none, some, List, [],
  ◌∷◌, if◌then◌else◌, ◌>>=◌,
}

-- What a goroutine does: it is not run yet, waits for a message, handles one, or has ended. The
-- Boolean says whether the worker was given a channel, and not nil.
pub data Phase : Type 0 where
  created : Phase
  idle : Bool → Phase
  working : Bool → Phase
  exited : Phase

-- done: the variable is not nil. closed: the channel made for it is closed.
pub record Cell : Type 0 where
  pub done : Bool
  pub closed : Bool
  pub phase : Phase

-- workers: the pointers to the variables done, by the number of the goroutine; made: how many
-- goroutines there are.
pub record WorkerPool : Type 0 where
  pub workers : List ℕ
  pub cells : ℕ → Cell
  pub made : ℕ
  pub count : ℕ
  pub idle_count : ℕ
  pub wg : ℕ

abbrev pub new_cell : Cell
new_cell = record { done = true; closed = false; phase = created }

abbrev pub new_worker_pool : WorkerPool
new_worker_pool = record {
  workers = [];
  cells = λ i. new_cell;
  made = 0;
  count = 0;
  idle_count = 0;
  wg = 0;
}

unfoldable pub set_cell : ℕ → Cell → (ℕ → Cell) → ℕ → Cell
set_cell i c cells j = if j == i then c else cells j

-- The first slot whose variable is nil, or a new one.
unfoldable pub place : (ℕ → Cell) → ℕ → List ℕ → List ℕ
place cells i [] = i ∷ []
place cells i (w ∷ ws) = let rest = place cells i ws in if (cells w).done then w ∷ rest else i ∷ ws

unfoldable pub add_worker : WorkerPool → WorkerPool
unfolding place set_cell
add_worker wp = record wp {
  workers = place wp.cells wp.made wp.workers;
  cells = set_cell wp.made new_cell wp.cells;
  made = suc wp.made;
  count = suc wp.count;
  idle_count = suc wp.idle_count;
  wg = suc wp.wg;
}

-- The variable gets nil and its channel is closed; none: a channel that is closed already, a panic.
unfoldable pub close_done : Cell → Option Cell
close_done c = if c.closed then none else some (record c { done = false; closed = true })

unfoldable pub first_open : (ℕ → Cell) → List ℕ → Option ℕ
first_open cells [] = none
first_open cells (w ∷ ws) =
    let rest = first_open cells ws in if (cells w).done then some w else rest

unfoldable pub close_at : WorkerPool → Option ℕ → Option WorkerPool
unfolding close_done set_cell
close_at wp none = some wp
close_at wp (some w) =
    close_done (wp.cells w) >>= λ c. some (record wp { cells = set_cell w c wp.cells })

unfoldable pub rm_worker : WorkerPool → Option WorkerPool
unfolding first_open close_at
rm_worker wp = close_at wp (first_open wp.cells wp.workers)

unfoldable pub close_cell : ℕ → (ℕ → Cell) → Option (ℕ → Cell)
unfolding close_done set_cell
close_cell w cells =
    if (cells w).done then (close_done (cells w) >>= λ c. some (set_cell w c cells)) else some cells

unfoldable pub close_all : (ℕ → Cell) → List ℕ → Option (ℕ → Cell)
unfolding close_cell
close_all cells [] = some cells
close_all cells (w ∷ ws) = close_cell w cells >>= λ cells'. close_all cells' ws

-- close, up to the waiting for wg to be zero
unfoldable pub close : WorkerPool → Option WorkerPool
unfolding close_all
close wp = close_all wp.cells wp.workers >>= λ cells. some (record wp { cells = cells })

-- The goroutine runs: the worker is given what the variable holds by then.
unfoldable pub start : ℕ → WorkerPool → WorkerPool
unfolding set_cell
start i wp = record wp {
  cells = set_cell i (record (wp.cells i) { phase = idle (wp.cells i).done }) wp.cells;
}

-- The worker takes a message.
unfoldable pub begin : ℕ → Bool → WorkerPool → WorkerPool
unfolding set_cell
begin i b wp = record wp {
  cells = set_cell i (record (wp.cells i) { phase = working b }) wp.cells;
  idle_count = wp.idle_count - 1;
}

-- The worker has handled it.
unfoldable pub finish : ℕ → Bool → WorkerPool → WorkerPool
unfolding set_cell
finish i b wp = record wp {
  cells = set_cell i (record (wp.cells i) { phase = idle b }) wp.cells;
  idle_count = suc wp.idle_count;
}

-- The end of the goroutine: a variable that is not nil yet gets nil, and its channel is closed.
unfoldable pub ended : Cell → Option Cell
unfolding close_done
ended c = if c.done then close_done c else some c

abbrev pub leave_with : ℕ → WorkerPool → Cell → WorkerPool
leave_with i wp c = record wp {
  cells = set_cell i (record c { phase = exited }) wp.cells;
  count = wp.count - 1;
  idle_count = wp.idle_count - 1;
  wg = wp.wg - 1;
}

-- The worker returns, and the deferred function runs.
unfoldable pub leave : ℕ → WorkerPool → Option WorkerPool
unfolding ended set_cell
leave i wp = ended (wp.cells i) >>= λ c. some (leave_with i wp c)

-- What may happen next: a call, or a step of a goroutine. A worker returns when it waits on a
-- channel that is closed; it never does on nil.
pub data Step : WorkerPool → WorkerPool → Type 0 where
  step_add : {wp : WorkerPool} → Step wp (add_worker wp)
  step_rm : {wp wp' : WorkerPool} → rm_worker wp ≡ some wp' → Step wp wp'
  step_close : {wp wp' : WorkerPool} → close wp ≡ some wp' → Step wp wp'
  step_start :
      {wp : WorkerPool} (i : ℕ) → i < wp.made → (wp.cells i).phase ≡ created → Step wp (start i wp)
  step_begin :
      {wp : WorkerPool} (i : ℕ) (b : Bool)
      → i < wp.made
      → (wp.cells i).phase ≡ idle b
      → Step wp (begin i b wp)
  step_finish :
      {wp : WorkerPool} (i : ℕ) (b : Bool)
      → i < wp.made
      → (wp.cells i).phase ≡ working b
      → Step wp (finish i b wp)
  step_leave :
      {wp wp' : WorkerPool} (i : ℕ)
      → i < wp.made
      → (wp.cells i).phase ≡ idle true
      → (wp.cells i).closed ≡ true
      → leave i wp ≡ some wp'
      → Step wp wp'

pub data Steps : WorkerPool → WorkerPool → Type 0 where
  stop : {wp : WorkerPool} → Steps wp wp
  then : {wp wp' wp'' : WorkerPool} → Steps wp wp' → Step wp' wp'' → Steps wp wp''

-- Towards the number of idle workers that there should be; k divides a second to sleep.
unfoldable pub scale_to : ℕ → WorkerPool → Option (WorkerPool × ℕ)
unfolding add_worker rm_worker
scale_to should wp =
    let now = wp.idle_count in
    if ltb now should
    then some (add_worker wp, should - now)
    else if ltb should now
    then (rm_worker wp >>= λ wp'. some (wp', now - should))
    else some (wp, 1)

-- One round of the loop of autoScaler, which runs only if q_weight is positive.
unfoldable pub auto_scale :
    (egress_len q_weight resident_workers : ℕ) → WorkerPool → Option (WorkerPool × ℕ)
unfolding scale_to
auto_scale egress_len q_weight resident_workers wp =
    scale_to (egress_len / q_weight + resident_workers) wp

pub record MsgQInfo : Type 0 where
  pub num_cpu : ℕ
  pub resident_workers : ℕ
  pub queue_weight : ℕ
  pub queue_len : ℕ
  pub queue_size : ℕ
  pub busy_worker_num : ℕ
  pub idle_worker_num : ℕ

-- The handler of QueryMsgQInfo, which a worker of the pool runs.
unfoldable pub query_msgq_info :
    (num_cpu resident_workers q_weight egress_len q_size : ℕ) → WorkerPool → MsgQInfo
query_msgq_info num_cpu resident_workers q_weight egress_len q_size wp =
    let idle_worker = wp.idle_count + 1 in
    record {
      num_cpu = num_cpu;
      resident_workers = resident_workers;
      queue_weight = q_weight;
      queue_len = egress_len;
      queue_size = q_size;
      busy_worker_num = wp.count - idle_worker;
      idle_worker_num = idle_worker;
    }
