-- ===== src/WorkerPool/Reach.antt =====
-- The invariant in every pool that calls and goroutines can reach, and what follows from it.
use adaptiveservice.Prelude.{
  ℕ, suc, ◌+◌, ◌<◌, ◌≡◌, refl, sym, ◌∙◌, subst, Bool, true, some, some_inj, zero, arith,
}
use adaptiveservice.WorkerPool.{
  created, idle, working, exited, Cell, WorkerPool, new_worker_pool, rm_worker, close, leave,
  query_msgq_info, Step, Steps, stop, then, step_add, step_rm, step_close, step_start, step_begin,
  step_finish, step_leave,
}
use adaptiveservice.WorkerPool.Cells.{running, waiting, busy, tally, tally-ge}
use adaptiveservice.WorkerPool.Invariant.{IsPool, new_worker_pool-IsPool, add_worker-IsPool}
use adaptiveservice.WorkerPool.Removal.{rm_worker-IsPool}
use adaptiveservice.WorkerPool.Turns.{start-IsPool, begin-IsPool, finish-IsPool, leave-IsPool}
use adaptiveservice.WorkerPool.Close.{close-Closed}

pub Step-IsPool : (wp wp' : WorkerPool) → Step wp wp' → IsPool wp → IsPool wp'
Step-IsPool wp wp' step_add p = add_worker-IsPool wp p
Step-IsPool wp wp' (step_rm e) p =
    let (q, e', p') = rm_worker-IsPool wp p in subst IsPool (some_inj (sym e' ∙ e)) p'
Step-IsPool wp wp' (step_close e) p =
    let (cells, e', c) = close-Closed wp p in subst IsPool (some_inj (sym e' ∙ e)) c.pool
Step-IsPool wp wp' (step_start i lt e) p = start-IsPool wp i p lt e
Step-IsPool wp wp' (step_begin i b lt e) p = begin-IsPool wp i b p lt e
Step-IsPool wp wp' (step_finish i b lt e) p = finish-IsPool wp i b p lt e
Step-IsPool wp wp' (step_leave i lt e closed l) p =
    let (l', p') = leave-IsPool wp i true p lt e closed in subst IsPool (some_inj (sym l' ∙ l)) p'

pub Steps-IsPool : (wp wp' : WorkerPool) → Steps wp wp' → IsPool wp → IsPool wp'
Steps-IsPool wp wp' stop p = p
Steps-IsPool wp wp' (then {wp' = mid} steps step) p =
    Step-IsPool mid wp' step (Steps-IsPool wp mid steps p)

-- Whatever is called on a new pool and whichever goroutine runs: the counters are the numbers of
-- the goroutines that have not ended and of those that handle no message, the channel of a
-- goroutine is closed exactly when its variable is nil, and the pool points to each that is open.
pub reachable-IsPool : (wp : WorkerPool) → Steps new_worker_pool wp → IsPool wp
reachable-IsPool wp steps = Steps-IsPool new_worker_pool wp steps new_worker_pool-IsPool

-- In a pool that a new one has led to, no channel is closed twice: rmWorker and close return, and
-- so does the deferred function of every worker that is told to end.
pub reachable-no_panic :
    (wp : WorkerPool)
    → Steps new_worker_pool wp
    → ((wp' : WorkerPool) × (rm_worker wp ≡ some wp'))
      × ((wp' : WorkerPool) × (close wp ≡ some wp'))
      × ((i : ℕ)
          → i < wp.made
          → (wp.cells i).phase ≡ idle true
          → (wp.cells i).closed ≡ true
          → (wp' : WorkerPool) × (leave i wp ≡ some wp'))
reachable-no_panic wp steps =
    let p = reachable-IsPool wp steps in
    let (q, e, g) = rm_worker-IsPool wp p in
    let (cells, e', c) = close-Closed wp p in
    (
      (q, e),
      (record wp { cells = cells }, e'),
      λ i lt ph cl. let (l, h) = leave-IsPool wp i true p lt ph cl in (_, l),
    )

cell_split : (c : Cell) → running c ≡ waiting c + busy c
cell_split c =
    elim c.phase
      as (λ p.
        running (record c { phase = p })
        ≡ waiting (record c { phase = p }) + busy (record c { phase = p })) [
          | created ↦ refl
          | idle b ↦ refl
          | working b ↦ refl
          | exited ↦ refl
        ]

-- Each goroutine that has not ended waits or is busy.
tally-split :
    (cells : ℕ → Cell) (n : ℕ) → tally running cells n ≡ tally waiting cells n + tally busy cells n
unfolding tally
tally-split cells zero = refl
tally-split cells (suc n) =
    let ih = tally-split cells n in let one = cell_split (cells n) in omega arith

-- The answer to QueryMsgQInfo, which a worker of the pool works out: the workers that it calls busy
-- are those that handle a message, but itself; with those that it calls idle they are all.
pub query_msgq_info_lem :
    (wp : WorkerPool) (num_cpu resident_workers q_weight egress_len q_size i : ℕ) (b : Bool)
    → Steps new_worker_pool wp
    → i < wp.made
    → (wp.cells i).phase ≡ working b
    → let info = query_msgq_info num_cpu resident_workers q_weight egress_len q_size wp in
      (suc info.busy_worker_num ≡ tally busy wp.cells wp.made)
      × (info.busy_worker_num + info.idle_worker_num ≡ tally running wp.cells wp.made)
unfolding query_msgq_info
query_msgq_info_lem wp num_cpu resident_workers q_weight egress_len q_size i b steps lt e =
    let p = reachable-IsPool wp steps in
    let parts = tally-split wp.cells wp.made in
    let pc = p.counted in
    let pi = p.idle_counted in
    let some_busy = tally-ge busy i wp.made wp.cells lt in
    let one : busy (wp.cells i) ≡ 1 = rw e refl in (omega arith, omega arith)
