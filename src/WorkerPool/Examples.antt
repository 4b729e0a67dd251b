-- ===== src/WorkerPool/Examples.antt =====
-- A pool of two workers, the first of which runs and handles a message.
use adaptiveservice.Prelude.{ℕ, ◌≤◌, ◌<◌, ◌≡◌, refl, sym, subst, inl, inr, true, false, some, arith}
use adaptiveservice.WorkerPool.{
  working, WorkerPool, new_worker_pool, new_cell, set_cell, add_worker, place, rm_worker, close_at,
  close, close_all, close_cell, close_done, first_open, start, begin, Steps, stop, then, step_add,
  step_start, step_begin, step_rm,
}
use adaptiveservice.WorkerPool.Invariant.{IsPool}
use adaptiveservice.WorkerPool.Reach.{reachable-IsPool}
use adaptiveservice.WorkerPool.Drain.{Started, close_ends}
use adaptiveservice.WorkerPool.Stuck.{removed_early_never_ends}

abbrev two : WorkerPool
two = add_worker (add_worker new_worker_pool)

abbrev handling : WorkerPool
handling = begin 0 true (start 0 two)

two-Steps : Steps new_worker_pool two
two-Steps = then (then stop step_add) step_add

handling-Steps : Steps new_worker_pool handling
unfolding add_worker start set_cell
handling-Steps =
    then (then two-Steps (step_start 0 (omega arith) refl)) (step_begin 0 true (omega arith) refl)

reachable-IsPool_example : IsPool handling
reachable-IsPool_example = reachable-IsPool handling handling-Steps

abbrev one : WorkerPool
one = begin 0 true (start 0 (add_worker new_worker_pool))

one-Steps : Steps new_worker_pool one
unfolding add_worker start set_cell
one-Steps =
    then (then (then stop step_add) (step_start 0 (omega arith) refl))
      (step_begin 0 true (omega arith) refl)

one-Started : (i : ℕ) → i < one.made → Started (one.cells i)
unfolding add_worker start begin set_cell
one-Started i lt =
    let e : i ≡ 0 = omega (lt, arith) in subst (λ k. Started (one.cells k)) (sym e) (inr (inl refl))

abbrev one_closed : WorkerPool
one_closed = record one {
  cells = set_cell 0 (record { done = false; closed = true; phase = working true }) one.cells;
}

one_closes : close one ≡ some one_closed
unfolding close close_all close_cell close_done add_worker start begin set_cell place
one_closes = refl

close_ends_example : (wp'' : WorkerPool) × Steps one_closed wp'' × (wp''.wg ≡ 0)
close_ends_example = close_ends one one_closed one-Steps one-Started one_closes

abbrev removed : WorkerPool
removed = record (add_worker new_worker_pool) {
  cells =
      set_cell 0 (record new_cell { done = false; closed = true })
        (add_worker new_worker_pool).cells;
}

removed-Steps : Steps new_worker_pool removed
unfolding rm_worker close_at first_open close_done add_worker set_cell place
removed-Steps = then (then stop step_add) (step_rm refl)

removed_early_never_ends_example : 1 ≤ (start 0 removed).wg
unfolding add_worker set_cell start
removed_early_never_ends_example =
    removed_early_never_ends removed (start 0 removed) 0 removed-Steps (omega arith) refl refl
      (then stop (step_start 0 (omega arith) refl))
