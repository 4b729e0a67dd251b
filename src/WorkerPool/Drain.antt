-- ===== src/WorkerPool/Drain.antt =====
-- The waiting of close comes to its end.
use adaptiveservice.Prelude.{
  ℕ, zero, suc, ◌≤◌, ◌<◌, ◌==◌, ◌≡◌, ◌≢◌, ◌⊎◌, refl, sym, ap, ◌∙◌, subst, inl, inr, true, false,
  not, some, some_inj, ==_iff, Bool-cases, arith,
}
use adaptiveservice.WorkerPool.{
  idle, working, exited, Cell, WorkerPool, new_worker_pool, close, finish, leave_with, Steps, stop,
  then, step_finish, step_leave,
}
use adaptiveservice.WorkerPool.Cells.{running, tally, set_cell-same, set_cell-other}
use adaptiveservice.WorkerPool.Invariant.{IsPool}
use adaptiveservice.WorkerPool.Turns.{finish-IsPool, leave-IsPool}
use adaptiveservice.WorkerPool.Close.{close-Closed}
use adaptiveservice.WorkerPool.Reach.{reachable-IsPool}

-- The goroutine has begun with a channel: it waits, works or has ended.
abbrev pub Started : Cell → Type 0
Started c = (c.phase ≡ idle true) ⊎ ((c.phase ≡ working true) ⊎ (c.phase ≡ exited))

-- Goroutine i gets to its end, and no other cell changes.
record Ended (wp : WorkerPool) (i : ℕ) (wp' : WorkerPool) : Type 0 where
  steps : Steps wp wp'
  pool : IsPool wp'
  same_made : wp'.made ≡ wp.made
  gone : (wp'.cells i).phase ≡ exited
  others : (j : ℕ) → j ≢ i → wp'.cells j ≡ wp.cells j

end_idle :
    (wp : WorkerPool) (i : ℕ)
    → IsPool wp
    → i < wp.made
    → (wp.cells i).done ≡ false
    → (wp.cells i).phase ≡ idle true
    → (wp' : WorkerPool) × Ended wp i wp'
end_idle wp i p lt d e =
    let closed : (wp.cells i).closed ≡ true = (p.each i lt).closing ∙ ap not d in
    let (l, p') = leave-IsPool wp i true p lt e closed in
    (
      leave_with i wp (wp.cells i),
      record {
        steps = then stop (step_leave i lt e closed l);
        pool = p';
        same_made = refl;
        gone =
            ap (λ c. c.phase) (set_cell-same i (record (wp.cells i) { phase = exited }) wp.cells);
        others = λ j ne. set_cell-other i j (record (wp.cells i) { phase = exited }) wp.cells ne;
      },
    )

pub Steps-append : (a b c : WorkerPool) → Steps a b → Steps b c → Steps a c
Steps-append a b c s stop = s
Steps-append a b c s (then {wp' = m} t step) = then (Steps-append a b m s t) step

finish-same_made : (wp : WorkerPool) (i : ℕ) → (finish i true wp).made ≡ wp.made
unfolding finish
finish-same_made wp i = refl

finish-cell :
    (wp : WorkerPool) (i : ℕ)
    → (finish i true wp).cells i ≡ record (wp.cells i) { phase = idle true }
unfolding finish
finish-cell wp i = set_cell-same i (record (wp.cells i) { phase = idle true }) wp.cells

finish-others : (wp : WorkerPool) (i j : ℕ) → j ≢ i → (finish i true wp).cells j ≡ wp.cells j
unfolding finish
finish-others wp i j ne = set_cell-other i j (record (wp.cells i) { phase = idle true }) wp.cells ne

end_one :
    (wp : WorkerPool) (i : ℕ)
    → IsPool wp
    → i < wp.made
    → (wp.cells i).done ≡ false
    → Started (wp.cells i)
    → (wp' : WorkerPool) × Ended wp i wp'
end_one wp i p lt d (inl e) = end_idle wp i p lt d e
end_one wp i p lt d (inr (inr e)) =
    (wp, record { steps = stop; pool = p; same_made = refl; gone = e; others = λ j ne. refl })
end_one wp i p lt d (inr (inl e)) =
    let cell = finish-cell wp i in
    let (wp', q) =
      end_idle (finish i true wp) i (finish-IsPool wp i true p lt e)
        (subst (λ m. i < m) (sym (finish-same_made wp i)) lt) (ap (λ c. c.done) cell ∙ d)
        (ap (λ c. c.phase) cell) in
    (
      wp',
      record {
        steps =
            Steps-append wp (finish i true wp) wp' (then stop (step_finish i true lt e)) q.steps;
        pool = q.pool;
        same_made = q.same_made ∙ finish-same_made wp i;
        gone = q.gone;
        others = λ j ne. q.others j ne ∙ finish-others wp i j ne;
      },
    )

-- The first n goroutines get to their ends, and no other cell changes.
record Drained (wp : WorkerPool) (n : ℕ) (wp' : WorkerPool) : Type 0 where
  steps : Steps wp wp'
  pool : IsPool wp'
  same_made : wp'.made ≡ wp.made
  gone : (i : ℕ) → i < n → (wp'.cells i).phase ≡ exited
  others : (j : ℕ) → n ≤ j → wp'.cells j ≡ wp.cells j

drain :
    (wp : WorkerPool) (n : ℕ)
    → IsPool wp
    → n ≤ wp.made
    → ((i : ℕ) → i < wp.made → ((wp.cells i).done ≡ false) × Started (wp.cells i))
    → (wp' : WorkerPool) × Drained wp n wp'
drain wp zero p le all = (
  wp,
  record {
    steps = stop;
    pool = p;
    same_made = refl;
    gone = λ i lt. absurd (omega (lt, arith));
    others = λ j l. refl;
  },
)
drain wp (suc n) p le all =
    let (mid, d) = drain wp n p (omega arith) all in
    let lt : n < wp.made = omega arith in
    let untouched = sym (d.others n (omega arith)) in
    let (off, started) = all n lt in
    let (wp', q) =
      end_one mid n d.pool (subst (λ m. n < m) (sym d.same_made) lt)
        (subst (λ c. c.done ≡ false) untouched off) (subst Started untouched started) in
    (
      wp',
      record {
        steps = Steps-append wp mid wp' d.steps q.steps;
        pool = q.pool;
        same_made = q.same_made ∙ d.same_made;
        gone = λ i l. elim (Bool-cases (i == n)) [
          | inl t ↦ subst (λ k. (wp'.cells k).phase ≡ exited) (sym ((==_iff i n).0 t)) q.gone
          | inr f ↦
              let ne : i ≢ n = λ e. let t = (==_iff i n).1 e in cc in
              ap (λ c. c.phase) (q.others i ne) ∙ d.gone i (omega (l, ne, arith))
        ];
        others = λ j l. q.others j (λ e. omega (e, l, arith)) ∙ d.others j (omega (l, arith));
      },
    )

none_left :
    (cells : ℕ → Cell) (n : ℕ)
    → ((i : ℕ) → i < n → (cells i).phase ≡ exited)
    → tally running cells n ≡ 0
unfolding tally
none_left cells zero gone = refl
none_left cells (suc n) gone =
    let r : running (cells n) ≡ 0 = rw (gone n (omega arith)) refl in
    let ih = none_left cells n (λ i lt. gone i (omega (lt, arith))) in omega arith

-- If every goroutine of the pool has begun before its variable became nil, then after close they
-- can all end, with which the wait group is at zero and close returns.
pub close_ends :
    (wp wp' : WorkerPool)
    → Steps new_worker_pool wp
    → ((i : ℕ) → i < wp.made → Started (wp.cells i))
    → close wp ≡ some wp'
    → (wp'' : WorkerPool) × Steps wp' wp'' × (wp''.wg ≡ 0)
close_ends wp wp' steps started e =
    let p = reachable-IsPool wp steps in
    let (cells, e', c) = close-Closed wp p in
    let off : (i : ℕ) → i < wp.made → ((cells i).done ≡ false) × Started (cells i) = λ i lt. (
      elim (Bool-cases (wp.cells i).done) [
        | inl t ↦ c.shut i ((p.each i lt).reached t)
        | inr f ↦ c.stays i f
      ],
      subst (λ ph. (ph ≡ idle true) ⊎ ((ph ≡ working true) ⊎ (ph ≡ exited))) (sym (c.phases i))
          (started i lt),
    ) in
    let (wp'', d) = drain (record wp { cells = cells }) wp.made c.pool (omega arith) off in
    let zero =
      none_left wp''.cells wp''.made (λ i lt. d.gone i (subst (λ m. i < m) d.same_made lt)) in
    let pc = d.pool.counted in
    let pw = d.pool.waited in
    (wp'', subst (λ q. Steps q wp'') (some_inj (sym e' ∙ e)) d.steps, omega arith)
