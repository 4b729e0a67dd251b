-- ===== src/WorkerPool/Turns.antt =====
-- The steps of the goroutines keep the invariant of the pool.
use adaptiveservice.Prelude.{
  ℕ, suc, ◌-◌, ◌<◌, ◌≡◌, refl, ap, inl, inr, Bool, true, false, some, ◌>>=◌, Bool-cases, arith,
}
use adaptiveservice.WorkerPool.{
  created, idle, working, exited, Cell, WorkerPool, start, begin, finish, ended, leave_with, leave,
}
use adaptiveservice.WorkerPool.Cells.{running, waiting, tally-ge}
use adaptiveservice.WorkerPool.Invariant.{IsPool, put-IsPool}

pub start-IsPool :
    (wp : WorkerPool) (i : ℕ)
    → IsPool wp
    → i < wp.made
    → (wp.cells i).phase ≡ created
    → IsPool (start i wp)
unfolding start
start-IsPool wp i p lt e =
    let is = p.each i lt in
    let r : running (wp.cells i) ≡ 1 = rw e refl in
    let w : waiting (wp.cells i) ≡ 1 = rw e refl in
    put-IsPool wp p i lt (record (wp.cells i) { phase = idle (wp.cells i).done })
      (record {
        closing = is.closing;
        reached = is.reached;
        runs = λ u x. cc x;
        given = λ u. (λ x. cc (x, u), λ x. cc x);
      })
      wp.count wp.idle_count wp.wg (omega arith) (omega arith) p.waited

pub begin-IsPool :
    (wp : WorkerPool) (i : ℕ) (b : Bool)
    → IsPool wp
    → i < wp.made
    → (wp.cells i).phase ≡ idle b
    → IsPool (begin i b wp)
unfolding begin
begin-IsPool wp i b p lt e =
    let is = p.each i lt in
    let r : running (wp.cells i) ≡ 1 = rw e refl in
    let w : waiting (wp.cells i) ≡ 1 = rw e refl in
    let some_idle = tally-ge waiting i wp.made wp.cells lt in
    let pi = p.idle_counted in
    put-IsPool wp p i lt (record (wp.cells i) { phase = working b })
      (record {
        closing = is.closing;
        reached = is.reached;
        runs = λ u x. cc x;
        given = λ u. (λ x. cc x, λ x. (is.given u).0 (cc (e, x)));
      })
      wp.count (wp.idle_count - 1) wp.wg (omega arith) (omega arith) p.waited

pub finish-IsPool :
    (wp : WorkerPool) (i : ℕ) (b : Bool)
    → IsPool wp
    → i < wp.made
    → (wp.cells i).phase ≡ working b
    → IsPool (finish i b wp)
unfolding finish
finish-IsPool wp i b p lt e =
    let is = p.each i lt in
    let r : running (wp.cells i) ≡ 1 = rw e refl in
    let w : waiting (wp.cells i) ≡ 0 = rw e refl in
    put-IsPool wp p i lt (record (wp.cells i) { phase = idle b })
      (record {
        closing = is.closing;
        reached = is.reached;
        runs = λ u x. cc x;
        given = λ u. (λ x. (is.given u).1 (cc (e, x)), λ x. cc x);
      })
      wp.count (suc wp.idle_count) wp.wg (omega arith) (omega arith) p.waited

ended-shut : (c : Cell) → c.done ≡ false → ended c ≡ some c
unfolding ended
ended-shut c d = rw d refl

pub leave-IsPool :
    (wp : WorkerPool) (i : ℕ) (b : Bool)
    → IsPool wp
    → i < wp.made
    → (wp.cells i).phase ≡ idle b
    → (wp.cells i).closed ≡ true
    → (leave i wp ≡ some (leave_with i wp (wp.cells i))) × IsPool (leave_with i wp (wp.cells i))
unfolding leave
leave-IsPool wp i b p lt e closed =
    let is = p.each i lt in
    let done : (wp.cells i).done ≡ false = elim (Bool-cases (wp.cells i).done) [
      | inl t ↦ cc (is.closing, t, closed)
      | inr f ↦ f
    ] in
    let r : running (wp.cells i) ≡ 1 = rw e refl in
    let w : waiting (wp.cells i) ≡ 1 = rw e refl in
    let some_idle = tally-ge waiting i wp.made wp.cells lt in
    let some_running = tally-ge running i wp.made wp.cells lt in
    let pi = p.idle_counted in
    let pc = p.counted in
    let pw = p.waited in
    (
      ap (λ o. o >>= λ c. some (leave_with i wp c)) (ended-shut (wp.cells i) done),
      put-IsPool wp p i lt (record (wp.cells i) { phase = exited })
          (record {
            closing = is.closing;
            reached = is.reached;
            runs = λ u x. cc (u, done);
            given = λ u. cc (u, done);
          })
          (wp.count - 1) (wp.idle_count - 1) (wp.wg - 1) (omega arith) (omega arith) (omega arith),
    )
