-- ===== src/WorkerPool/Stuck.antt =====
-- A worker that is removed before its goroutine runs never ends.
use adaptiveservice.Prelude.{
  ℕ, ◌≤◌, ◌<◌, ◌==◌, ◌≡◌, ◌⊎◌, refl, sym, ap, ◌∙◌, subst, inl, inr, true, false, some_inj, ==_iff,
  Bool-cases, arith,
}
use adaptiveservice.WorkerPool.{
  created, idle, working, exited, Cell, WorkerPool, new_worker_pool, new_cell, set_cell, add_worker,
  start, begin, finish, Step, Steps, stop, then, step_add, step_rm, step_close, step_start,
  step_begin, step_finish, step_leave,
}
use adaptiveservice.WorkerPool.Cells.{running, tally-ge, set_cell-same, set_cell-other}
use adaptiveservice.WorkerPool.Invariant.{IsPool}
use adaptiveservice.WorkerPool.Removal.{closed_cell, rm_worker-cell}
use adaptiveservice.WorkerPool.Turns.{leave-IsPool}
use adaptiveservice.WorkerPool.Close.{close-Closed}
use adaptiveservice.WorkerPool.Reach.{reachable-IsPool, Steps-IsPool}

-- The variable is nil, and the goroutine was given nil or will be.
abbrev Stuck : Cell → Type 0
Stuck c =
    (c.done ≡ false) × ((c.phase ≡ created) ⊎ ((c.phase ≡ idle false) ⊎ (c.phase ≡ working false)))

set_cell-Stuck :
    (cells : ℕ → Cell) (i j : ℕ) (c : Cell)
    → Stuck (cells i)
    → ((i ≡ j) → Stuck c)
    → Stuck (set_cell j c cells i)
set_cell-Stuck cells i j c s h = elim (Bool-cases (i == j)) [
  | inl t ↦
      let e = (==_iff i j).0 t in
      subst (λ k. Stuck (set_cell j c cells k)) (sym e)
        (subst Stuck (sym (set_cell-same j c cells)) (h e))
  | inr f ↦ subst Stuck (sym (set_cell-other j i c cells (λ e. let t = (==_iff i j).1 e in cc))) s
]

Step-Stuck :
    (wp wp' : WorkerPool) (i : ℕ)
    → Step wp wp'
    → IsPool wp
    → i < wp.made
    → Stuck (wp.cells i)
    → (i < wp'.made) × Stuck (wp'.cells i)
unfolding add_worker start begin finish
Step-Stuck wp wp' i step_add p lt s = (
  omega (lt, arith),
  set_cell-Stuck wp.cells i wp.made new_cell s (λ e. absurd (omega (e, lt, arith))),
)
Step-Stuck wp wp' i (step_rm e) p lt s = elim (rm_worker-cell wp wp' p e) [
  | inl same ↦ subst (λ q. (i < q.made) × Stuck (q.cells i)) same (lt, s)
  | inr (w, same) ↦
      subst (λ q. (i < q.made) × Stuck (q.cells i)) same
        (
          lt,
          set_cell-Stuck wp.cells i w (closed_cell (wp.cells w)) s (λ k. (
            refl,
            subst
                (λ j.
                  ((wp.cells j).phase ≡ created)
                  ⊎ (((wp.cells j).phase ≡ idle false) ⊎ ((wp.cells j).phase ≡ working false)))
                k s.1,
          )),
        )
]
Step-Stuck wp wp' i (step_close e) p lt s =
    let (cells, e', c) = close-Closed wp p in
    subst (λ q. (i < q.made) × Stuck (q.cells i)) (some_inj (sym e' ∙ e))
      (
        lt,
        (
          c.stays i s.0,
          subst (λ ph. (ph ≡ created) ⊎ ((ph ≡ idle false) ⊎ (ph ≡ working false)))
              (sym (c.phases i)) s.1,
        ),
      )
Step-Stuck wp wp' i (step_start j l e) p lt s = (
  lt,
  set_cell-Stuck wp.cells i j (record (wp.cells j) { phase = idle (wp.cells j).done }) s
      (λ k. let d = subst (λ j. (wp.cells j).done ≡ false) k s.0 in (d, inr (inl (ap idle d)))),
)
Step-Stuck wp wp' i (step_begin j b l e) p lt s = (
  lt,
  set_cell-Stuck wp.cells i j (record (wp.cells j) { phase = working b }) s
      (λ k.
        let (d, h) = subst (λ j. Stuck (wp.cells j)) k s in
        (
          d,
          elim h [
            | inl x ↦ cc (e, x)
            | inr (inl x) ↦ inr (inr (cc (e, x)))
            | inr (inr x) ↦ cc (e, x)
          ],
        )),
)
Step-Stuck wp wp' i (step_finish j b l e) p lt s = (
  lt,
  set_cell-Stuck wp.cells i j (record (wp.cells j) { phase = idle b }) s
      (λ k.
        let (d, h) = subst (λ j. Stuck (wp.cells j)) k s in
        (
          d,
          elim h [
            | inl x ↦ cc (e, x)
            | inr (inl x) ↦ cc (e, x)
            | inr (inr x) ↦ inr (inl (cc (e, x)))
          ],
        )),
)
Step-Stuck wp wp' i (step_leave j l e closed r) p lt s =
    let (r', p') = leave-IsPool wp j true p l e closed in
    subst (λ q. (i < q.made) × Stuck (q.cells i)) (some_inj (sym r' ∙ r))
      (
        lt,
        set_cell-Stuck wp.cells i j (record (wp.cells j) { phase = exited }) s
            (λ k.
              let (d, h) = subst (λ j. Stuck (wp.cells j)) k s in
              elim h [ inl x ↦ cc (e, x) | inr (inl x) ↦ cc (e, x) | inr (inr x) ↦ cc (e, x) ]),
      )

Steps-Stuck :
    (wp wp' : WorkerPool) (i : ℕ)
    → Steps wp wp'
    → IsPool wp
    → i < wp.made
    → Stuck (wp.cells i)
    → (i < wp'.made) × Stuck (wp'.cells i)
Steps-Stuck wp wp' i stop p lt s = (lt, s)
Steps-Stuck wp wp' i (then {wp' = mid} steps step) p lt s =
    let (lt', s') = Steps-Stuck wp mid i steps p lt s in
    Step-Stuck mid wp' i step (Steps-IsPool wp mid steps p) lt' s'

-- A worker whose variable became nil before its goroutine ran never ends, whatever is called and
-- whichever goroutine runs from then on: the wait group stays above zero, and close does not return.
pub removed_early_never_ends :
    (wp wp' : WorkerPool) (i : ℕ)
    → Steps new_worker_pool wp
    → i < wp.made
    → (wp.cells i).phase ≡ created
    → (wp.cells i).done ≡ false
    → Steps wp wp'
    → 1 ≤ wp'.wg
removed_early_never_ends wp wp' i before lt e d after =
    let p = reachable-IsPool wp before in
    let p' = Steps-IsPool wp wp' after p in
    let (lt', (d', h)) = Steps-Stuck wp wp' i after p lt (d, inl e) in
    let one : running (wp'.cells i) ≡ 1 = elim h [
      | inl x ↦ rw x refl
      | inr (inl x) ↦ rw x refl
      | inr (inr x) ↦ rw x refl
    ] in
    let ge = tally-ge running i wp'.made wp'.cells lt' in
    let pc = p'.counted in let pw = p'.waited in omega arith
