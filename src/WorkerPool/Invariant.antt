-- ===== src/WorkerPool/Invariant.antt =====
-- What holds of a worker pool whatever was called and whichever goroutine ran.
use adaptiveservice.Prelude.{
  ℕ, suc, ◌+◌, ◌<◌, ◌==◌, ◌≡◌, ◌≢◌, ◌⊎◌, refl, sym, ap, subst, inl, inr, true, false, not, List, [],
  ◌∷◌, Elem, ==_iff, Bool-cases, arith,
}
use adaptiveservice.WorkerPool.{
  idle, working, exited, Cell, WorkerPool, new_cell, new_worker_pool, set_cell, place, add_worker,
}
use adaptiveservice.WorkerPool.Cells.{
  running, waiting, tally, set_cell-same, set_cell-other, tally-set_cell, tally-set_cell-above,
}

-- The channel of a goroutine is closed exactly when its variable is nil; one that is open is
-- reached from the pool and belongs to a goroutine that has not ended and was not given nil.
pub record IsCell (workers : List ℕ) (i : ℕ) (c : Cell) : Type 0 where
  pub closing : c.closed ≡ not c.done
  pub reached : c.done ≡ true → Elem i workers
  pub runs : c.done ≡ true → c.phase ≢ exited
  pub given : c.done ≡ true → (c.phase ≢ idle false) × (c.phase ≢ working false)

-- The counters count the goroutines that have not ended, and those of them that handle no message.
pub record IsPool (wp : WorkerPool) : Type 0 where
  pub counted : tally running wp.cells wp.made ≡ wp.count
  pub idle_counted : tally waiting wp.cells wp.made ≡ wp.idle_count
  pub waited : wp.wg ≡ wp.count
  pub known : (w : ℕ) → Elem w wp.workers → w < wp.made
  pub each : (i : ℕ) → i < wp.made → IsCell wp.workers i (wp.cells i)

module _ (wp : WorkerPool) (p : IsPool wp) (i : ℕ) (lt : i < wp.made) (c : Cell)
    (is : IsCell wp.workers i c) where
  -- A goroutine changes, and the counters by as much.
  pub put-IsPool :
      (count idle_count wg : ℕ)
      → count + running (wp.cells i) ≡ wp.count + running c
      → idle_count + waiting (wp.cells i) ≡ wp.idle_count + waiting c
      → wg ≡ count
      → IsPool (record wp {
        cells = set_cell i c wp.cells;
        count = count;
        idle_count = idle_count;
        wg = wg;
      })
  put-IsPool count idle_count wg e1 e2 e3 =
      let r = tally-set_cell running i wp.made c wp.cells lt in
      let w = tally-set_cell waiting i wp.made c wp.cells lt in
      let pc = p.counted in
      let pi = p.idle_counted in
      record {
        counted = omega arith;
        idle_counted = omega arith;
        waited = e3;
        known = p.known;
        each = λ j l. elim (Bool-cases (j == i)) [
          | inl t ↦
              let e = (==_iff j i).0 t in
              subst (λ k. IsCell wp.workers k (set_cell i c wp.cells k)) (sym e)
                (subst (IsCell wp.workers i) (sym (set_cell-same i c wp.cells)) is)
          | inr f ↦
              subst (IsCell wp.workers j)
                (sym (set_cell-other i j c wp.cells (λ e. let t = (==_iff j i).1 e in cc)))
                (p.each j l)
        ];
      }

pub new_worker_pool-IsPool : IsPool new_worker_pool
unfolding tally
new_worker_pool-IsPool = record {
  counted = refl;
  idle_counted = refl;
  waited = refl;
  known = λ w z. absurd z;
  each = λ i l. absurd (omega (l, arith));
}

-- Each slot of place is the new goroutine or an old slot, and no open one is lost.
place_sound :
    (cells : ℕ → Cell) (i w : ℕ) (ws : List ℕ) → Elem w (place cells i ws) → (w ≡ i) ⊎ Elem w ws
unfolding place
place_sound cells i w [] (inl e) = inl e
place_sound cells i w [] (inr z) = absurd z
place_sound cells i w (v ∷ ws) z = elim (Bool-cases (cells v).done) [
  | inl t ↦ elim (rw t at z) [
    | inl e ↦ inr (inl e)
    | inr y ↦ elim (place_sound cells i w ws y) [ inl e ↦ inl e | inr x ↦ inr (inr x) ]
  ]
  | inr f ↦ elim (rw f at z) [ inl e ↦ inl e | inr y ↦ inr (inr y) ]
]

place_new : (cells : ℕ → Cell) (i : ℕ) (ws : List ℕ) → Elem i (place cells i ws)
unfolding place
place_new cells i [] = inl refl
place_new cells i (v ∷ ws) = elim (Bool-cases (cells v).done) [
  | inl t ↦ rw t (inr (place_new cells i ws))
  | inr f ↦ rw f (inl refl)
]

place_open :
    (cells : ℕ → Cell) (i w : ℕ) (ws : List ℕ)
    → (cells w).done ≡ true
    → Elem w ws
    → Elem w (place cells i ws)
unfolding place
place_open cells i w [] up z = absurd z
place_open cells i w (v ∷ ws) up (inl e) =
    let t : (cells v).done ≡ true = subst (λ k. (cells k).done ≡ true) e up in rw t (inl e)
place_open cells i w (v ∷ ws) up (inr z) = elim (Bool-cases (cells v).done) [
  | inl t ↦ rw t (inr (place_open cells i w ws up z))
  | inr f ↦ rw f (inr z)
]

pub add_worker-IsPool : (wp : WorkerPool) → IsPool wp → IsPool (add_worker wp)
unfolding add_worker tally
add_worker-IsPool wp p =
    let same = set_cell-same wp.made new_cell wp.cells in
    let r = tally-set_cell-above running wp.made wp.made new_cell wp.cells (omega arith) in
    let w = tally-set_cell-above waiting wp.made wp.made new_cell wp.cells (omega arith) in
    record {
      counted = rw (same, r, p.counted) (omega arith);
      idle_counted = rw (same, w, p.idle_counted) (omega arith);
      waited = ap suc p.waited;
      known = λ v z. elim (place_sound wp.cells wp.made v wp.workers z) [
        | inl e ↦ omega (e, arith)
        | inr y ↦ (let k = p.known v y in omega (k, arith))
      ];
      each = λ i l. elim (Bool-cases (i == wp.made)) [
        | inl t ↦
            subst
              (λ k.
                IsCell (place wp.cells wp.made wp.workers) k (set_cell wp.made new_cell wp.cells k))
              (sym ((==_iff i wp.made).0 t))
              (subst (IsCell (place wp.cells wp.made wp.workers) wp.made) (sym same) (record {
                closing = refl;
                reached = λ u. place_new wp.cells wp.made wp.workers;
                runs = λ u x. cc x;
                given = λ u. (λ x. cc x, λ x. cc x);
              }))
        | inr f ↦
            let ne : i ≢ wp.made = λ e. let t = (==_iff i wp.made).1 e in cc in
            let old = p.each i (omega (l, ne, arith)) in
            subst (IsCell (place wp.cells wp.made wp.workers) i)
              (sym (set_cell-other wp.made i new_cell wp.cells ne))
              (record {
                closing = old.closing;
                reached = λ u. place_open wp.cells wp.made i wp.workers u (old.reached u);
                runs = old.runs;
                given = old.given;
              })
      ];
    }
