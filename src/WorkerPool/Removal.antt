-- ===== src/WorkerPool/Removal.antt =====
-- The removal of a worker, and the closing of its channel, keep the invariant of the pool.
use adaptiveservice.Prelude.{
  ℕ, ◌<◌, ◌≡◌, ◌⊎◌, refl, sym, ap, ◌∙◌, subst, inl, inr, true, false, not, some, some_inj, List, [],
  ◌∷◌, Elem, ◌>>=◌, Bool-cases, Option-cases,
}
use adaptiveservice.WorkerPool.{
  Cell, WorkerPool, set_cell, close_done, first_open, close_at, rm_worker,
}
use adaptiveservice.WorkerPool.Invariant.{IsCell, IsPool, put-IsPool}

-- What close_done makes of an open variable.
abbrev pub closed_cell : Cell → Cell
closed_cell c = record c { done = false; closed = true }

pub close_done-IsCell :
    {workers : List ℕ} {i : ℕ} (c : Cell)
    → IsCell workers i c
    → c.done ≡ true
    → close_done c ≡ some (closed_cell c)
unfolding close_done
close_done-IsCell c is d = let n : c.closed ≡ false = is.closing ∙ ap not d in rw n refl

closed_cell-IsCell : {workers : List ℕ} {i : ℕ} (c : Cell) → IsCell workers i (closed_cell c)
closed_cell-IsCell c = record {
  closing = refl;
  reached = λ u. cc u;
  runs = λ u. cc u;
  given = λ u. cc u;
}

pub close-IsPool :
    (wp : WorkerPool) (i : ℕ)
    → IsPool wp
    → i < wp.made
    → IsPool (record wp { cells = set_cell i (closed_cell (wp.cells i)) wp.cells })
close-IsPool wp i p lt =
    put-IsPool wp p i lt (closed_cell (wp.cells i)) (closed_cell-IsCell (wp.cells i)) wp.count
      wp.idle_count wp.wg refl refl p.waited

first_open_lem :
    (cells : ℕ → Cell) (ws : List ℕ) (w : ℕ)
    → first_open cells ws ≡ some w
    → Elem w ws × ((cells w).done ≡ true)
unfolding first_open
first_open_lem cells [] w e = cc e
first_open_lem cells (v ∷ ws) w e = elim (Bool-cases (cells v).done) [
  | inl t ↦
      let same : v ≡ w = some_inj (rw t at e) in
      (inl (sym same), subst (λ k. (cells k).done ≡ true) same t)
  | inr f ↦ let (m, d) = first_open_lem cells ws w (rw f at e) in (inr m, d)
]

pub rm_worker-IsPool :
    (wp : WorkerPool) → IsPool wp → (wp' : WorkerPool) × (rm_worker wp ≡ some wp') × IsPool wp'
unfolding rm_worker close_at
rm_worker-IsPool wp p = elim (Option-cases (first_open wp.cells wp.workers)) [
  | inl n ↦ (wp, ap (close_at wp) n, p)
  | inr (w, e) ↦
      let (m, d) = first_open_lem wp.cells wp.workers w e in
      let lt = p.known w m in
      (
        record wp { cells = set_cell w (closed_cell (wp.cells w)) wp.cells },
        ap (close_at wp) e
            ∙ ap (λ o. o >>= λ c. some (record wp { cells = set_cell w c wp.cells }))
                (close_done-IsCell (wp.cells w) (p.each w lt) d),
        close-IsPool wp w p lt,
      )
]

-- Nothing happens, or one goroutine's channel is closed.
pub rm_worker-cell :
    (wp wp' : WorkerPool)
    → IsPool wp
    → rm_worker wp ≡ some wp'
    → (wp ≡ wp')
      ⊎ ((w : ℕ) × (record wp { cells = set_cell w (closed_cell (wp.cells w)) wp.cells } ≡ wp'))
unfolding rm_worker close_at
rm_worker-cell wp wp' p e = elim (Option-cases (first_open wp.cells wp.workers)) [
  | inl n ↦ inl (some_inj (sym (ap (close_at wp) n) ∙ e))
  | inr (w, f) ↦
      let (m, d) = first_open_lem wp.cells wp.workers w f in
      let at_w =
        ap (λ o. o >>= λ c. some (record wp { cells = set_cell w c wp.cells }))
          (close_done-IsCell (wp.cells w) (p.each w (p.known w m)) d) in
      inr (w, some_inj (sym (ap (close_at wp) f ∙ at_w) ∙ e))
]
