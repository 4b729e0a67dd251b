-- ===== src/WorkerPool/Close.antt =====
-- What close does to the goroutines of a pool.
use adaptiveservice.Prelude.{
  ℕ, ◌<◌, ◌==◌, ◌≡◌, refl, sym, ap, ◌∙◌, subst, inl, inr, false, some, List, [], ◌∷◌, Elem, ◌>>=◌,
  ==_iff, Bool-cases, if_then, if_else,
}
use adaptiveservice.WorkerPool.{Cell, WorkerPool, set_cell, close_cell, close_all, close}
use adaptiveservice.WorkerPool.Cells.{set_cell-same, set_cell-other}
use adaptiveservice.WorkerPool.Invariant.{IsPool}
use adaptiveservice.WorkerPool.Removal.{closed_cell, close_done-IsCell, close-IsPool}

-- The cells after the slots ws are closed: every variable there is nil, and no goroutine has moved.
pub record Closed (wp : WorkerPool) (ws : List ℕ) (cells : ℕ → Cell) : Type 0 where
  pub pool : IsPool (record wp { cells = cells })
  pub shut : (i : ℕ) → Elem i ws → (cells i).done ≡ false
  pub stays : (i : ℕ) → (wp.cells i).done ≡ false → (cells i).done ≡ false
  pub phases : (i : ℕ) → (cells i).phase ≡ (wp.cells i).phase

close_cell-Closed :
    (wp : WorkerPool) (w : ℕ)
    → IsPool wp
    → w < wp.made
    → (cells : ℕ → Cell) × (close_cell w wp.cells ≡ some cells) × Closed wp (w ∷ []) cells
unfolding close_cell
close_cell-Closed wp w p lt = elim (Bool-cases (wp.cells w).done) [
  | inr f ↦ (
    wp.cells,
    if_else _ _ f,
    record {
      pool = p;
      shut = λ i z. elim z [
        | inl e ↦ subst (λ k. (wp.cells k).done ≡ false) (sym e) f
        | inr y ↦ absurd y
      ];
      stays = λ i d. d;
      phases = λ i. refl;
    },
  )
  | inl t ↦
      let c = closed_cell (wp.cells w) in
      let same = set_cell-same w c wp.cells in
      (
        set_cell w c wp.cells,
        if_then _ _ t
            ∙ ap (λ o. o >>= λ c. some (set_cell w c wp.cells))
                (close_done-IsCell (wp.cells w) (p.each w lt) t),
        record {
          pool = close-IsPool wp w p lt;
          shut = λ i z. elim z [
            | inl e ↦
                subst (λ k. (set_cell w c wp.cells k).done ≡ false) (sym e) (ap (λ x. x.done) same)
            | inr y ↦ absurd y
          ];
          stays = λ i d. elim (Bool-cases (i == w)) [
            | inl e ↦
                let k = (==_iff i w).0 e in
                subst (λ k. (set_cell w c wp.cells k).done ≡ false) (sym k) (ap (λ x. x.done) same)
            | inr f ↦
                ap (λ x. x.done)
                  (set_cell-other w i c wp.cells (λ e. let t = (==_iff i w).1 e in cc))
                ∙ d
          ];
          phases = λ i. elim (Bool-cases (i == w)) [
            | inl e ↦
                let k = (==_iff i w).0 e in
                subst (λ k. (set_cell w c wp.cells k).phase ≡ (wp.cells k).phase) (sym k)
                  (ap (λ x. x.phase) same)
            | inr f ↦
                ap (λ x. x.phase)
                  (set_cell-other w i c wp.cells (λ e. let t = (==_iff i w).1 e in cc))
          ];
        },
      )
]

close_all-Closed :
    (wp : WorkerPool) (ws : List ℕ)
    → IsPool wp
    → ((w : ℕ) → Elem w ws → w < wp.made)
    → (cells : ℕ → Cell) × (close_all wp.cells ws ≡ some cells) × Closed wp ws cells
unfolding close_all
close_all-Closed wp [] p known = (
  wp.cells,
  refl,
  record { pool = p; shut = λ i z. absurd z; stays = λ i d. d; phases = λ i. refl },
)
close_all-Closed wp (w ∷ ws) p known =
    let (first, e, c) = close_cell-Closed wp w p (known w (inl refl)) in
    let (cells, e', c') =
      close_all-Closed (record wp { cells = first }) ws c.pool (λ v z. known v (inr z)) in
    (
      cells,
      ap (λ o. o >>= λ cells'. close_all cells' ws) e ∙ e',
      record {
        pool = c'.pool;
        shut = λ i z. elim z [ inl q ↦ c'.stays i (c.shut i (inl q)) | inr y ↦ c'.shut i y ];
        stays = λ i d. c'.stays i (c.stays i d);
        phases = λ i. c'.phases i ∙ c.phases i;
      },
    )

-- In a pool with its invariant close does not panic, and closes what all its goroutines wait on.
pub close-Closed :
    (wp : WorkerPool)
    → IsPool wp
    → (cells : ℕ → Cell) × (close wp ≡ some (record wp { cells = cells }))
      × Closed wp wp.workers cells
unfolding close
close-Closed wp p =
    let (cells, e, c) = close_all-Closed wp wp.workers p p.known in
    (cells, ap (λ o. o >>= λ cells. some (record wp { cells = cells })) e, c)
