-- ===== src/WorkerPool/Cells.antt =====
-- Counting over the goroutines of the store, and one changed cell in it.
use adaptiveservice.Prelude.{
  ℕ, zero, suc, ◌+◌, ◌≤◌, ◌<◌, ◌==◌, ◌≡◌, ◌≢◌, refl, ap, ◌∙◌, inl, inr, ==_iff, Bool-cases, arith,
}
use adaptiveservice.WorkerPool.{created, idle, working, exited, Cell, set_cell}

abbrev pub running : Cell → ℕ
running c = elim c.phase [ created ↦ 1 | idle b ↦ 1 | working b ↦ 1 | exited ↦ 0 ]

abbrev pub waiting : Cell → ℕ
waiting c = elim c.phase [ created ↦ 1 | idle b ↦ 1 | working b ↦ 0 | exited ↦ 0 ]

abbrev pub busy : Cell → ℕ
busy c = elim c.phase [ created ↦ 0 | idle b ↦ 0 | working b ↦ 1 | exited ↦ 0 ]

-- The sum of f over the first n cells
unfoldable pub tally : (Cell → ℕ) → (ℕ → Cell) → ℕ → ℕ
tally f cells zero = 0
tally f cells (suc n) = f (cells n) + tally f cells n

pub set_cell-same : (i : ℕ) (c : Cell) (cells : ℕ → Cell) → set_cell i c cells i ≡ c
unfolding set_cell
set_cell-same i c cells = rw ((==_iff i i).1 refl) refl

pub set_cell-other :
    (i j : ℕ) (c : Cell) (cells : ℕ → Cell) → j ≢ i → set_cell i c cells j ≡ cells j
unfolding set_cell
set_cell-other i j c cells ne = elim (Bool-cases (j == i)) [
  | inl t ↦ absurd (ne ((==_iff j i).0 t))
  | inr f ↦ rw f refl
]

pub tally-set_cell-above :
    (f : Cell → ℕ) (i n : ℕ) (c : Cell) (cells : ℕ → Cell)
    → n ≤ i
    → tally f (set_cell i c cells) n ≡ tally f cells n
unfolding tally
tally-set_cell-above f i zero c cells le = refl
tally-set_cell-above f i (suc n) c cells le =
    let ne : n ≢ i = λ e. omega (e, le, arith) in
    rw (set_cell-other i n c cells ne, tally-set_cell-above f i n c cells (omega arith)) refl

pub tally-set_cell :
    (f : Cell → ℕ) (i n : ℕ) (c : Cell) (cells : ℕ → Cell)
    → i < n
    → tally f (set_cell i c cells) n + f (cells i) ≡ tally f cells n + f c
unfolding tally
tally-set_cell f i zero c cells lt = absurd (omega (lt, arith))
tally-set_cell f i (suc n) c cells lt = elim (Bool-cases (n == i)) [
  | inl t ↦
      let e = (==_iff n i).0 t in
      let s : set_cell i c cells n ≡ c = ap (set_cell i c cells) e ∙ set_cell-same i c cells in
      let k : f (cells n) ≡ f (cells i) = ap (λ j. f (cells j)) e in
      let above = tally-set_cell-above f i n c cells (omega arith) in rw (s, above) (omega arith)
  | inr u ↦
      let ne : n ≢ i = λ e. (let t = (==_iff n i).1 e in cc) in
      let ih = tally-set_cell f i n c cells (omega arith) in
      rw (set_cell-other i n c cells ne) (omega arith)
]

pub tally-ge : (f : Cell → ℕ) (i n : ℕ) (cells : ℕ → Cell) → i < n → f (cells i) ≤ tally f cells n
unfolding tally
tally-ge f i zero cells lt = absurd (omega (lt, arith))
tally-ge f i (suc n) cells lt = elim (Bool-cases (n == i)) [
  | inl t ↦
      let k : f (cells n) ≡ f (cells i) = ap (λ j. f (cells j)) ((==_iff n i).0 t) in
      omega (k, arith)
  | inr u ↦
      let ne : n ≢ i = λ e. (let t = (==_iff n i).1 e in cc) in
      let ih = tally-ge f i n cells (omega (lt, ne, arith)) in omega (ih, arith)
]
