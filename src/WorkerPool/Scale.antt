-- ===== src/WorkerPool/Scale.antt =====
-- What autoScaler does in a round.
use adaptiveservice.Prelude.{
  ℕ, ◌+◌, ◌-◌, ◌/◌, ◌≤◌, ◌<◌, ltb, ◌≡◌, ◌⊎◌, refl, ap, ◌∙◌, inl, inr, some, ◌>>=◌, ltb→lt,
  ltb-false→ge, if_then, if_else, Bool-cases, arith,
}
use adaptiveservice.WorkerPool.{
  WorkerPool, new_worker_pool, add_worker, rm_worker, scale_to, auto_scale, Steps,
}
use adaptiveservice.WorkerPool.Removal.{rm_worker-IsPool}
use adaptiveservice.WorkerPool.Reach.{reachable-IsPool}

scale_to_lem :
    (should : ℕ) (wp : WorkerPool)
    → Steps new_worker_pool wp
    → (wp' : WorkerPool) × (k : ℕ) × (scale_to should wp ≡ some (wp', k))
      × (1 ≤ k)
      × (((wp.idle_count < should) × (wp' ≡ add_worker wp) × (wp.idle_count + k ≡ should))
          ⊎ (((should < wp.idle_count) × (rm_worker wp ≡ some wp') × (should + k ≡ wp.idle_count))
              ⊎ ((wp.idle_count ≡ should) × (wp' ≡ wp) × (k ≡ 1))))
unfolding scale_to
scale_to_lem should wp steps =
    let now = wp.idle_count in
    let (q, e, g) = rm_worker-IsPool wp (reachable-IsPool wp steps) in
    elim (Bool-cases (ltb now should)) [
      | inl t ↦
          let lt = ltb→lt now should t in
          (add_worker wp, should - now, if_then _ _ t, omega arith, inl (lt, refl, omega arith))
      | inr f ↦
          let ge = ltb-false→ge now should f in
          elim (Bool-cases (ltb should now)) [
            | inl t ↦
                let lt = ltb→lt should now t in
                (
                  q,
                  now - should,
                  if_else _ _ f
                      ∙ (if_then _ _ t ∙ ap (λ o. o >>= λ wp'. some (wp', now - should)) e),
                  omega arith,
                  inr (inl (lt, e, omega arith)),
                )
            | inr u ↦
                let ge' = ltb-false→ge should now u in
                (
                  wp,
                  1,
                  if_else _ _ f ∙ if_else _ _ u,
                  omega arith,
                  inr (inr (omega arith, refl, refl)),
                )
          ]
    ]

-- A round of autoScaler, in a pool that a new one has led to, returns: it adds one worker if fewer
-- are idle than one per q_weight waiting messages and the resident ones make, removes one if more
-- are, and else leaves the pool; it sleeps at most a second, the shorter the further the two are apart.
pub auto_scale_lem :
    (egress_len q_weight resident_workers : ℕ) (wp : WorkerPool)
    → Steps new_worker_pool wp
    → let should = egress_len / q_weight + resident_workers in
      (wp' : WorkerPool) × (k : ℕ) × (auto_scale egress_len q_weight resident_workers wp
        ≡ some (wp', k))
      × (1 ≤ k)
      × (((wp.idle_count < should) × (wp' ≡ add_worker wp) × (wp.idle_count + k ≡ should))
          ⊎ (((should < wp.idle_count) × (rm_worker wp ≡ some wp') × (should + k ≡ wp.idle_count))
              ⊎ ((wp.idle_count ≡ should) × (wp' ≡ wp) × (k ≡ 1))))
unfolding auto_scale
auto_scale_lem egress_len q_weight resident_workers wp steps =
    scale_to_lem (egress_len / q_weight + resident_workers) wp steps
