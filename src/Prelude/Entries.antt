-- ===== src/Prelude/Entries.antt =====
-- The entries that a delete from a Go map leaves.
use Prim.Native.Nat.{◌≤◌, ◌<◌}
use mathlib.Core.Path.{refl, sym, ap, ◌∙◌}
use mathlib.Core.Logic.{◌↔◌, inl, inr, ◌≢◌}
use mathlib.Core.List.{[], ◌∷◌}
use native.Mathlib.Omega.{arith}
use adaptiveservice.Prelude.Tests.{Eq, Bool-cases}
use adaptiveservice.Prelude.Lists.{Elem, length}
use adaptiveservice.Prelude.Maps.{Map, remove, keys}

module _ {K V : Type 0} ⦃e : Eq K⦄ where
  pub Elem-remove : (k : K) (x : K × V) (m : Map K V) → Elem x (remove k m) ↔ (Elem x m × (x.0 ≢ k))
  unfolding remove
  Elem-remove k x [] = (λ h. absurd h, λ h. h.0)
  Elem-remove k x ((j, w) ∷ m) =
      let ih = Elem-remove k x m in
      elim (Bool-cases (e.beq j k)) [
        | inl t ↦ rw t (
          λ h. (inr (ih.0 h).0, (ih.0 h).1),
          λ h. elim h.0 [
            | inl q ↦ absurd (h.1 (ap (λ (p : K × V). p.0) q ∙ (e.beq_iff j k).0 t))
            | inr z ↦ ih.1 (z, h.1)
          ],
        )
        | inr f ↦ rw f (
          elim [
            | inl q ↦ (inl q, λ r. cc ((e.beq_iff j k).1 (sym (ap (λ (p : K × V). p.0) q) ∙ r), f))
            | inr z ↦ (inr (ih.0 z).0, (ih.0 z).1)
          ],
          λ h. elim h.0 [ inl q ↦ inl q | inr z ↦ inr (ih.1 (z, h.1)) ],
        )
      ]

  pub not-Elem-remove : (k : K) (m : Map K V) → ¬ Elem k (keys (remove k m))
  unfolding remove
  not-Elem-remove k [] h = h
  not-Elem-remove k ((j, w) ∷ m) h = elim (Bool-cases (e.beq j k)) [
    | inl t ↦ not-Elem-remove k m (rw t at h)
    | inr f ↦ elim (rw f at h) [
      | inl q ↦ cc ((e.beq_iff j k).1 (sym q), f)
      | inr z ↦ not-Elem-remove k m z
    ]
  ]

  pub length-remove-le : (k : K) (m : Map K V) → length (remove k m) ≤ length m
  unfolding remove
  length-remove-le k [] = omega arith
  length-remove-le k ((j, w) ∷ m) = ground (arith, length-remove-le k m)

  -- A delete of a key that is there makes the map smaller.
  pub length-remove-lt :
      (k : K) (v : V) (m : Map K V) → Elem (k, v) m → length (remove k m) < length m
  unfolding remove
  length-remove-lt k v [] h = absurd h
  length-remove-lt k v ((j, w) ∷ m) h = elim (Bool-cases (e.beq j k)) [
    | inl t ↦ rw t (omega (arith, length-remove-le k m))
    | inr f ↦ rw f (elim h [
      | inl q ↦ cc ((e.beq_iff j k).1 (sym (ap (λ (p : K × V). p.0) q)), f)
      | inr z ↦ omega (arith, length-remove-lt k v m z)
    ])
  ]

  pub Elem→key : (k : K) (v : V) (m : Map K V) → Elem (k, v) m → Elem k (keys m)
  Elem→key k v [] h = absurd h
  Elem→key k v ((j, w) ∷ m) (inl q) = inl (ap (λ (p : K × V). p.0) q)
  Elem→key k v ((j, w) ∷ m) (inr h) = inr (Elem→key k v m h)

  pub key→Elem : (k : K) (m : Map K V) → Elem k (keys m) → (v : V) × Elem (k, v) m
  key→Elem k [] h = absurd h
  key→Elem k ((j, w) ∷ m) (inl q) = (w, inl (rw q refl))
  key→Elem k ((j, w) ∷ m) (inr h) = let (v, z) = key→Elem k m h in (v, inr z)
