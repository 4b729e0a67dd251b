-- ===== src/Prelude/Maps.antt =====
-- A Go map as the list of its entries, in the order in which a range over it visits them. That
-- order is not specified by Go, so the theorems hold for every list of entries.
use mathlib.Core.Path.{◌≡◌, refl, sym, subst}
use mathlib.Core.Logic.{◌↔◌, ◌⊎◌, inl, inr}
use mathlib.Core.Bool.{true}
use mathlib.Core.Option.{Option, none, some}
use mathlib.Core.List.{List, [], ◌∷◌}
use native.Mathlib.Omega.{arith}
use adaptiveservice.Prelude.Tests.{if◌then◌else◌, Eq, Bool-cases}
use adaptiveservice.Prelude.Lists.{Elem, Distinct, All}

abbrev pub Map {ℓ κ} : Type ℓ → Type κ → Type (ℓ ⊔ κ)
Map K V = List (K × V)

pub beq_refl {ℓ} : {K : Type ℓ} ⦃e : Eq K⦄ (k : K) → e.beq k k ≡ true
beq_refl ⦃e⦄ k = (e.beq_iff k k).1 refl

module _ {ℓ κ} {K : Type ℓ} {V : Type κ} ⦃e : Eq K⦄ where
  -- v, has := m[k]
  unfoldable pub lookup : K → Map K V → Option V
  lookup k [] = none
  lookup k ((j, v) ∷ m) = if e.beq j k then some v else lookup k m

  -- m[k] = v
  unfoldable pub insert : K → V → Map K V → Map K V
  insert k v [] = (k, v) ∷ []
  insert k v ((j, w) ∷ m) = if e.beq j k then (k, v) ∷ m else (j, w) ∷ insert k v m

  -- delete(m, k)
  unfoldable pub remove : K → Map K V → Map K V
  remove k [] = []
  remove k ((j, v) ∷ m) = let rest = remove k m in if e.beq j k then rest else (j, v) ∷ rest

  pub lookup-insert :
      (k j : K) (v : V) (m : Map K V)
      → lookup j (insert k v m) ≡ (if e.beq k j then some v else lookup j m)
  unfolding lookup insert
  lookup-insert k j v [] = refl
  lookup-insert k j v ((i, w) ∷ m) =
      ground (arith, e.beq_iff k j, e.beq_iff i k, e.beq_iff i j, lookup-insert k j v m)

  pub lookup-remove :
      (k j : K) (m : Map K V) → lookup j (remove k m) ≡ (if e.beq k j then none else lookup j m)
  unfolding lookup remove
  lookup-remove k j [] = ground arith
  lookup-remove k j ((i, w) ∷ m) =
      ground (arith, e.beq_iff k j, e.beq_iff i k, e.beq_iff i j, lookup-remove k j m)

module _ {K V : Type 0} where
  abbrev pub keys : Map K V → List K
  keys [] = []
  keys ((k, v) ∷ m) = k ∷ keys m

module _ {K V : Type 0} ⦃e : Eq K⦄ where
  pub Elem-keys : (k : K) (m : Map K V) → Elem k (keys m) ↔ ((v : V) × (lookup k m ≡ some v))
  unfolding lookup
  Elem-keys k [] = (λ h. absurd h, λ h. cc h.1)
  Elem-keys k ((j, w) ∷ m) =
      let ih = Elem-keys k m in
      elim (Bool-cases (e.beq j k)) [
        | inl t ↦ rw t (λ h. (w, refl), λ h. inl (sym ((e.beq_iff j k).0 t)))
        | inr f ↦
            rw f (
              elim [ inl q ↦ cc ((e.beq_iff j k).1 (sym q), f) | inr h ↦ ih.0 h ],
              λ h. inr (ih.1 h),
            )
      ]

  -- A key that a write or a delete does not name is there after it as before.
  pub Elem-keys-insert :
      (j k : K) (v : V) (m : Map K V) → Elem j (keys (insert k v m)) → (j ≡ k) ⊎ Elem j (keys m)
  unfolding insert
  Elem-keys-insert j k v [] h = elim h [ inl q ↦ inl q | inr z ↦ absurd z ]
  Elem-keys-insert j k v ((i, w) ∷ m) h = elim (Bool-cases (e.beq i k)) [
    | inl t ↦ elim (rw t at h) [ inl q ↦ inl q | inr z ↦ inr (inr z) ]
    | inr f ↦ elim (rw f at h) [
      | inl q ↦ inr (inl q)
      | inr z ↦ elim (Elem-keys-insert j k v m z) [ inl q ↦ inl q | inr y ↦ inr (inr y) ]
    ]
  ]

  -- In a Go map no key occurs twice.
  pub elem→lookup :
      (k : K) (v : V) (m : Map K V) → Distinct (keys m) → Elem (k, v) m → lookup k m ≡ some v
  unfolding lookup
  elem→lookup k v [] d h = absurd h
  elem→lookup k v ((j, w) ∷ m) d (inl q) = ground (arith, e.beq_iff j k)
  elem→lookup k v ((j, w) ∷ m) d (inr h) =
      let found = elem→lookup k v m d.1 h in
      elim (Bool-cases (e.beq j k)) [
        | inl t ↦ absurd (
            d.0 (
              subst (λ i. Elem i (keys m)) (sym ((e.beq_iff j k).0 t))
                ((Elem-keys k m).1 (v, found))))
        | inr f ↦ rw f found
      ]

  pub lookup→elem : (k : K) (v : V) (m : Map K V) → lookup k m ≡ some v → Elem (k, v) m
  unfolding lookup
  lookup→elem k v [] h = cc
  lookup→elem k v ((j, w) ∷ m) h = elim (Bool-cases (e.beq j k)) [
    | inl t ↦ inl (ground (arith, e.beq_iff j k))
    | inr f ↦ inr (lookup→elem k v m (rw f at h))
  ]

  pub not-elem→lookup : (k : K) (m : Map K V) → ¬ Elem k (keys m) → lookup k m ≡ none
  unfolding lookup
  not-elem→lookup k [] h = refl
  not-elem→lookup k ((j, w) ∷ m) h = elim (Bool-cases (e.beq j k)) [
    | inl t ↦ absurd (h (inl (sym ((e.beq_iff j k).0 t))))
    | inr f ↦ rw f (not-elem→lookup k m (λ z. h (inr z)))
  ]

  pub insert-Distinct :
      (k : K) (v : V) (m : Map K V) → Distinct (keys m) → Distinct (keys (insert k v m))
  unfolding insert
  insert-Distinct k v [] d = (λ z. z, tt)
  insert-Distinct k v ((j, w) ∷ m) d = elim (Bool-cases (e.beq j k)) [
    | inl t ↦ rw t (subst (λ i. ¬ Elem i (keys m)) ((e.beq_iff j k).0 t) d.0, d.1)
    | inr f ↦ rw f (
      (λ z. elim (Elem-keys-insert j k v m z) [
        | inl q ↦ cc ((e.beq_iff j k).1 q, f)
        | inr y ↦ d.0 y
      ]),
      insert-Distinct k v m d.1,
    )
  ]

  pub Elem-keys-remove : (j k : K) (m : Map K V) → Elem j (keys (remove k m)) → Elem j (keys m)
  unfolding remove
  Elem-keys-remove j k [] h = h
  Elem-keys-remove j k ((i, w) ∷ m) h = elim (Bool-cases (e.beq i k)) [
    | inl t ↦ inr (Elem-keys-remove j k m (rw t at h))
    | inr f ↦ elim (rw f at h) [ inl q ↦ inl q | inr z ↦ inr (Elem-keys-remove j k m z) ]
  ]

  pub remove-Distinct : (k : K) (m : Map K V) → Distinct (keys m) → Distinct (keys (remove k m))
  unfolding remove
  remove-Distinct k [] d = tt
  remove-Distinct k ((j, w) ∷ m) d = elim (Bool-cases (e.beq j k)) [
    | inl t ↦ rw t (remove-Distinct k m d.1)
    | inr f ↦ rw f ((λ z. d.0 (Elem-keys-remove j k m z)), remove-Distinct k m d.1)
  ]

  pub All-insert :
      (P : K × V → Type 0) (k : K) (v : V) (m : Map K V) → All P m → P (k, v) → All P (insert k v m)
  unfolding insert
  All-insert P k v [] a h = (h, tt)
  All-insert P k v ((j, w) ∷ m) a h = elim (Bool-cases (e.beq j k)) [
    | inl t ↦ rw t (h, a.1)
    | inr f ↦ rw f (a.0, All-insert P k v m a.1 h)
  ]
