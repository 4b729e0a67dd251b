-- ===== src/Prelude/Lists.antt =====
-- Lists measured and cut by native numbers, under the library's names.
use Prim.Native.Nat.{ℕ, zero, suc, ◌+◌, ◌-◌}
use mathlib.Core.Path.{◌≡◌, refl, ap}
use mathlib.Core.Bool.{Bool, true}
use mathlib.Core.Logic.{◌⊎◌, ◌↔◌, inl, inr}
use mathlib.Core.List.{List, [], ◌∷◌, ◌++◌}
use native.Mathlib.Omega.{arith}
use adaptiveservice.Prelude.Tests.{if◌then◌else◌, Bool-cases}

-- The item stands in the list.
abbrev pub Elem : {A : Type 0} → A → List A → Type 0
Elem a [] = ⊥
Elem a (x ∷ xs) = (a ≡ x) ⊎ Elem a xs

module _ {ℓ} {A : Type ℓ} where
  abbrev pub length : List A → ℕ
  length [] = 0
  length (x ∷ xs) = suc (length xs)

  abbrev pub take : ℕ → List A → List A
  take zero xs = []
  take (suc n) [] = []
  take (suc n) (x ∷ xs) = x ∷ take n xs

  abbrev pub drop : ℕ → List A → List A
  drop zero xs = xs
  drop (suc n) [] = []
  drop (suc n) (x ∷ xs) = drop n xs

  -- Every item satisfies P.
  abbrev pub All {κ} : (A → Type κ) → List A → Type κ
  All P [] = Unit
  All P (x ∷ xs) = P x × All P xs

  -- The items that pass a Boolean test.
  abbrev pub keep : (A → Bool) → List A → List A
  keep p [] = []
  keep p (x ∷ xs) = let rest = keep p xs in if p x then x ∷ rest else rest

module _ {ℓ} {A : Type ℓ} where
  pub length-append : (xs ys : List A) → length (xs ++ ys) ≡ length xs + length ys
  length-append [] ys = omega arith
  length-append (x ∷ xs) ys = omega (arith, length-append xs ys)

  pub length-drop : (n : ℕ) (xs : List A) → length (drop n xs) ≡ length xs - n
  length-drop zero xs = omega arith
  length-drop (suc n) [] = omega arith
  length-drop (suc n) (x ∷ xs) = omega (arith, length-drop n xs)

  pub take-append-drop : (n : ℕ) (xs : List A) → take n xs ++ drop n xs ≡ xs
  take-append-drop zero xs = refl
  take-append-drop (suc n) [] = refl
  take-append-drop (suc n) (x ∷ xs) = ap (◌∷◌ x) (take-append-drop n xs)

  pub drop-append : (xs ys : List A) → drop (length xs) (xs ++ ys) ≡ ys
  drop-append [] ys = refl
  drop-append (x ∷ xs) ys = drop-append xs ys

  pub take-append : (xs ys : List A) → take (length xs) (xs ++ ys) ≡ xs
  take-append [] ys = refl
  take-append (x ∷ xs) ys = ap (◌∷◌ x) (take-append xs ys)

pub Elem-append :
    {A : Type 0} (a : A) (xs ys : List A) → Elem a (xs ++ ys) ↔ (Elem a xs ⊎ Elem a ys)
Elem-append a [] ys = (λ h. inr h, elim [ inl h ↦ absurd h | inr h ↦ h ])
Elem-append a (x ∷ xs) ys =
    let ih = Elem-append a xs ys in
    (
      elim [ inl e ↦ inl (inl e) | inr h ↦ elim (ih.0 h) [ inl k ↦ inl (inr k) | inr k ↦ inr k ] ],
      elim [
        | inl h ↦ elim h [ inl e ↦ inl e | inr k ↦ inr (ih.1 (inl k)) ]
        | inr h ↦ inr (ih.1 (inr h))
      ],
    )

pub Elem-keep :
    {A : Type 0} (p : A → Bool) (a : A) (xs : List A)
    → Elem a (keep p xs) ↔ (Elem a xs × (p a ≡ true))
Elem-keep p a [] = (λ h. absurd h, λ h. h.0)
Elem-keep p a (x ∷ xs) =
    let ih = Elem-keep p a xs in
    elim (Bool-cases (p x)) [
      | inl t ↦ rw t (
        elim [ inl e ↦ (inl e, rw e t) | inr h ↦ (inr (ih.0 h).0, (ih.0 h).1) ],
        λ h. elim h.0 [ inl e ↦ inl e | inr k ↦ inr (ih.1 (k, h.1)) ],
      )
      | inr f ↦ rw f (
        λ h. (inr (ih.0 h).0, (ih.0 h).1),
        λ h. elim h.0 [ inl e ↦ cc (rw e at h.1) | inr k ↦ ih.1 (k, h.1) ],
      )
    ]

-- Distinct items.
abbrev pub Distinct : {A : Type 0} → List A → Type 0
Distinct [] = Unit {0}
Distinct (x ∷ xs) = (¬ Elem x xs) × Distinct xs
