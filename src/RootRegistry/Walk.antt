-- ===== src/RootRegistry/Walk.antt =====
-- What a walk over the providers does to the registry, for a function that does not panic.
use adaptiveservice.Prelude.{
  ◌≡◌, refl, sym, ap, subst, All, ◌↔◌, inl, inr, true, false, Option, none, some, List, [], ◌∷◌,
  ◌++◌, Text, text_key, Map, lookup, insert, keys, Elem, Distinct, Elem-keys, Elem-append,
  not-elem→lookup, text_eq, text_eq_iff, has_byte, if◌then◌else◌, ◌>>=◌, >>=-eq-some, arith,
  Bool-cases, Option-cases, elem→lookup, lookup→elem,
}
use adaptiveservice.Wildcard.{star, wildcard_match}
use adaptiveservice.Wildcard.Correct.{wildcard_match-literal}
use adaptiveservice.RootRegistry.{
  ProviderInfo, ProviderMap, ServiceMap, Visit, kept, walk_provider_map, walk_matching,
  walk_providers,
}
use adaptiveservice.RootRegistry.Provider.{provider, provider-insert}

pub All-Elem :
    {K V : Type 0} (P : K × V → Type 0) (m : Map K V) (e : K × V) → All P m → Elem e m → P e
All-Elem P [] e a h = absurd h
All-Elem P (x ∷ m) e a (inl q) = subst P (sym q) a.0
All-Elem P (x ∷ m) e a (inr h) = All-Elem P m e a.1 h

pub Elem-provider :
    (m : ServiceMap) (n j : Text) (p : ProviderInfo)
    → Distinct (keys m)
    → All (λ e. Distinct (keys e.1)) m
    → (provider m n j ≡ some p) ↔ ((pmap : ProviderMap) × Elem (n, pmap) m × Elem (j, p) pmap)
Elem-provider m n j p d ds = (
  λ e.
      let (pmap, f, g) = >>=-eq-some (lookup n m) (lookup j) e in
      (pmap, lookup→elem n pmap m f, lookup→elem j p pmap g),
  λ (pmap, f, g).
      rw (elem→lookup n pmap m d f) (elem→lookup j p pmap (All-Elem _ m (n, pmap) ds f) g),
)

module _ {A : Type 0} (act : Text → Text → ProviderInfo → Option ProviderInfo)
    (out : Text → Text → ProviderInfo → List A) where
  -- The providers that the function leaves, as it leaves them.
  abbrev pub acted : Text → ProviderMap → ProviderMap
  acted n [] = []
  acted n ((j, p) ∷ pmap) = kept j (act n j p) (acted n pmap)

  abbrev pub collected : Text → ProviderMap → List A
  collected n [] = []
  collected n ((j, p) ∷ pmap) = out n j p ++ collected n pmap

  -- The function does not panic on the providers of the service.
  abbrev pub Visits : Visit A → Text → Type 0
  Visits fn n = (j : Text) (p : ProviderInfo) → fn n j p ≡ some (act n j p, out n j p)

  walk_provider_map_lem :
      (fn : Visit A) (n : Text) (pmap : ProviderMap)
      → Visits fn n
      → walk_provider_map fn n pmap ≡ some (acted n pmap, collected n pmap)
  unfolding walk_provider_map
  walk_provider_map_lem fn n [] h = refl
  walk_provider_map_lem fn n ((j, p) ∷ pmap) h = rw (h j p, walk_provider_map_lem fn n pmap h) refl

  Elem-acted : (n j : Text) (pmap : ProviderMap) → Elem j (keys (acted n pmap)) → Elem j (keys pmap)
  Elem-acted n j [] h = h
  Elem-acted n j ((i, p) ∷ pmap) h = elim (Option-cases (act n i p)) [
    | inl e ↦ inr (Elem-acted n j pmap (rw e at h))
    | inr (q, e) ↦ elim (rw e at h) [ inl s ↦ inl s | inr z ↦ inr (Elem-acted n j pmap z) ]
  ]

  lookup-acted :
      (n j : Text) (pmap : ProviderMap)
      → Distinct (keys pmap)
      → lookup j (acted n pmap) ≡ (lookup j pmap >>= act n j)
  unfolding lookup
  lookup-acted n j [] d = refl
  lookup-acted n j ((i, p) ∷ pmap) d =
      let absent : i ≡ j → lookup j (acted n pmap) ≡ none =
        λ e. not-elem→lookup j (acted n pmap) (λ z. d.0 (Elem-acted n i pmap (rw e z))) in
      elim (Option-cases (act n i p)) [
        | inl e ↦ ground (arith, text_eq_iff i j, lookup-acted n j pmap d.1, absent)
        | inr (q, e) ↦ ground (arith, text_eq_iff i j, lookup-acted n j pmap d.1)
      ]

  Elem-collected :
      (n : Text) (a : A) (pmap : ProviderMap)
      → Elem a (collected n pmap)
        ↔ ((j : Text) × (p : ProviderInfo) × Elem (j, p) pmap × Elem a (out n j p))
  Elem-collected n a [] = (λ h. absurd h, λ h. h.2)
  Elem-collected n a ((j, p) ∷ pmap) =
      let ih = Elem-collected n a pmap in
      let parts = Elem-append a (out n j p) (collected n pmap) in
      (
        λ h. elim (parts.0 h) [
          | inl o ↦ (j, p, inl refl, o)
          | inr z ↦ let (i, q, k, o) = ih.0 z in (i, q, inr k, o)
        ],
        λ (i, q, k, o). elim k [
          | inl e ↦ parts.1 (inl (subst (λ t. Elem a (out n t.0 t.1)) e o))
          | inr k' ↦ parts.1 (inr (ih.1 (i, q, k', o)))
        ],
      )

  acted_map : Text → ServiceMap → ServiceMap
  acted_map name [] = []
  acted_map name ((n, pmap) ∷ m) =
      (n, if wildcard_match name n then acted n pmap else pmap) ∷ acted_map name m

  collected_map : Text → ServiceMap → List A
  collected_map name [] = []
  collected_map name ((n, pmap) ∷ m) =
      (if wildcard_match name n then collected n pmap else []) ++ collected_map name m

  walk_matching_lem :
      (fn : Visit A) (name : Text) (m : ServiceMap)
      → ((n : Text) → Elem n (keys m) → Visits fn n)
      → walk_matching fn name m ≡ some (acted_map name m, collected_map name m)
  unfolding walk_matching acted_map collected_map
  walk_matching_lem fn name [] h = refl
  walk_matching_lem fn name ((n, pmap) ∷ m) h =
      let rest = walk_matching_lem fn name m (λ k z. h k (inr z)) in
      elim (Bool-cases (wildcard_match name n)) [
        | inl t ↦ rw (t, walk_provider_map_lem fn n pmap (h n (inl refl)), rest) refl
        | inr f ↦ rw (f, rest) refl
      ]

  -- What becomes of one provider of a service.
  abbrev pub fate : Text → Text → Text → ProviderInfo → Option ProviderInfo
  fate name n j p = if wildcard_match name n then act n j p else some p

  lookup-fated :
      (name k j : Text) (pmap : ProviderMap)
      → Distinct (keys pmap)
      → lookup j (if wildcard_match name k then acted k pmap else pmap)
        ≡ (lookup j pmap >>= fate name k j)
  lookup-fated name k j pmap d = elim (Option-cases (lookup j pmap)) [
    | inl e ↦ ground (arith, lookup-acted k j pmap d)
    | inr (p, e) ↦ ground (arith, lookup-acted k j pmap d)
  ]

  provider-acted_map :
      (name n j : Text) (m : ServiceMap)
      → All (λ e. Distinct (keys e.1)) m
      → provider (acted_map name m) n j ≡ (provider m n j >>= fate name n j)
  unfolding acted_map lookup
  provider-acted_map name n j [] d = refl
  provider-acted_map name n j ((k, pmap) ∷ m) d = elim (Bool-cases (text_eq k n)) [
    | inl t ↦ rw t (
        subst
          (λ i.
            lookup j (if wildcard_match name k then acted k pmap else pmap)
            ≡ (lookup j pmap >>= fate name i j))
          ((text_eq_iff k n).0 t) (lookup-fated name k j pmap d.0))
    | inr f ↦ rw f (provider-acted_map name n j m d.1)
  ]

  Elem-collected_map :
      (name : Text) (a : A) (m : ServiceMap)
      → Elem a (collected_map name m) ↔ (
          (n : Text) × (pmap : ProviderMap) × Elem (n, pmap) m
          × (wildcard_match name n ≡ true)
          × Elem a (collected n pmap))
  unfolding collected_map
  Elem-collected_map name a [] = (λ h. absurd h, λ h. h.2)
  Elem-collected_map name a ((k, pmap) ∷ m) =
      let ih = Elem-collected_map name a m in
      let parts =
        Elem-append a (if wildcard_match name k then collected k pmap else [])
          (collected_map name m) in
      (
        λ h. elim (parts.0 h) [
          | inl o ↦ elim (Bool-cases (wildcard_match name k)) [
            | inl t ↦ (k, pmap, inl refl, t, rw t at o)
            | inr f ↦ absurd (rw f at o)
          ]
          | inr z ↦ let (n, q, e, w, o) = ih.0 z in (n, q, inr e, w, o)
        ],
        λ (n, q, e, w, o). elim e [
          | inl s ↦ parts.1 (
              inl (
                subst (λ t. Elem a (if wildcard_match name t.0 then collected t.0 t.1 else [])) s
                  (rw w o)))
          | inr z ↦ parts.1 (inr (ih.1 (n, q, z, w, o)))
        ],
      )

  -- The registry after a walk, and what the walk collected.
  unfoldable pub Walked : Text → ServiceMap → ServiceMap → List A → Type 0
  Walked name m after found =
      ((n j : Text) → provider after n j ≡ (provider m n j >>= fate name n j))
      × ((a : A)
          → Elem a found ↔ (
              (n : Text) × (j : Text) × (p : ProviderInfo) × (provider m n j ≡ some p)
              × (wildcard_match name n ≡ true)
              × Elem a (out n j p)))

  walk_matching-Walked :
      (name : Text) (m : ServiceMap)
      → Distinct (keys m)
      → All (λ e. Distinct (keys e.1)) m
      → Walked name m (acted_map name m) (collected_map name m)
  unfolding Walked
  walk_matching-Walked name m d ds = (
    λ n j. provider-acted_map name n j m ds,
    λ a. (
      λ h.
          let (n, pmap, e, w, o) = (Elem-collected_map name a m).0 h in
          let (j, p, f, g) = (Elem-collected n a pmap).0 o in
          (n, j, p, (Elem-provider m n j p d ds).1 (pmap, e, f), w, g),
      λ (n, j, p, e, w, g).
          let (pmap, f, k) = (Elem-provider m n j p d ds).0 e in
          (Elem-collected_map name a m).1 (n, pmap, f, w, (Elem-collected n a pmap).1 (j, p, k, g)),
    ),
  )

  module _ (name : Text) (w : has_byte star name ≡ false) (m : ServiceMap) where
    missing-Walked : lookup name m ≡ none → Walked name m m []
    unfolding Walked
    missing-Walked e = (
      (λ n j. ground (arith, wildcard_match-literal name n w, text_eq_iff name n)),
      λ a. (
        λ h. absurd h,
        λ (n, j, p, f, t, g). ground (arith, wildcard_match-literal name n w, text_eq_iff name n),
      ),
    )

    one-Walked :
        (pmap : ProviderMap)
        → Distinct (keys pmap)
        → lookup name m ≡ some pmap
        → Walked name m (insert name (acted name pmap) m) (collected name pmap)
    unfolding Walked
    one-Walked pmap d e = (
      (λ n j. ground (
        arith,
        wildcard_match-literal name n w,
        text_eq_iff name n,
        provider-insert name (acted name pmap) m n j,
        lookup-acted name j pmap d,
      )),
      λ a. (
        (λ h.
            let (j, p, k, o) = (Elem-collected name a pmap).0 h in
            (
              name,
              j,
              p,
              ground (arith, elem→lookup j p pmap d k),
              ground (arith, wildcard_match-literal name name w, text_eq_iff name name),
              o,
            )),
        λ (n, j, p, f, t, o).
            let same : n ≡ name =
              ground (arith, wildcard_match-literal name n w, text_eq_iff name n) in
            (Elem-collected name a pmap).1 (
              j,
              p,
              lookup→elem j p pmap (ground (arith, ap (λ k. lookup k m) same)),
              subst (λ k. Elem a (out k j p)) same o,
            ),
      ),
    )

  -- walkProviders does so for an exact name and for a pattern alike.
  pub walk_providers-Walked :
      (fn : Visit A) (name : Text) (m : ServiceMap)
      → Distinct (keys m)
      → All (λ e. Distinct (keys e.1)) m
      → ((n : Text) → Elem n (keys m) → Visits fn n)
      → (after : ServiceMap) × (found : List A) × (walk_providers fn name m ≡ some (after, found))
        × Walked name m after found
  unfolding walk_providers
  walk_providers-Walked fn name m d ds v = elim (Bool-cases (has_byte star name)) [
    | inl w ↦ (
      acted_map name m,
      collected_map name m,
      rw w (walk_matching_lem fn name m v),
      walk_matching-Walked name m d ds,
    )
    | inr w ↦ elim (Option-cases (lookup name m)) [
      | inl e ↦ (m, [], rw (w, e) refl, missing-Walked name w m e)
      | inr (pmap, e) ↦ (
        insert name (acted name pmap) m,
        collected name pmap,
        rw (w, e, walk_provider_map_lem fn name pmap (v name ((Elem-keys name m).1 (pmap, e))))
            refl,
        one-Walked name w m pmap (All-Elem _ m (name, pmap) ds (lookup→elem name pmap m e)) e,
      )
    ]
  ]
