-- ===== src/RootRegistry/Keys.antt =====
-- The keys of the registry under a walk over the providers: none is added, none becomes double.
use adaptiveservice.Prelude.{
  ◌≡◌, sym, ap, ◌∙◌, subst, ◌⊎◌, inl, inr, Option, none, some, List, [], ◌∷◌, ◌++◌, Text, text_key,
  keys, Elem, Distinct, All, lookup, insert, has_byte, if◌then◌else◌, ◌>>=◌, >>=-eq-some, some_inj,
  Option-cases, Bool-cases, lookup→elem, Elem-keys,
}
use adaptiveservice.Wildcard.{star, wildcard_match}
use adaptiveservice.RootRegistry.{
  ProviderInfo, ProviderMap, ServiceMap, Visit, kept, walk_provider_map, walk_matching,
  walk_providers,
}
use adaptiveservice.RootRegistry.Walk.{All-Elem}
use adaptiveservice.RootRegistry.Check.{IsRegistry}
use adaptiveservice.RootRegistry.Invariant.{insert-IsRegistry}

Elem-kept :
    (i j : Text) (o : Option ProviderInfo) (pmap : ProviderMap)
    → Elem j (keys (kept i o pmap))
    → (j ≡ i) ⊎ Elem j (keys pmap)
Elem-kept i j none pmap m = inr m
Elem-kept i j (some p) pmap m = m

kept-Distinct :
    (i : Text) (o : Option ProviderInfo) (pmap : ProviderMap)
    → ¬ Elem i (keys pmap)
    → Distinct (keys pmap)
    → Distinct (keys (kept i o pmap))
kept-Distinct i none pmap new d = d
kept-Distinct i (some p) pmap new d = (new, d)

module _ {A : Type 0} (fn : Visit A) where
  Elem-walk_provider_map :
      (n j : Text) (pmap after : ProviderMap) (found : List A)
      → walk_provider_map fn n pmap ≡ some (after, found)
      → Elem j (keys after)
      → Elem j (keys pmap)
  unfolding walk_provider_map
  Elem-walk_provider_map n j [] after found h m =
      subst (λ l. Elem j (keys l)) (sym (ap (λ p. p.0) (some_inj h))) m
  Elem-walk_provider_map n j ((i, p) ∷ pmap) after found h m =
      let ((o, f), e, h') =
        >>=-eq-some (fn n i p)
          (λ r. walk_provider_map fn n pmap >>= λ q. some (kept i r.0 q.0, r.1 ++ q.1)) h in
      let ((rest, g), e', h'') =
        >>=-eq-some (walk_provider_map fn n pmap) (λ q. some (kept i o q.0, f ++ q.1)) h' in
      elim (Elem-kept i j o rest
        (subst (λ l. Elem j (keys l)) (sym (ap (λ p. p.0) (some_inj h''))) m)) [
          | inl q ↦ inl q
          | inr z ↦ inr (Elem-walk_provider_map n j pmap rest g e' z)
        ]

  walk_provider_map-Distinct :
      (n : Text) (pmap after : ProviderMap) (found : List A)
      → walk_provider_map fn n pmap ≡ some (after, found)
      → Distinct (keys pmap)
      → Distinct (keys after)
  unfolding walk_provider_map
  walk_provider_map-Distinct n [] after found h d =
      subst (λ l. Distinct (keys l)) (ap (λ p. p.0) (some_inj h)) tt
  walk_provider_map-Distinct n ((i, p) ∷ pmap) after found h d =
      let ((o, f), e, h') =
        >>=-eq-some (fn n i p)
          (λ r. walk_provider_map fn n pmap >>= λ q. some (kept i r.0 q.0, r.1 ++ q.1)) h in
      let ((rest, g), e', h'') =
        >>=-eq-some (walk_provider_map fn n pmap) (λ q. some (kept i o q.0, f ++ q.1)) h' in
      subst (λ l. Distinct (keys l)) (ap (λ p. p.0) (some_inj h''))
        (kept-Distinct i o rest (λ z. d.0 (Elem-walk_provider_map n i pmap rest g e' z))
          (walk_provider_map-Distinct n pmap rest g e' d.1))

  -- The map of one name after a walk over the names that a pattern stands for.
  abbrev visited : Text → Text → ProviderMap → Option (ProviderMap × List A)
  visited name n pmap =
      if wildcard_match name n then walk_provider_map fn n pmap else some (pmap, [])

  visited-Distinct :
      (name n : Text) (pmap after : ProviderMap) (found : List A)
      → visited name n pmap ≡ some (after, found)
      → Distinct (keys pmap)
      → Distinct (keys after)
  visited-Distinct name n pmap after found h d = elim (Bool-cases (wildcard_match name n)) [
    | inl t ↦ walk_provider_map-Distinct n pmap after found (rw t at h) d
    | inr f ↦ subst (λ l. Distinct (keys l)) (ap (λ p. p.0) (some_inj (rw f at h))) d
  ]

  walk_matching-keys :
      (name : Text) (m after : ServiceMap) (found : List A)
      → walk_matching fn name m ≡ some (after, found)
      → All (λ e. Distinct (keys e.1)) m
      → (keys after ≡ keys m) × All (λ e. Distinct (keys e.1)) after
  unfolding walk_matching
  walk_matching-keys name [] after found h d =
      let q = ap (λ p. p.0) (some_inj h) in
      (ap keys (sym q), subst (All (λ e. Distinct (keys e.1))) q tt)
  walk_matching-keys name ((n, pmap) ∷ m) after found h d =
      let ((a, f), e, h') =
        >>=-eq-some (visited name n pmap)
          (λ r. walk_matching fn name m >>= λ q. some ((n, r.0) ∷ q.0, r.1 ++ q.1)) h in
      let ((rest, g), e', h'') =
        >>=-eq-some (walk_matching fn name m) (λ q. some ((n, a) ∷ q.0, f ++ q.1)) h' in
      let (same, ds) = walk_matching-keys name m rest g e' d.1 in
      let q = ap (λ p. p.0) (some_inj h'') in
      (
        ap keys (sym q) ∙ ap (λ l. n ∷ l) same,
        subst (All (λ e. Distinct (keys e.1))) q (visited-Distinct name n pmap a f e d.0, ds),
      )

  -- A walk over the providers keeps the invariant of the registry, whatever its function removes.
  pub walk_providers-IsRegistry :
      (name : Text) (m after : ServiceMap) (found : List A)
      → walk_providers fn name m ≡ some (after, found)
      → IsRegistry m
      → IsRegistry after
  unfolding walk_providers
  walk_providers-IsRegistry name m after found h r = elim (Bool-cases (has_byte star name)) [
    | inl t ↦
        let (same, ds) = walk_matching-keys name m after found (rw t at h) r.providers in
        record {
          services = subst Distinct (sym same) r.services;
          providers = ds;
          names = λ n z. r.names n (subst (Elem n) same z);
        }
    | inr f ↦ elim (Option-cases (lookup name m)) [
      | inl e ↦ subst IsRegistry (ap (λ p. p.0) (some_inj (rw (f, e) at h))) r
      | inr (pmap, e) ↦
          let ((a, g), e', h') =
            >>=-eq-some (walk_provider_map fn name pmap) (λ r. some (insert name r.0 m, r.1))
              (rw (f, e) at h) in
          let d =
            walk_provider_map-Distinct name pmap a g e'
              (All-Elem _ m (name, pmap) r.providers (lookup→elem name pmap m e)) in
          subst IsRegistry (ap (λ p. p.0) (some_inj h'))
            (insert-IsRegistry name a m (r.names name ((Elem-keys name m).1 (pmap, e))) d r)
    ]
  ]
