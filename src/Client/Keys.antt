-- ===== src/Client/Keys.antt =====
-- The keys of the services that a turn of Discover connects to.
use adaptiveservice.Prelude.{
  ◌≡◌, ◌⊎◌, refl, subst, inl, inr, true, List, [], ◌∷◌, ◌++◌, Text, text_eq, text_eq_iff, Elem,
  Elem-append, Distinct, map, Bool-cases, Option-cases,
}
use adaptiveservice.Names.{ServiceInfo}
use adaptiveservice.Client.{Discovery, Round, has_key, network_key}
use adaptiveservice.Client.Spec.{
  fresh_by, seen_by, key_of, os_candidates, lan_services, wan_services, seen_after_lan, all_keys,
}

has_key-Elem : (k : Text) (l : List Text) → has_key k l ≡ true → Elem k l
unfolding has_key
has_key-Elem k [] h = cc h
has_key-Elem k (x ∷ l) h = elim (Bool-cases (text_eq k x)) [
  | inl t ↦ inl ((text_eq_iff k x).0 t)
  | inr f ↦ inr (has_key-Elem k l (rw f at h))
]

Elem-has_key : (k : Text) (l : List Text) → Elem k l → has_key k l ≡ true
unfolding has_key
Elem-has_key k [] z = absurd z
Elem-has_key k (x ∷ l) (inl e) = rw ((text_eq_iff k x).1 e) refl
Elem-has_key k (x ∷ l) (inr z) = elim (Bool-cases (text_eq k x)) [
  | inl t ↦ rw t refl
  | inr f ↦ rw f (Elem-has_key k l z)
]

-- The keys are new and distinct.
abbrev pub Fresh : List Text → List Text → Type 0
Fresh seen keys = Distinct keys × ((k : Text) → Elem k keys → ¬ Elem k seen)

Fresh-append :
    (seen mid xs ys : List Text)
    → Fresh seen xs
    → Fresh mid ys
    → ((k : Text) → Elem k seen ⊎ Elem k xs → Elem k mid)
    → Fresh seen (xs ++ ys)
Fresh-append seen mid [] ys x (d, n) sub = (d, λ k z s. n k z (sub k (inl s)))
Fresh-append seen mid (x ∷ xs) ys ((nx, dx), n) (d, m) sub =
    let (dr, nr) =
      Fresh-append seen mid xs ys (dx, λ k z. n k (inr z)) (d, m)
        (λ k. elim [ inl s ↦ sub k (inl s) | inr z ↦ sub k (inr (inr z)) ]) in
    (
      (
        λ z. elim ((Elem-append x xs ys).0 z) [
          | inl y ↦ nx y
          | inr y ↦ m x y (sub x (inr (inl refl)))
        ],
        dr,
      ),
      λ k. elim [ inl e ↦ n k (inl e) | inr z ↦ nr k z ],
    )

module _ {A : Type 0} (key : A → Text) where
  fresh_by-Fresh : (seen : List Text) (xs : List A) → Fresh seen (map key (fresh_by key seen xs))
  unfolding fresh_by
  fresh_by-Fresh seen [] = (tt, λ k z. absurd z)
  fresh_by-Fresh seen (x ∷ xs) = elim (Bool-cases (has_key (key x) seen)) [
    | inl old ↦ rw old (fresh_by-Fresh seen xs)
    | inr new ↦ rw new (
        let (d, n) = fresh_by-Fresh (key x ∷ seen) xs in
        (
          ((λ z. n (key x) z (inl refl)), d),
          λ k. elim [
            | inl e ↦ λ s.
                (let t = Elem-has_key (key x) seen (subst (λ j. Elem j seen) e s) in cc (t, new))
            | inr z ↦ λ s. n k z (inr s)
          ],
        ))
  ]

  seen_by-Elem :
      (seen : List Text) (xs : List A) (k : Text)
      → Elem k seen ⊎ Elem k (map key (fresh_by key seen xs))
      → Elem k (seen_by key seen xs)
  unfolding fresh_by seen_by
  seen_by-Elem seen [] k (inl s) = s
  seen_by-Elem seen [] k (inr z) = absurd z
  seen_by-Elem seen (x ∷ xs) k h = elim (Bool-cases (has_key (key x) seen)) [
    | inl old ↦ rw old (seen_by-Elem seen xs k (rw old at h))
    | inr new ↦ rw new (
        seen_by-Elem (key x ∷ seen) xs k (elim (rw new at h) [
          | inl s ↦ inl (inr s)
          | inr (inl e) ↦ inl (inl e)
          | inr (inr z) ↦ inr z
        ]))
  ]

network_by-Fresh :
    (d : Discovery) (seen : List Text) (xs : List ServiceInfo)
    → Fresh seen (map (network_key d) (fresh_by (network_key d) seen xs))
network_by-Fresh d seen xs = fresh_by-Fresh (network_key d) seen xs

nothing-Fresh : (seen : List Text) → Fresh seen []
nothing-Fresh seen = (tt, λ k z. absurd z)

lan_services-Fresh :
    (d : Discovery) (r : Round) (seen : List Text)
    → Fresh seen (map (network_key d) (lan_services d r seen))
unfolding lan_services
lan_services-Fresh d r seen = elim (Bool-cases d.scope_lan) [
  | inl t ↦ rw t (network_by-Fresh d seen r.lan)
  | inr f ↦ rw f (nothing-Fresh seen)
]

seen_after_lan-Elem :
    (d : Discovery) (r : Round) (seen : List Text) (k : Text)
    → Elem k seen ⊎ Elem k (map (network_key d) (lan_services d r seen))
    → Elem k (seen_after_lan d r seen)
unfolding lan_services seen_after_lan
seen_after_lan-Elem d r seen k h = elim (Bool-cases d.scope_lan) [
  | inl t ↦ rw t (seen_by-Elem (network_key d) seen r.lan k (rw t at h))
  | inr f ↦ rw f (elim (rw f at h) [ inl s ↦ s | inr z ↦ absurd z ])
]

wan_services-Fresh :
    (d : Discovery) (r : Round) (seen : List Text)
    → Fresh seen (map (network_key d) (wan_services d r seen))
unfolding wan_services
wan_services-Fresh d r seen = elim (Bool-cases d.scope_wan) [
  | inl t ↦ rw t (elim (Option-cases r.wan) [
    | inl e ↦ rw e (nothing-Fresh seen)
    | inr (sis, e) ↦ rw e (network_by-Fresh d seen sis)
  ])
  | inr f ↦ rw f (nothing-Fresh seen)
]

pub all_keys-Fresh : (d : Discovery) (r : Round) (seen : List Text) → Fresh seen (all_keys d r seen)
unfolding all_keys
all_keys-Fresh d r seen =
    let after = seen_by key_of seen (os_candidates d r) in
    Fresh-append seen after _ _ (fresh_by-Fresh key_of seen (os_candidates d r))
      (Fresh-append after (seen_after_lan d r after) _ _ (lan_services-Fresh d r after)
        (wan_services-Fresh d r (seen_after_lan d r after)) (seen_after_lan-Elem d r after))
      (seen_by-Elem key_of seen (os_candidates d r))
