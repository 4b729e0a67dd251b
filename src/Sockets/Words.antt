-- ===== src/Sockets/Words.antt =====
-- The items that a collecting loop gathers, and what a list of provider IDs stands for.
use adaptiveservice.Prelude.{
  ◌≡◌, refl, sym, ap, ◌∙◌, subst, ◌⊎◌, ◌↔◌, inl, inr, true, Option, some, List, [], ◌∷◌, ◌++◌, Text,
  Elem, Elem-append, some_inj, arith, Bool-cases,
}
use adaptiveservice.Wildcard.{wildcard_match}
use adaptiveservice.Wildcard.Glob.{Glob}
use adaptiveservice.Wildcard.Correct.{wildcard_match-Glob}
use adaptiveservice.Names.{ServiceInfo}
use adaptiveservice.Client.{match_provider}
use adaptiveservice.Sockets.{collect}

-- No ID is asked for, or one that stands for the provider's.
abbrev pub Named : List Text → Text → Type 0
Named ids target = (ids ≡ []) ⊎ ((pid : Text) × Elem pid ids × Glob pid target)

one_of→ :
    (p target : Text) (ids : List Text)
    → match_provider (p ∷ ids) target ≡ true
    → (pid : Text) × Elem pid (p ∷ ids) × Glob pid target
unfolding match_provider
one_of→ p target [] h = (p, inl refl, (wildcard_match-Glob p target).0 h)
one_of→ p target (q ∷ ids) h = elim (Bool-cases (wildcard_match p target)) [
  | inl t ↦ (p, inl refl, (wildcard_match-Glob p target).0 t)
  | inr f ↦ let (pid, z, g) = one_of→ q target ids (rw f at h) in (pid, inr z, g)
]

→one_of :
    (p target pid : Text) (ids : List Text)
    → Elem pid (p ∷ ids)
    → Glob pid target
    → match_provider (p ∷ ids) target ≡ true
unfolding match_provider
→one_of p target pid [] (inl e) g =
    (wildcard_match-Glob p target).1 (subst (λ x. Glob x target) e g)
→one_of p target pid [] (inr z) g = absurd z
→one_of p target pid (q ∷ ids) (inl e) g =
    rw ((wildcard_match-Glob p target).1 (subst (λ x. Glob x target) e g)) refl
→one_of p target pid (q ∷ ids) (inr z) g = ground (arith, →one_of q target pid ids z g)

pub match_provider-Named :
    (ids : List Text) (target : Text) → (match_provider ids target ≡ true) ↔ Named ids target
unfolding match_provider
match_provider-Named [] target = (λ h. inl refl, λ n. refl)
match_provider-Named (p ∷ ids) target = (
  λ h. inr (one_of→ p target ids h),
  elim [ inl e ↦ cc | inr (pid, z, g) ↦ →one_of p target pid ids z g ],
)

-- If f panics at no item, the loop gathers exactly the infos of all items.
pub collect_lem :
    {A : Type 0} (f : A → Option (List ServiceInfo)) (xs : List A)
    → ((x : A) → Elem x xs → (infos : List ServiceInfo) × (f x ≡ some infos))
    → (all : List ServiceInfo) × (collect f xs ≡ some all)
      × ((info : ServiceInfo)
          → Elem info all ↔ (
              (x : A) × Elem x xs
              × ((infos : List ServiceInfo) × (f x ≡ some infos) × Elem info infos)))
unfolding collect
collect_lem f [] total = ([], refl, λ info. (λ z. absurd z, λ h. h.1))
collect_lem f (x ∷ xs) total =
    let (infos, e) = total x (inl refl) in
    let (rest, e', g) = collect_lem f xs (λ y z. total y (inr z)) in
    (
      infos ++ rest,
      rw (e, e') refl,
      λ info.
          let parts = Elem-append info infos rest in
          (
            λ h. elim (parts.0 h) [
              | inl z ↦ (x, inl refl, (infos, e, z))
              | inr z ↦ let (y, m, w) = (g info).0 z in (y, inr m, w)
            ],
            λ (y, m, (l, k, z)). elim m [
              | inl q ↦ parts.1 (inl (subst (Elem info) (some_inj (sym k ∙ ap f q ∙ e)) z))
              | inr n ↦ parts.1 (inr ((g info).1 (y, n, (l, k, z))))
            ],
          ),
    )
