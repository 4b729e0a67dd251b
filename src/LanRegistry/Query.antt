-- ===== src/LanRegistry/Query.antt =====
-- What a query in the local network lists.
use adaptiveservice.Prelude.{
  ℕ, ◌+◌, ltb, ◌≡◌, refl, sym, ap, ◌∙◌, ◌↔◌, inl, inr, Bool, true, false, Option, none, some, List,
  [], ◌∷◌, Text, text_key, keys, Elem, lookup, if◌then◌else◌, ◌>>=◌, arith, Option-cases,
  Bool-cases, has_byte, Elem-keys,
}
use adaptiveservice.Wildcard.{star, wildcard_match}
use adaptiveservice.Wildcard.Glob.{Glob}
use adaptiveservice.Wildcard.Correct.{wildcard_match-Glob}
use adaptiveservice.Names.{ServiceInfo, from_publisher_service_name}
use adaptiveservice.RootRegistry.{
  ProviderInfo, ProviderMap, ServiceMap, Visit, walk_provider_map, walk_matching, walk_providers,
  stale_after,
}
use adaptiveservice.RootRegistry.Provider.{provider}
use adaptiveservice.RootRegistry.Walk.{Walked, walk_providers-Walked}
use adaptiveservice.RootRegistry.Check.{IsRegistry}
use adaptiveservice.LanRegistry.{lan_visit, lan_walk, lan_walk_matching, get_service_infos}

-- A provider that was heard of in the last five minutes.
abbrev pub fresh : ℕ → ProviderInfo → Bool
fresh t p = if ltb (p.time_stamp + stale_after) t then false else true

abbrev pub info_of : Text × Text → Text → ProviderInfo → ServiceInfo
info_of names p_id p = record {
  publisher = names.0;
  service = names.1;
  provider_id = p_id;
  addr = p.addr;
}

-- The same walk as a function for walk_providers, which reads the name at each provider.
abbrev pub visit : ℕ → Visit ServiceInfo
visit t name p_id p = from_publisher_service_name name >>= λ names. lan_visit t names name p_id p

abbrev act : ℕ → Text → Text → ProviderInfo → Option ProviderInfo
act t n j p = if fresh t p then some p else none

abbrev out_of : ℕ → Option (Text × Text) → Text → ProviderInfo → List ServiceInfo
out_of t none j p = []
out_of t (some names) j p = if fresh t p then info_of names j p ∷ [] else []

abbrev out : ℕ → Text → Text → ProviderInfo → List ServiceInfo
out t n j p = out_of t (from_publisher_service_name n) j p

visit_lem :
    (t : ℕ) (n j : Text) (p : ProviderInfo) (names : Text × Text)
    → from_publisher_service_name n ≡ some names
    → visit t n j p ≡ some (act t n j p, out t n j p)
unfolding lan_visit
visit_lem t n j p names e = elim (Bool-cases (ltb (p.time_stamp + stale_after) t)) [
  | inl h ↦ rw (e, h) refl
  | inr h ↦ rw (e, h) refl
]

walk_provider_map-visit :
    (t : ℕ) (n : Text) (prvds : ProviderMap) (names : Text × Text)
    → from_publisher_service_name n ≡ some names
    → walk_provider_map (lan_visit t names) n prvds ≡ walk_provider_map (visit t) n prvds
unfolding walk_provider_map
walk_provider_map-visit t n [] names e = refl
walk_provider_map-visit t n ((j, p) ∷ prvds) names e =
    rw (e, walk_provider_map-visit t n prvds names e) refl

lan_walk-walk_provider_map :
    (t : ℕ) (n : Text) (prvds : ProviderMap) (names : Text × Text)
    → from_publisher_service_name n ≡ some names
    → lan_walk t n prvds ≡ walk_provider_map (visit t) n prvds
unfolding lan_walk
lan_walk-walk_provider_map t n prvds names e =
    ap (λ o. o >>= λ names. walk_provider_map (lan_visit t names) n prvds) e
    ∙ walk_provider_map-visit t n prvds names e

lan_walk_matching-walk_matching :
    (t : ℕ) (name : Text) (cache : ServiceMap)
    → ((n : Text)
        → Elem n (keys cache)
        → (p : Text) × (s : Text) × (from_publisher_service_name n ≡ some (p, s)))
    → lan_walk_matching t name cache ≡ walk_matching (visit t) name cache
unfolding lan_walk_matching walk_matching
lan_walk_matching-walk_matching t name [] named = refl
lan_walk_matching-walk_matching t name ((n, prvds) ∷ cache) named =
    let (p, s, e) = named n (inl refl) in
    rw
      (
        lan_walk-walk_provider_map t n prvds (p, s) e,
        lan_walk_matching-walk_matching t name cache (λ k z. named k (inr z)),
      )
      refl

pub get_service_infos-walk_providers :
    (t : ℕ) (name : Text) (cache : ServiceMap)
    → IsRegistry cache
    → get_service_infos t name cache ≡ walk_providers (visit t) name cache
unfolding get_service_infos walk_providers
get_service_infos-walk_providers t name cache r = elim (Bool-cases (has_byte star name)) [
  | inl w ↦ rw w (lan_walk_matching-walk_matching t name cache r.names)
  | inr w ↦ elim (Option-cases (lookup name cache)) [
    | inl h ↦ rw (w, h) refl
    | inr (prvds, h) ↦
        let (p, s, e) = r.names name ((Elem-keys name cache).1 (prvds, h)) in
        rw (w, h, lan_walk-walk_provider_map t name prvds (p, s) e) refl
  ]
]

-- What a query leaves of the provider of a service.
abbrev pub remains : ℕ → Text → Text → ProviderInfo → Option ProviderInfo
remains t name n p = if wildcard_match name n then (if fresh t p then some p else none) else some p

Elem-out_of :
    (t : ℕ) (o : Option (Text × Text)) (j : Text) (p : ProviderInfo) (info : ServiceInfo)
    → Elem info (out_of t o j p)
      ↔ ((names : Text × Text) × (o ≡ some names) × (fresh t p ≡ true) × (info ≡ info_of names j p))
Elem-out_of t none j p info = (λ h. absurd h, λ h. cc h.1)
Elem-out_of t (some names) j p info = elim (Bool-cases (fresh t p)) [
  | inl f ↦ rw f (
    elim [ inl e ↦ (names, refl, refl, e) | inr z ↦ absurd z ],
    λ (names', e, _, i). inl (i ∙ ap (λ ns. info_of ns j p) (sym (ground arith))),
  )
  | inr f ↦ rw f (λ z. absurd z, λ h. cc h.2)
]

-- getServiceInfos does not panic if every name of the cache is that of a publisher and a service. It
-- answers with exactly the providers that were heard of in the last five minutes, of the services whose names
-- the wanted name, a pattern, stands for; it forgets the other providers of these services, and
-- leaves all other services as they were.
pub get_service_infos_lem :
    (t : ℕ) (name : Text) (cache : ServiceMap)
    → IsRegistry cache
    → (after : ServiceMap) × (infos : List ServiceInfo) × (get_service_infos t name cache
        ≡ some (after, infos))
      × ((n j : Text) → provider after n j ≡ (provider cache n j >>= remains t name n))
      × ((info : ServiceInfo)
          → Elem info infos ↔ (
              (n : Text) × (j : Text) × (p : ProviderInfo) × (provider cache n j ≡ some p)
              × Glob name n
              × ((names : Text × Text) × (from_publisher_service_name n ≡ some names)
                  × (fresh t p ≡ true)
                  × (info ≡ info_of names j p))))
unfolding Walked
get_service_infos_lem t name cache r =
    let (after, infos, e, (f, g)) =
      walk_providers-Walked (act t) (out t) (visit t) name cache r.services r.providers
        (λ n h j p. let (a, b, q) = r.names n h in visit_lem t n j p (a, b) q) in
    (
      after,
      infos,
      get_service_infos-walk_providers t name cache r ∙ e,
      f,
      λ info. (
        λ h.
            let (n, j, p, q, w, o) = (g info).0 h in
            (
              n,
              j,
              p,
              q,
              (wildcard_match-Glob name n).0 w,
              (Elem-out_of t (from_publisher_service_name n) j p info).0 o,
            ),
        λ (n, j, p, q, w, o). (g info).1 (
          n,
          j,
          p,
          q,
          (wildcard_match-Glob name n).1 w,
          (Elem-out_of t (from_publisher_service_name n) j p info).1 o,
        ),
      ),
    )
