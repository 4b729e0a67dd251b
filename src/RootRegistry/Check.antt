-- ===== src/RootRegistry/Check.antt =====
-- What a query of the root registry lists, and what a round of registryCheckSaver keeps.
use adaptiveservice.Prelude.{
  ℕ, ◌+◌, ltb, ◌≡◌, refl, sym, ap, ◌∙◌, ◌↔◌, inl, inr, Bool, true, false, Option, none, some, List,
  [], ◌∷◌, Text, text_key, keys, codes, Elem, Distinct, All, if◌then◌else◌, ◌>>=◌, >>=-eq-some,
  arith, Option-cases,
}
use adaptiveservice.Wildcard.{wildcard_match}
use adaptiveservice.Wildcard.Glob.{Glob}
use adaptiveservice.Wildcard.Correct.{wildcard_match-Glob, star_matches}
use adaptiveservice.Names.{ServiceInfo, to_publisher_service_name, from_publisher_service_name}
use adaptiveservice.RootRegistry.{
  ProviderInfo, ServiceMap, make_service_info, listed_visit, query_service_in_wan, stale_after,
  Pings, Times, check_visit, registry_check,
}
use adaptiveservice.RootRegistry.Provider.{provider}
use adaptiveservice.RootRegistry.Walk.{Walked, walk_providers-Walked}

-- The maps of the registry hold no key twice, and every name is that of a publisher and a service.
pub record IsRegistry (m : ServiceMap) : Type 0 where
  pub services : Distinct (keys m)
  pub providers : All (λ e. Distinct (keys e.1)) m
  pub names :
      (n : Text)
      → Elem n (keys m)
      → (p : Text) × (s : Text) × (from_publisher_service_name n ≡ some (p, s))

abbrev to_list : Option ServiceInfo → List ServiceInfo
to_list none = []
to_list (some info) = info ∷ []

Elem-to_list :
    (info : ServiceInfo) (o : Option ServiceInfo) → Elem info (to_list o) ↔ (o ≡ some info)
Elem-to_list info none = (λ h. absurd h, λ e. cc)
Elem-to_list info (some i) = (elim [ inl e ↦ ap some (sym e) | inr z ↦ absurd z ], λ e. inl (cc))

pub make_service_info-total :
    (n j : Text) (p : ProviderInfo) {names : Text × Text}
    → from_publisher_service_name n ≡ some names
    → (info : ServiceInfo) × (make_service_info n j p ≡ some info)
unfolding make_service_info
make_service_info-total n j p {names} e = elim (Option-cases (make_service_info n j p)) [
  | inl f ↦ ground arith
  | inr found ↦ found
]

abbrev listing : Text → Text → ProviderInfo → List ServiceInfo
listing n j p = to_list (make_service_info n j p)

listed_visit_lem :
    (n j : Text) (p : ProviderInfo) {names : Text × Text}
    → from_publisher_service_name n ≡ some names
    → listed_visit n j p ≡ some (some p, listing n j p)
unfolding listed_visit
listed_visit_lem n j p e = let (info, f) = make_service_info-total n j p e in rw f refl

fate_keep : (b : Bool) (o : Option ProviderInfo) → (o >>= λ p. if b then some p else some p) ≡ o
fate_keep b none = refl
fate_keep true (some p) = refl
fate_keep false (some p) = refl

fate_act :
    (b : Bool) (f : ProviderInfo → Option ProviderInfo) (o : Option ProviderInfo)
    → b ≡ true
    → (o >>= λ p. if b then f p else some p) ≡ (o >>= f)
fate_act b f none h = refl
fate_act b f (some p) h = rw h refl

-- A query of the root registry changes nothing and lists exactly the information of the providers
-- whose service's name the wanted name, a pattern, stands for.
pub query_service_in_wan_lem :
    (publisher service : Text) (m : ServiceMap)
    → IsRegistry m
    → (after : ServiceMap) × (infos : List ServiceInfo) × (query_service_in_wan publisher service m
        ≡ some (after, infos))
      × ((n j : Text) → provider after n j ≡ provider m n j)
      × ((info : ServiceInfo)
          → Elem info infos ↔ (
              (n : Text) × (j : Text) × (p : ProviderInfo) × (provider m n j ≡ some p)
              × Glob (to_publisher_service_name publisher service) n
              × (make_service_info n j p ≡ some info)))
unfolding query_service_in_wan Walked
query_service_in_wan_lem publisher service m r =
    let name : Text = to_publisher_service_name publisher service in
    let (after, infos, e, (f, g)) =
      walk_providers-Walked (λ n j. some) listing listed_visit name m r.services r.providers
        (λ n h j p. listed_visit_lem n j p (r.names n h).2) in
    (
      after,
      infos,
      e,
      (λ n j. f n j ∙ fate_keep (wildcard_match name n) (provider m n j)),
      λ info. (
        λ h.
            let (n, j, p, q, w, o) = (g info).0 h in
            (
              n,
              j,
              p,
              q,
              (wildcard_match-Glob name n).0 w,
              (Elem-to_list info (make_service_info n j p)).0 o,
            ),
        λ (n, j, p, q, w, o). (g info).1 (
          n,
          j,
          p,
          q,
          (wildcard_match-Glob name n).1 w,
          (Elem-to_list info (make_service_info n j p)).1 o,
        ),
      ),
    )

-- What a round makes of one provider: refreshed if it answers, removed if it does not and was last
-- seen more than stale_after ago.
abbrev pub survivor : (Text → Bool) → ℕ → ProviderInfo → Option ProviderInfo
survivor ping t p =
    if ping p.addr
    then some (record p { time_stamp = t })
    else if ltb (p.time_stamp + stale_after) t
    then none
    else some p

abbrev listing_of : Text → Text → Option ProviderInfo → List ServiceInfo
listing_of n j none = []
listing_of n j (some p) = listing n j p

check_visit_lem :
    (ping : Pings) (t : Times) (n j : Text) (p : ProviderInfo) {names : Text × Text}
    → from_publisher_service_name n ≡ some names
    → check_visit ping t n j p
      ≡ some (survivor (ping n j) (t n j) p, listing_of n j (survivor (ping n j) (t n j) p))
unfolding check_visit
check_visit_lem ping t n j p e =
    ground
      (arith, listed_visit_lem n j p e, listed_visit_lem n j (record p { time_stamp = t n j }) e)

every_name : (n : Text) → wildcard_match (codes "*") n ≡ true
every_name n = (wildcard_match-Glob (codes "*") n).1 (star_matches n)

Elem-listing_of :
    (n j : Text) (info : ServiceInfo) (o : Option ProviderInfo)
    → Elem info (listing_of n j o)
      ↔ ((q : ProviderInfo) × (o ≡ some q) × (make_service_info n j q ≡ some info))
Elem-listing_of n j info none = (λ h. absurd h, λ h. cc h.1)
Elem-listing_of n j info (some p) = (
  λ h. (p, refl, (Elem-to_list info (make_service_info n j p)).0 h),
  λ (q, e, f). (Elem-to_list info (make_service_info n j p)).1 (cc),
)

-- A round of registryCheckSaver removes exactly the providers that do not answer and were last
-- seen more than five minutes before their visit, marks those that answer as seen then, leaves the others, and
-- lists exactly the information of those that stay.
pub registry_check_lem :
    (ping : Pings) (t : Times) (m : ServiceMap)
    → IsRegistry m
    → (after : ServiceMap) × (infos : List ServiceInfo) × (registry_check ping t m
        ≡ some (after, infos))
      × ((n j : Text) → provider after n j ≡ (provider m n j >>= survivor (ping n j) (t n j)))
      × ((info : ServiceInfo)
          → Elem info infos ↔ (
              (n : Text) × (j : Text) × (p : ProviderInfo) × (provider after n j ≡ some p)
              × (make_service_info n j p ≡ some info)))
unfolding registry_check Walked
registry_check_lem ping t m r =
    let act = λ (n j : Text). survivor (ping n j) (t n j) in
    let out = λ (n j : Text) (p : ProviderInfo). listing_of n j (survivor (ping n j) (t n j) p) in
    let (after, infos, e, (f, g)) =
      walk_providers-Walked act out (check_visit ping t) (codes "*") m r.services r.providers
        (λ n h j p. check_visit_lem ping t n j p (r.names n h).2) in
    let h : (n j : Text) → provider after n j ≡ (provider m n j >>= survivor (ping n j) (t n j)) =
      λ n j.
        f n j
        ∙ fate_act (wildcard_match (codes "*") n) (survivor (ping n j) (t n j)) (provider m n j)
            (every_name n) in
    (
      after,
      infos,
      e,
      h,
      λ info. (
        λ k.
            let (n, j, p, q, w, o) = (g info).0 k in
            let (s, u, v) = (Elem-listing_of n j info (survivor (ping n j) (t n j) p)).0 o in
            (n, j, s, h n j ∙ (rw q u), v),
        λ (n, j, s, u, v).
            let (p, q, w) =
              >>=-eq-some (provider m n j) (survivor (ping n j) (t n j)) (sym (h n j) ∙ u) in
            (g info).1 (
              n,
              j,
              p,
              q,
              every_name n,
              (Elem-listing_of n j info (survivor (ping n j) (t n j) p)).1 (s, w, v),
            ),
      ),
    )
