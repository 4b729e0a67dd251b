-- ===== src/LanRegistry/Cache.antt =====
-- The cache of queryServiceInLAN, with the queries that wait at the same time: how many answers it
-- holds, and where the returned ones come from.
use adaptiveservice.Prelude.{
  ℕ, suc, ◌+◌, ltb, ◌≡◌, refl, sym, subst, ◌<◌, ◌≤◌, ◌⊎◌, inl, inr, none, some, List, [], ◌∷◌, Text,
  text_key, Option, text_eq, text_eq_iff, ap, Elem, if◌then◌else◌, ◌∙◌, lookup, insert,
  lookup-insert, length, arith, Option-cases, Bool-cases,
}
use adaptiveservice.Names.{ServiceInfo, to_publisher_service_name}
use adaptiveservice.LanRegistry.LanQuery.{
  QueryCache, QueryStep, begin_step, end_step, begin_query, end_query, stop_waiting, query_step,
  query_steps, ServiceInfoTime, InfoCache, kept_for, trim_cache, cached_infos,
}

length-insert-le :
    (k : Text) (v : ServiceInfoTime) (m : InfoCache) → length (insert k v m) ≤ suc (length m)
unfolding insert
length-insert-le k v [] = omega arith
length-insert-le k v ((j, w) ∷ m) = ground (arith, length-insert-le k v m)

length-trim_cache : (cache : InfoCache) → length (trim_cache cache) ≤ 1000
unfolding trim_cache
length-trim_cache cache = ground arith

lookup-trim_cache :
    (name : Text) (cache : InfoCache) (sit : ServiceInfoTime)
    → lookup name (trim_cache cache) ≡ some sit
    → lookup name cache ≡ some sit
unfolding trim_cache lookup
lookup-trim_cache name cache sit h = elim (Bool-cases (ltb 1000 (length cache))) [
  | inl full ↦ cc (rw full at h)
  | inr room ↦ rw room at h
]

cached_infos-some :
    (now : ℕ) (name : Text) (cache : InfoCache) (si : List ServiceInfo)
    → cached_infos now name cache ≡ some si
    → (sit : ServiceInfoTime) × (lookup name cache ≡ some sit)
      × (now < sit.time_stamp + kept_for)
      × (si ≡ sit.si)
unfolding cached_infos
cached_infos-some now name cache si h = elim (Option-cases (lookup name cache)) [
  | inl e ↦ ground arith
  | inr (sit, e) ↦ (sit, e, ground arith, ground arith)
]

-- The most queries that waited at once.
unfoldable pub most_waiting : List QueryStep → ℕ
unfolding query_steps
most_waiting [] = 0
most_waiting (e ∷ es) =
    let rest = most_waiting es in
    let now : ℕ = elim (query_steps (e ∷ es)) [ none ↦ 0 | some q ↦ length q.waiting ] in
    if ltb rest now then now else rest

length-stop_waiting :
    (name : Text) (l l' : List Text) → stop_waiting name l ≡ some l' → suc (length l') ≡ length l
unfolding stop_waiting
length-stop_waiting name [] l' h = cc h
length-stop_waiting name (x ∷ l) l' h = elim (Bool-cases (text_eq name x)) [
  | inl t ↦ (let e : some l ≡ some l' = rw t at h in cc e)
  | inr f ↦ elim (Option-cases (stop_waiting name l)) [
    | inl n ↦ cc (rw (f, n) at h)
    | inr (left, e) ↦
        (let shorter = length-stop_waiting name l left e in
          let same : some (x ∷ left) ≡ some l' = rw (f, e) at h in cc (same, shorter))
  ]
]

-- A step of a query leaves a small cache, or puts an answer where a query waited.
step-room :
    (e : QueryStep) (q q' : QueryCache)
    → query_step e q ≡ some q'
    → (length q'.cache ≤ 1000)
      ⊎ (length q'.cache + length q'.waiting ≤ length q.cache + length q.waiting)
unfolding query_step begin_query end_query
step-room (begin_step now publisher service) q q' h =
    let name = to_publisher_service_name publisher service in
    inl (elim (Option-cases (cached_infos now name (trim_cache q.cache))) [
      | inl n ↦ ground (arith, length-trim_cache q.cache)
      | inr (si, y) ↦ ground (arith, length-trim_cache q.cache)
    ])
step-room (end_step time publisher service answer) q q' h =
    let name = to_publisher_service_name publisher service in
    elim (Option-cases (stop_waiting name q.waiting)) [
      | inl n ↦ ground (arith, n)
      | inr (names, y) ↦ inr (
          ground (
            arith,
            length-stop_waiting name q.waiting names y,
            length-insert-le name (record { time_stamp = time; si = answer }) q.cache,
          ))
    ]

step-most :
    (e : QueryStep) (es : List QueryStep) (q : QueryCache)
    → query_steps (e ∷ es) ≡ some q
    → (length q.waiting ≤ most_waiting (e ∷ es)) × (most_waiting es ≤ most_waiting (e ∷ es))
unfolding most_waiting
step-most e es q h = rw h (ground arith)

abbrev empty_cache : QueryCache
empty_cache = record { cache = []; waiting = [] }

-- The cache has room for the queries that wait.
abbrev Fits : List QueryStep → QueryCache → Type 0
Fits es q =
    (length q.waiting ≤ most_waiting es)
    × (length q.cache + length q.waiting ≤ 1000 + most_waiting es)

-- Every kept answer is that of a query that has ended.
abbrev Kept : List QueryStep → QueryCache → Type 0
Kept es q =
    (name : Text) (sit : ServiceInfoTime)
    → lookup name q.cache ≡ some sit
    → (publisher : Text) × (service : Text) × (to_publisher_service_name publisher service ≡ name)
      × Elem (end_step sit.time_stamp publisher service sit.si) es

steps-Fits : (es : List QueryStep) (q : QueryCache) → query_steps es ≡ some q → Fits es q
unfolding query_steps
steps-Fits [] q h = let e : empty_cache ≡ q = cc h in subst (Fits []) e (omega arith, omega arith)
steps-Fits (e ∷ es) q' h = elim (Option-cases (query_steps es)) [
  | inl n ↦ cc (rw n at h)
  | inr (q, y) ↦
      (let (wait, fit) = steps-Fits es q y in
        let room = step-room e q q' (rw y at h) in
        let (now, before) = step-most e es q' h in
        (now, elim room [ inl small ↦ omega arith | inr moved ↦ omega arith ]))
]

begin-cache :
    (now : ℕ) (publisher service : Text) (q : QueryCache)
    → (begin_query now publisher service q).1.cache ≡ trim_cache q.cache
unfolding begin_query
begin-cache now publisher service q =
    elim (Option-cases
      (cached_infos now (to_publisher_service_name publisher service) (trim_cache q.cache))) [
        | inl n ↦ rw (begin_query, n) refl
        | inr (si, y) ↦ rw (begin_query, y) refl
      ]

-- What a query that ends leaves.
end-cache :
    (time : ℕ) (publisher service : Text) (answer : List ServiceInfo) (q q' : QueryCache)
    → query_step (end_step time publisher service answer) q ≡ some q'
    → q'.cache
      ≡ insert
          (to_publisher_service_name publisher service)
          (record { time_stamp = time; si = answer })
          q.cache
unfolding query_step end_query
end-cache time publisher service answer q q' h =
    elim (Option-cases (stop_waiting (to_publisher_service_name publisher service) q.waiting)) [
      | inl n ↦ ground (arith, n)
      | inr (names, y) ↦ ground (arith, y)
    ]

step-Kept :
    (e : QueryStep) (es : List QueryStep) (q q' : QueryCache)
    → query_step e q ≡ some q'
    → Kept es q
    → Kept (e ∷ es) q'
unfolding query_step
step-Kept (begin_step now publisher service) es q q' h kept name sit found =
    let here : q'.cache ≡ trim_cache q.cache =
      (let at : (begin_query now publisher service q).1 ≡ q' = cc h in
        ap (λ (o : QueryCache). o.cache) (sym at) ∙ begin-cache now publisher service q) in
    let (pub_, svc, same, z) =
      kept name sit
        (lookup-trim_cache name q.cache sit (subst (λ m. lookup name m ≡ some sit) here found)) in
    (pub_, svc, same, inr z)
step-Kept (end_step time publisher service answer) es q q' h kept name sit found =
    let k = to_publisher_service_name publisher service in
    let v : ServiceInfoTime = record { time_stamp = time; si = answer } in
    let old =
      subst (λ m. lookup name m ≡ some sit) (end-cache time publisher service answer q q' h)
        found in
    let split : (if text_eq k name then some v else lookup name q.cache) ≡ some sit =
      sym (lookup-insert k name v q.cache) ∙ old in
    elim (Bool-cases (text_eq k name)) [
      | inl t ↦
          let same : v ≡ sit = (let e : some v ≡ some sit = rw t at split in cc e) in
          (
            publisher,
            service,
            (text_eq_iff k name).0 t,
            inl (
                ap (λ (u : ServiceInfoTime). end_step u.time_stamp publisher service u.si)
                  (sym same)),
          )
      | inr f ↦ let (pub_, svc, eq, z) = kept name sit (rw f at split) in (pub_, svc, eq, inr z)
    ]

steps-Kept : (es : List QueryStep) (q : QueryCache) → query_steps es ≡ some q → Kept es q
unfolding query_steps lookup
steps-Kept [] q h = let e : empty_cache ≡ q = cc h in subst (Kept []) e (λ name sit f. cc f)
steps-Kept (e ∷ es) q' h = elim (Option-cases (query_steps es)) [
  | inl n ↦ cc (rw n at h)
  | inr (q, y) ↦ step-Kept e es q q' (rw y at h) (steps-Kept es q y)
]

-- Where the answer of a query that begins comes from: an answer of the registry to a query of the
-- same name, which it got less than 15 seconds before; or there is none and the query waits.
abbrev pub Answered :
    List QueryStep → ℕ → (name : Text) → Option (List ServiceInfo) × QueryCache → Type 0
Answered es now name (none, q) = Elem name q.waiting
Answered es now name (some si, q) =
    (time : ℕ) × (publisher : Text) × (service : Text) × (to_publisher_service_name publisher
        service
      ≡ name)
    × Elem (end_step time publisher service si) es
    × (now < time + kept_for)

-- However the two parts of the queries interleave, from an empty cache on, the answers in the cache
-- and the queries that wait are together at most a thousand and the number of the queries that waited
-- at once when most did. A query that begins then
-- returns from the cache the answer that an ended query of the same name got less than 15 seconds
-- before, or it waits.
pub query_service_in_lan_lem :
    (es : List QueryStep) (q : QueryCache) (now : ℕ) (publisher service : Text)
    → query_steps es ≡ some q
    → (length q.cache + length q.waiting ≤ 1000 + most_waiting es)
      × Answered es now
          (to_publisher_service_name publisher service)
          (begin_query now publisher service q)
unfolding begin_query
query_service_in_lan_lem es q now publisher service h =
    let name = to_publisher_service_name publisher service in
    let (wait, fit) = steps-Fits es q h in
    (
      fit,
      elim (Option-cases (cached_infos now name (trim_cache q.cache))) [
        | inl n ↦ rw (begin_query, n) (inl refl)
        | inr (si, y) ↦
            (let (sit, found, recent, same) =
                cached_infos-some now name (trim_cache q.cache) si y in
              let (pub_, svc, eq, z) =
                steps-Kept es q h name sit (lookup-trim_cache name q.cache sit found) in
              rw (begin_query, y)
                (
                  sit.time_stamp,
                  pub_,
                  svc,
                  eq,
                  subst (λ l. Elem (end_step sit.time_stamp pub_ svc l) es) (sym same) z,
                  recent,
                ))
      ],
    )
