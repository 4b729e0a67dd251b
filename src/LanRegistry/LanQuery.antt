-- ===== src/LanRegistry/LanQuery.antt =====
-- queryServiceInLAN of registry.go with its cache. A query takes the lock twice and waits for its
-- answer in between, while other queries may begin and end. Times are in seconds.
use adaptiveservice.Prelude.{
  ℕ, ◌+◌, ltb, Option, none, some, List, [], ◌∷◌, Text, text_key, text_eq, Map, lookup, insert,
  if◌then◌else◌, length,
}
use adaptiveservice.Names.{ServiceInfo, to_publisher_service_name}

-- serviceInfoTime
pub record ServiceInfoTime : Type 0 where
  pub time_stamp : ℕ
  pub si : List ServiceInfo

abbrev pub InfoCache : Type 0
InfoCache = Map Text ServiceInfoTime

abbrev pub kept_for : ℕ
kept_for = 15

-- A full cache is emptied.
unfoldable pub trim_cache : InfoCache → InfoCache
trim_cache cache = if ltb 1000 (length cache) then [] else cache

unfoldable pub cached_infos : ℕ → Text → InfoCache → Option (List ServiceInfo)
cached_infos now name cache = elim (lookup name cache) [
  | none ↦ none
  | some sit ↦ if ltb now (sit.time_stamp + kept_for) then some sit.si else none
]

-- The cache, and the names of the queries that wait for their answers, without the lock.
pub record QueryCache : Type 0 where
  pub cache : InfoCache
  pub waiting : List Text

-- The first part of queryServiceInLAN, at the time now: what it returns from the cache, or none, and
-- the query waits.
unfoldable pub begin_query :
    ℕ → (publisher service : Text) → QueryCache → Option (List ServiceInfo) × QueryCache
begin_query now publisher service q =
    let name = to_publisher_service_name publisher service in
    let trimmed = trim_cache q.cache in
    elim (cached_infos now name trimmed) [
      | some si ↦ (some si, record q { cache = trimmed })
      | none ↦ (none, record { cache = trimmed; waiting = name ∷ q.waiting })
    ]

-- One query of the name waits no more; none: there is no such query.
unfoldable pub stop_waiting : Text → List Text → Option (List Text)
stop_waiting name [] = none
stop_waiting name (x ∷ names) =
    let rest : Option (List Text) = elim (stop_waiting name names) [
      | none ↦ none
      | some left ↦ some (x ∷ left)
    ] in
    if text_eq name x then some names else rest

-- Its second part, when run has answered its command with answer, which it returns.
unfoldable pub end_query :
    ℕ
    → (publisher service : Text) → List ServiceInfo
    → QueryCache
    → Option (List ServiceInfo × QueryCache)
unfolding stop_waiting
end_query time publisher service answer q =
    let name = to_publisher_service_name publisher service in
    elim (stop_waiting name q.waiting) [
      | none ↦ none
      | some names ↦ some (
        answer,
        record {
          cache = insert name (record { time_stamp = time; si = answer }) q.cache;
          waiting = names;
        },
      )
    ]

-- The handlers take the lock in any order.
pub data QueryStep : Type 0 where
  begin_step : (now : ℕ) (publisher service : Text) → QueryStep
  end_step : (time : ℕ) (publisher service : Text) (answer : List ServiceInfo) → QueryStep

unfoldable pub query_step : QueryStep → QueryCache → Option QueryCache
unfolding begin_query end_query
query_step (begin_step now publisher service) q = some (begin_query now publisher service q).1
query_step (end_step time publisher service answer) q =
    elim (end_query time publisher service answer q) [ none ↦ none | some x ↦ some x.1 ]

-- After the steps of a list, the last one first; none: a query ends that does not wait.
unfoldable pub query_steps : List QueryStep → Option QueryCache
unfolding query_step
query_steps [] = some (record { cache = []; waiting = [] })
query_steps (e ∷ es) = elim (query_steps es) [ none ↦ none | some q ↦ query_step e q ]
