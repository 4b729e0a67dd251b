-- ===== src/LanRegistry/Invariant.antt =====
-- The invariant of the registry of the local network under every event of its loop.
use adaptiveservice.Prelude.{
  ℕ, ◌+◌, ltb, ◌≡◌, refl, sym, ◌∙◌, subst, inl, inr, Bool, true, false, none, some, List, [], ◌∷◌,
  ◌++◌, Text, codes, text_key, Map, keys, Distinct, lookup, insert, remove, arith, Option-cases,
  Bool-cases, Elem-keys, insert-Distinct, remove-Distinct, lookup→elem,
}
use adaptiveservice.Names.{ServiceInfo, from_publisher_service_name}
use adaptiveservice.RootRegistry.{stale_after, ProviderMap, ServiceMap, providers_of}
use adaptiveservice.RootRegistry.Walk.{All-Elem}
use adaptiveservice.RootRegistry.Check.{IsRegistry}
use adaptiveservice.RootRegistry.Invariant.{insert-IsRegistry, providers_of-Distinct}
use adaptiveservice.RootRegistry.Keys.{walk_providers-IsRegistry}
use adaptiveservice.LanRegistry.Query.{
  visit, get_service_infos-walk_providers, get_service_infos_lem,
}
use adaptiveservice.LanRegistry.{
  broadcast_query, delay_query, answer_infos, replies, answer_query, LocalSvcInfo, LanRegistry,
  FoundInLan, LanEvent, lan_register, lan_delete, lan_query, lan_delay, lan_tick, packet_query,
  packet_found, LanOutput, del_service, register_service, check_entry, check_entries, add_found,
  get_service_infos, handle_event,
}

-- No key is twice in a table, and every name of the cache is that of a publisher and a service.
pub record IsLan (r : LanRegistry) : Type 0 where
  pub table : Distinct (keys r.local_service_table)
  pub cache : IsRegistry r.service_cache

-- The name that a packet brings is that of a publisher and a service.
abbrev pub WellNamed : LanEvent → Type 0
WellNamed (packet_found t msg rhost) =
    (p : Text) × (s : Text) × (from_publisher_service_name msg.name ≡ some (p, s))
WellNamed (lan_register t name port) = Unit {0}
WellNamed (lan_delete name) = Unit {0}
WellNamed (lan_query name works) = Unit {0}
WellNamed (lan_delay t name) = Unit {0}
WellNamed (lan_tick ping t) = Unit {0}
WellNamed (packet_query name raddr) = Unit {0}

del_service-none :
    (name : Text) (r : LanRegistry)
    → lookup name r.service_cache ≡ none
    → del_service name r ≡ record r { local_service_table = remove name r.local_service_table }
unfolding del_service
del_service-none name r e = ground arith

del_service-some :
    (name : Text) (r : LanRegistry) (prvds : ProviderMap)
    → lookup name r.service_cache ≡ some prvds
    → del_service name r ≡ record r {
      local_service_table = remove name r.local_service_table;
      service_cache = insert name (remove r.provider_id prvds) r.service_cache;
    }
unfolding del_service
del_service-some name r prvds e = ground arith

del_service-IsLan : (name : Text) (r : LanRegistry) → IsLan r → IsLan (del_service name r)
del_service-IsLan name r v = elim (Option-cases (lookup name r.service_cache)) [
  | inl e ↦
      subst IsLan (sym (del_service-none name r e))
        (record { table = remove-Distinct name r.local_service_table v.table; cache = v.cache })
  | inr (prvds, e) ↦
      let d =
        All-Elem _ r.service_cache (name, prvds) v.cache.providers
          (lookup→elem name prvds r.service_cache e) in
      subst IsLan (sym (del_service-some name r prvds e)) (record {
        table = remove-Distinct name r.local_service_table v.table;
        cache =
            insert-IsRegistry name (remove r.provider_id prvds) r.service_cache
              (v.cache.names name ((Elem-keys name r.service_cache).1 (prvds, e)))
              (remove-Distinct r.provider_id prvds d) v.cache;
      })
]

check_entry-IsLan :
    (ping : Text → Bool) (t : ℕ) (name : Text) (lsi : LocalSvcInfo) (r : LanRegistry)
    → IsLan r
    → IsLan (check_entry ping t name lsi r)
unfolding check_entry
check_entry-IsLan ping t name lsi r v = elim (Bool-cases (ping (codes "127.0.0.1:" ++ lsi.port))) [
  | inl answers ↦
      rw answers
        (record { table = insert-Distinct name _ r.local_service_table v.table; cache = v.cache })
  | inr silent ↦ elim (Bool-cases (ltb (lsi.time_stamp + stale_after) t)) [
    | inl stale ↦ rw (silent, stale) (del_service-IsLan name r v)
    | inr recent ↦ rw (silent, recent) v
  ]
]

check_entries-IsLan :
    (ping : Text → Bool) (t : ℕ) (entries : Map Text LocalSvcInfo) (r : LanRegistry)
    → IsLan r
    → IsLan (check_entries ping t entries r)
unfolding check_entries
check_entries-IsLan ping t [] r v = v
check_entries-IsLan ping t ((name, lsi) ∷ entries) r v =
    check_entries-IsLan ping t entries (check_entry ping t name lsi r)
      (check_entry-IsLan ping t name lsi r v)

register_service-IsLan :
    (t : ℕ) (name port : Text) (r : LanRegistry) → IsLan r → IsLan (register_service t name port r)
unfolding register_service
register_service-IsLan t name port r v = record {
  table = insert-Distinct name _ r.local_service_table v.table;
  cache = v.cache;
}

pub add_found-IsLan :
    (t : ℕ) (rhost : Text) (msg : FoundInLan) (r : LanRegistry)
    → (p : Text) × (s : Text) × (from_publisher_service_name msg.name ≡ some (p, s))
    → IsLan r
    → IsLan (add_found t rhost msg r)
unfolding add_found
add_found-IsLan t rhost msg r named v = record {
  table = v.table;
  cache =
      insert-IsRegistry msg.name _ r.service_cache named
        (insert-Distinct msg.provider_id _ (providers_of msg.name r.service_cache)
          (providers_of-Distinct msg.name r.service_cache v.cache))
        v.cache;
}

get_service_infos-IsRegistry :
    (t : ℕ) (name : Text) (cache after : ServiceMap) (infos : List ServiceInfo)
    → get_service_infos t name cache ≡ some (after, infos)
    → IsRegistry cache
    → IsRegistry after
get_service_infos-IsRegistry t name cache after infos h r =
    walk_providers-IsRegistry (visit t) name cache after infos
      (sym (get_service_infos-walk_providers t name cache r) ∙ h) r

-- On a state that keeps the invariant no event makes the loop panic, and the state after it keeps the invariant too:
-- no key is twice in a table, and every name of the cache is that of a publisher and a service. The
-- name in a packet that was found has to be one of these.
pub handle_event-IsLan :
    (event : LanEvent) (r : LanRegistry)
    → WellNamed event
    → IsLan r
    → (outputs : List LanOutput) × (r' : LanRegistry) × (handle_event event r ≡ some (outputs, r'))
      × IsLan r'
unfolding handle_event
handle_event-IsLan (lan_register t name port) r w v =
    ([], register_service t name port r, refl, register_service-IsLan t name port r v)
handle_event-IsLan (lan_delete name) r w v =
    ([], del_service name r, refl, del_service-IsLan name r v)
handle_event-IsLan (lan_query name true) r w v =
    (broadcast_query name ∷ delay_query name ∷ [], r, refl, v)
handle_event-IsLan (lan_query name false) r w v = ([], r, refl, v)
handle_event-IsLan (lan_delay t name) r w v =
    let (after, infos, e, _, _) = get_service_infos_lem t name r.service_cache v.cache in
    (
      answer_infos infos ∷ [],
      record r { service_cache = after },
      rw e refl,
      record {
        table = v.table;
        cache = get_service_infos-IsRegistry t name r.service_cache after infos e v.cache;
      },
    )
handle_event-IsLan (lan_tick ping t) r w v = (
  [],
  check_entries ping t r.local_service_table r,
  refl,
  check_entries-IsLan ping t r.local_service_table r v,
)
handle_event-IsLan (packet_query name raddr) r w v =
    (replies raddr (answer_query name r), r, refl, v)
handle_event-IsLan (packet_found t msg rhost) r w v =
    ([], add_found t rhost msg r, refl, add_found-IsLan t rhost msg r w v)
