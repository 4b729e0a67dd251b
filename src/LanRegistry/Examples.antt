-- ===== src/LanRegistry/Examples.antt =====
-- Two hosts in a local network, one with the hello service.
use adaptiveservice.Prelude.{
  has_space, space_width, is_space, ◌≡◌, refl, inl, inr, Bool, true, false, none, some, List, [],
  ◌∷◌, Text, codes, text_key, text_eq, ◌+◌, ◌≤◌, length, Elem, lookup, insert, has_byte, arith, ◌↔◌,
  ◌>>=◌,
}
use adaptiveservice.Wildcard.{wildcard_match}
use adaptiveservice.Wildcard.Glob.{Glob}
use adaptiveservice.Wildcard.Correct.{star_matches}
use adaptiveservice.Names.{
  ServiceInfo, to_publisher_service_name, from_publisher_service_name, check_name_convention,
}
use adaptiveservice.RootRegistry.{ProviderInfo, ServiceMap, walk_provider_map}
use adaptiveservice.RootRegistry.Provider.{provider}
use adaptiveservice.RootRegistry.Check.{IsRegistry}
use adaptiveservice.LanRegistry.{
  LocalSvcInfo, LanRegistry, FoundInLan, lan_delay, LanOutput, get_service_infos, lan_walk,
  lan_walk_matching, lan_visit, check_entries, register_service, answer_query, add_found,
  handle_event, local_record, load_local_record,
}
use adaptiveservice.LanRegistry.Query.{get_service_infos_lem, remains, fresh, info_of}
use adaptiveservice.LanRegistry.Local.{lan_tick_lem}
use adaptiveservice.LanRegistry.Invariant.{IsLan, handle_event-IsLan}
use adaptiveservice.LanRegistry.Hosts.{register-query-found}
use adaptiveservice.LanRegistry.LanQuery.{
  QueryStep, begin_step, end_step, QueryCache, query_steps, query_step, begin_query, end_query,
  stop_waiting, cached_infos, trim_cache,
}
use adaptiveservice.LanRegistry.Cache.{Answered, most_waiting, query_service_in_lan_lem}
use adaptiveservice.LanRegistry.Record.{lookup-load_local_record}

abbrev hello : Text
hello = codes "example_hello"

abbrev hello_svc : LocalSvcInfo
hello_svc = record { time_stamp = 10; port = codes "4000" }

abbrev serving : LanRegistry
serving = record {
  provider_id = codes "c0ffee";
  local_service_table = (hello, hello_svc) ∷ [];
  service_cache = [];
}

abbrev asking : LanRegistry
asking = record { provider_id = codes "facade"; local_service_table = []; service_cache = [] }

abbrev seen : ServiceMap
seen =
    (
      hello,
      (codes "c0ffee", record { time_stamp = 20; addr = codes "10.0.0.7:4000"; proxied = false })
          ∷ [],
    )
    ∷ []

abbrev silent : Text → Bool
silent addr = false

listed :
    get_service_infos 320 (codes "*_hello") seen
    ≡ some (
      seen,
      record {
        publisher = codes "example";
        service = codes "hello";
        provider_id = codes "c0ffee";
        addr = codes "10.0.0.7:4000";
      }
          ∷ [],
    )
unfolding get_service_infos lan_walk_matching lan_walk lan_visit walk_provider_map wildcard_match
    from_publisher_service_name has_byte
listed = refl

forgotten : get_service_infos 321 hello seen ≡ some ((hello, []) ∷ [], [])
unfolding get_service_infos lan_walk lan_visit walk_provider_map from_publisher_service_name
    has_byte lookup insert text_eq
forgotten = refl

seen-IsRegistry : IsRegistry seen
unfolding from_publisher_service_name
seen-IsRegistry = record {
  services = ((λ z. z), tt);
  providers = (((λ z. z), tt), tt);
  names = λ n z. elim z [ inl e ↦ (codes "example", codes "hello", rw e refl) | inr y ↦ absurd y ];
}

asking-IsLan : IsLan asking
asking-IsLan = record {
  table = tt;
  cache = record { services = tt; providers = tt; names = λ n z. absurd z };
}

get_service_infos_lem_example :
    (after : ServiceMap) × (infos : List ServiceInfo) × (get_service_infos 320 (codes "*") seen
      ≡ some (after, infos))
    × ((n j : Text) → provider after n j ≡ (provider seen n j >>= remains 320 (codes "*") n))
    × ((info : ServiceInfo)
        → Elem info infos ↔ (
            (n : Text) × (j : Text) × (p : ProviderInfo) × (provider seen n j ≡ some p)
            × Glob (codes "*") n
            × ((names : Text × Text) × (from_publisher_service_name n ≡ some names)
                × (fresh 320 p ≡ true)
                × (info ≡ info_of names j p))))
get_service_infos_lem_example = get_service_infos_lem 320 (codes "*") seen seen-IsRegistry

lan_tick_lem_example :
    lookup hello (check_entries silent 311 serving.local_service_table serving).local_service_table
    ≡ none
unfolding lookup text_eq
lan_tick_lem_example = lan_tick_lem silent 311 serving hello ((λ z. z), tt)

handle_event-IsLan_example :
    (outputs : List LanOutput) × (r' : LanRegistry) × (handle_event (lan_delay 5 (codes "*")) asking
      ≡ some (outputs, r'))
    × IsLan r'
handle_event-IsLan_example = handle_event-IsLan (lan_delay 5 (codes "*")) asking tt asking-IsLan

register-query-found_example :
    (msg : FoundInLan) × Elem msg (
      answer_query (codes "*") (
        register_service 0
          (to_publisher_service_name (codes "example") (codes "hello"))
          (codes "4000")
          serving))
    × ((after : ServiceMap) × (infos : List ServiceInfo) × (get_service_infos 100
            (codes "*")
            (add_found 20 (codes "10.0.0.7") msg asking).service_cache
          ≡ some (after, infos))
        × Elem
            (record {
              publisher = codes "example";
              service = codes "hello";
              provider_id = codes "c0ffee";
              addr = codes "10.0.0.7:4000";
            })
            infos)
unfolding check_name_convention
register-query-found_example =
    register-query-found serving asking (codes "example") (codes "hello") (codes "4000")
      (codes "10.0.0.7") (codes "*") 0 20 100 refl refl (star_matches _) (omega arith) asking-IsLan

-- Two queries of one name wait at once; the second keeps its answer last.
abbrev queried : List QueryStep
queried =
    end_step 12 (codes "example") (codes "*") []
    ∷ end_step 11 (codes "example") (codes "*") []
    ∷ begin_step 10 (codes "example") (codes "*")
    ∷ begin_step 10 (codes "example") (codes "*")
    ∷ []

abbrev answered : QueryCache
answered = record {
  cache =
      (to_publisher_service_name (codes "example") (codes "*"), record { time_stamp = 12; si = [] })
      ∷ [];
  waiting = [];
}

queried_test : query_steps queried ≡ some answered
unfolding query_steps query_step begin_query end_query stop_waiting cached_infos trim_cache lookup
    insert text_eq to_publisher_service_name
queried_test = refl

query_service_in_lan_lem_example :
    (length answered.cache + length answered.waiting ≤ 1000 + most_waiting queried)
    × Answered queried 20
        (to_publisher_service_name (codes "example") (codes "*"))
        (begin_query 20 (codes "example") (codes "*") answered)
query_service_in_lan_lem_example =
    query_service_in_lan_lem queried answered 20 (codes "example") (codes "*") queried_test

lookup-load_local_record_example :
    lookup hello (load_local_record 50 (local_record serving.local_service_table))
    ≡ some (record { time_stamp = 50; port = codes "4000" })
unfolding lookup text_eq has_space space_width is_space
lookup-load_local_record_example =
    lookup-load_local_record 50 hello serving.local_service_table ((λ z. z), tt)
      (
        (
          record { not_empty = refl; no_space = refl; ascii = omega arith },
          record { not_empty = refl; no_space = refl; ascii = omega arith },
        ),
        tt,
      )
