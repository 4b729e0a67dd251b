-- ===== src/RootRegistry/Examples.antt =====
-- A root registry with one proxied provider of the hello service.
use adaptiveservice.Prelude.{
  ℕ, has_space, space_width, is_space, ◌≡◌, refl, ◌↔◌, inl, inr, Bool, true, false, none, some,
  List, [], ◌∷◌, Text, text_key, text_eq, lookup, insert, codes, Elem, ◌>>=◌, has_byte, arith,
}
use adaptiveservice.Wildcard.{wildcard_match}
use adaptiveservice.Wildcard.Glob.{Glob}
use adaptiveservice.Names.{
  ServiceInfo, to_publisher_service_name, from_publisher_service_name, check_name_convention,
}
use adaptiveservice.RootRegistry.{
  ProviderInfo, ServiceMap, ok, err_service_not_reachable, RegServiceInWan, reg_service_in_wan,
  Pings, Times, del_service_in_wan, query_service_in_wan, make_service_info, registry_check,
  services_record, load_record, proxied_mark, ends_with, walk_providers,
}
use adaptiveservice.RootRegistry.Provider.{
  provider, reg_service_in_wan_lem, provider-del_service_in_wan,
}
use adaptiveservice.RootRegistry.Check.{
  IsRegistry, survivor, query_service_in_wan_lem, registry_check_lem,
}
use adaptiveservice.RootRegistry.Record.{IsPlain}
use adaptiveservice.RootRegistry.Restart.{provider-load_record}
use adaptiveservice.RootRegistry.Invariant.{reg-del-IsRegistry}

abbrev hello : Text
hello = codes "example_hello"

abbrev stored : ProviderInfo
stored = record { time_stamp = 10; addr = codes "10.0.0.7:4000"; proxied = true }

abbrev registry : ServiceMap
registry = (hello, (codes "c0ffee", stored) ∷ []) ∷ []

abbrev request : RegServiceInWan
request = record {
  publisher = codes "example";
  service = codes "hello";
  provider_id = codes "c0ffee";
  port = codes "4000";
  proxied = true;
}

abbrev answers : Text → Bool
answers addr = true

abbrev silent : Text → Bool
silent addr = false

abbrev nobody : Pings
nobody service p_id = silent

abbrev at : ℕ → Times
at t service p_id = t

registry-IsRegistry : IsRegistry registry
unfolding from_publisher_service_name
registry-IsRegistry = record {
  services = (λ z. z, tt);
  providers = (((λ z. z), tt), tt);
  names = λ n h. elim h [ inl q ↦ (codes "example", codes "hello", rw q refl) | inr z ↦ absurd z ];
}

abbrev listed : ServiceInfo
listed = record {
  publisher = codes "example";
  service = codes "hello";
  provider_id = codes "c0ffee";
  addr = codes "10.0.0.7:4000P";
}

registered : reg_service_in_wan answers 10 (codes "10.0.0.7") request [] ≡ (ok, registry)
unfolding reg_service_in_wan to_publisher_service_name insert lookup
registered = refl

checked : registry_check nobody (at 20) registry ≡ some (registry, listed ∷ [])
unfolding registry_check walk_providers has_byte wildcard_match make_service_info
    from_publisher_service_name
checked = refl

dropped : registry_check nobody (at 311) registry ≡ some ((hello, []) ∷ [], [])
unfolding registry_check walk_providers has_byte wildcard_match
dropped = refl

reg_service_in_wan_lem_example :
    let (reply, after) = reg_service_in_wan silent 30 (codes "10.0.0.9") request registry in
    (reply ≡ err_service_not_reachable)
    × ((name p_id : Text) → provider after name p_id ≡ provider registry name p_id)
reg_service_in_wan_lem_example =
    reg_service_in_wan_lem silent 30 (codes "10.0.0.9") request registry

provider-del_service_in_wan_example :
    provider
      (del_service_in_wan (codes "example") (codes "hello") (codes "c0ffee") registry)
      hello
      (codes "c0ffee")
    ≡ none
unfolding to_publisher_service_name text_eq
provider-del_service_in_wan_example =
    provider-del_service_in_wan (codes "example") (codes "hello") (codes "c0ffee") hello
      (codes "c0ffee") registry

query_service_in_wan_lem_example :
    (after : ServiceMap) × (infos : List ServiceInfo) × (query_service_in_wan
        (codes "*")
        (codes "hello")
        registry
      ≡ some (after, infos))
    × ((n j : Text) → provider after n j ≡ provider registry n j)
    × ((info : ServiceInfo)
        → Elem info infos ↔ (
            (n : Text) × (j : Text) × (p : ProviderInfo) × (provider registry n j ≡ some p)
            × Glob (to_publisher_service_name (codes "*") (codes "hello")) n
            × (make_service_info n j p ≡ some info)))
query_service_in_wan_lem_example =
    query_service_in_wan_lem (codes "*") (codes "hello") registry registry-IsRegistry

registry_check_lem_example :
    (after : ServiceMap) × (infos : List ServiceInfo) × (registry_check nobody (at 311) registry
      ≡ some (after, infos))
    × ((n j : Text) → provider after n j ≡ (provider registry n j >>= survivor silent 311))
    × ((info : ServiceInfo)
        → Elem info infos ↔ (
            (n : Text) × (j : Text) × (p : ProviderInfo) × (provider after n j ≡ some p)
            × (make_service_info n j p ≡ some info)))
registry_check_lem_example = registry_check_lem nobody (at 311) registry registry-IsRegistry

listed-IsPlain : IsPlain listed
unfolding text_eq has_space space_width is_space
listed-IsPlain = record {
  publisher = record { not_empty = refl; no_space = refl; ascii = omega arith };
  service = record { not_empty = refl; no_space = refl; ascii = omega arith };
  provider_id = record { not_empty = refl; no_space = refl; ascii = omega arith };
  addr = record { not_empty = refl; no_space = refl; ascii = omega arith };
}

stored_unmarked :
    (n j : Text) (p : ProviderInfo)
    → provider registry n j ≡ some p
    → ends_with proxied_mark p.addr ≡ false
unfolding lookup ends_with
stored_unmarked n j p e = ground arith

provider-load_record_example :
    provider (load_record 99 (services_record (listed ∷ []))) hello (codes "c0ffee")
    ≡ (provider registry hello (codes "c0ffee") >>= λ p. some (record p { time_stamp = 99 }))
provider-load_record_example =
    provider-load_record nobody (at 20) 99 registry registry (listed ∷ []) registry-IsRegistry
      checked (listed-IsPlain, tt) stored_unmarked hello (codes "c0ffee")

reg-del-IsRegistry_example :
    IsRegistry (reg_service_in_wan answers 30 (codes "10.0.0.9") request registry).1
    × IsRegistry (del_service_in_wan (codes "example") (codes "hello") (codes "c0ffee") registry)
unfolding check_name_convention
reg-del-IsRegistry_example =
    reg-del-IsRegistry answers 30 (codes "10.0.0.9") request (codes "example") (codes "hello")
      (codes "c0ffee") registry refl refl registry-IsRegistry
