-- ===== src/LanRegistry/Hosts.antt =====
-- Two hosts: what one registers, the other finds.
use adaptiveservice.Prelude.{
  ℕ, ◌+◌, ◌≡◌, refl, sym, ap, ◌∙◌, ◌≤◌, inl, inr, true, false, some, List, [], ◌∷◌, Text, text_key,
  text_eq_iff, text_eq_refl, Map, Elem, lookup, lookup-insert, lookup→elem, has_byte, arith,
  Bool-cases,
}
use adaptiveservice.Wildcard.{star, wildcard_match}
use adaptiveservice.Wildcard.Glob.{Glob}
use adaptiveservice.Wildcard.Correct.{wildcard_match-Glob, wildcard_match-literal}
use adaptiveservice.Names.{ServiceInfo, to_publisher_service_name, check_name_convention}
use adaptiveservice.Names.RoundTrip.{from-to_publisher_service_name, check_name_convention→}
use adaptiveservice.RootRegistry.{ServiceMap, raddr_of, stale_after}
use adaptiveservice.RootRegistry.Provider.{provider, provider-insert}
use adaptiveservice.LanRegistry.{
  LocalSvcInfo, LanRegistry, FoundInLan, matching_local, answer_query, register_service, add_found,
  get_service_infos,
}
use adaptiveservice.LanRegistry.Query.{get_service_infos_lem}
use adaptiveservice.LanRegistry.Invariant.{IsLan, add_found-IsLan}

-- The reply of a host for one of its services.
abbrev reply_for : Text → Text → Text → FoundInLan
reply_for provider_id name port = record { name = name; provider_id = provider_id; port = port }

Elem-matching_local :
    (provider_id pattern name : Text) (lsi : LocalSvcInfo) (entries : Map Text LocalSvcInfo)
    → wildcard_match pattern name ≡ true
    → Elem (name, lsi) entries
    → Elem (reply_for provider_id name lsi.port) (matching_local provider_id pattern entries)
unfolding matching_local
Elem-matching_local provider_id pattern name lsi ((n, l) ∷ entries) w (inl e) =
    let here : wildcard_match pattern n ≡ true =
      ap (λ (x : Text × LocalSvcInfo). wildcard_match pattern x.0) (sym e) ∙ w in
    rw here (inl (ap (λ (x : Text × LocalSvcInfo). reply_for provider_id x.0 x.1.port) e))
Elem-matching_local provider_id pattern name lsi ((n, l) ∷ entries) w (inr z) =
    elim (Bool-cases (wildcard_match pattern n)) [
      | inl t ↦ rw t (inr (Elem-matching_local provider_id pattern name lsi entries w z))
      | inr f ↦ rw f (Elem-matching_local provider_id pattern name lsi entries w z)
    ]
Elem-matching_local provider_id pattern name lsi [] w z = absurd z

-- A host replies to a query for each of its services whose names the pattern stands for.
answer_query-Elem :
    (pattern name : Text) (lsi : LocalSvcInfo) (r : LanRegistry)
    → wildcard_match pattern name ≡ true
    → lookup name r.local_service_table ≡ some lsi
    → Elem (reply_for r.provider_id name lsi.port) (answer_query pattern r)
unfolding answer_query
answer_query-Elem pattern name lsi r w h = elim (Bool-cases (has_byte star pattern)) [
  | inl t ↦ rw t (
      Elem-matching_local r.provider_id pattern name lsi r.local_service_table w
        (lookup→elem name lsi r.local_service_table h))
  | inr f ↦
      let same : pattern ≡ name =
        (text_eq_iff pattern name).0 (sym (wildcard_match-literal pattern name f) ∙ w) in
      let found : lookup pattern r.local_service_table ≡ some lsi = rw same h in
      rw (f, found) (inl (ap (λ n. reply_for r.provider_id n lsi.port) (sym same)))
]

add_found-provider :
    (t : ℕ) (rhost : Text) (msg : FoundInLan) (r : LanRegistry)
    → provider (add_found t rhost msg r).service_cache msg.name msg.provider_id
      ≡ some (record { time_stamp = t; addr = raddr_of rhost msg.port; proxied = false })
unfolding add_found
add_found-provider t rhost msg r =
    provider-insert msg.name _ r.service_cache msg.name msg.provider_id
    ∙ rw (text_eq_refl msg.name, lookup-insert, text_eq_refl msg.provider_id) refl

register_service-lookup :
    (t : ℕ) (name port : Text) (r : LanRegistry)
    → lookup name (register_service t name port r).local_service_table
      ≡ some (record { time_stamp = t; port = port })
unfolding register_service
register_service-lookup t name port r = rw (lookup-insert, text_eq_refl name) refl

-- A service that a host has registered is found by another: the first answers a query whose
-- pattern stands for the service's name with a packet, and when the second has got the packet, its
-- next answer in the following five minutes lists the service at the first host's address. The
-- publisher and the service keep the name convention, and the second registry its invariant.
pub register-query-found :
    (here there : LanRegistry) (publisher service port rhost pattern : Text) (t0 t t' : ℕ)
    → check_name_convention publisher ≡ true
    → check_name_convention service ≡ true
    → Glob pattern (to_publisher_service_name publisher service)
    → t' ≤ t + stale_after
    → IsLan there
    → (msg : FoundInLan) × Elem msg (
        answer_query pattern
          (register_service t0 (to_publisher_service_name publisher service) port here))
      × ((after : ServiceMap) × (infos : List ServiceInfo) × (get_service_infos t' pattern
              (add_found t rhost msg there).service_cache
            ≡ some (after, infos))
          × Elem
              (record {
                publisher = publisher;
                service = service;
                provider_id = here.provider_id;
                addr = raddr_of rhost port;
              })
              infos)
unfolding register_service
register-query-found here there publisher service port rhost pattern t0 t t' hp hs g soon v =
    let name = to_publisher_service_name publisher service in
    let w = (wildcard_match-Glob pattern name).1 g in
    let named =
      from-to_publisher_service_name publisher service (check_name_convention→ publisher hp).0
        (check_name_convention→ service hs).0 in
    let lsi : LocalSvcInfo = record { time_stamp = t0; port = port } in
    let msg = reply_for here.provider_id name port in
    let v' = add_found-IsLan t rhost msg there (publisher, service, named) v in
    let (after, infos, e, _, listed) =
      get_service_infos_lem t' pattern (add_found t rhost msg there).service_cache v'.cache in
    (
      msg,
      answer_query-Elem pattern name lsi (register_service t0 name port here) w
          (register_service-lookup t0 name port here),
      (
        after,
        infos,
        e,
        (listed (record {
          publisher = publisher;
          service = service;
          provider_id = here.provider_id;
          addr = raddr_of rhost port;
        })).1
            (
              name,
              here.provider_id,
              record { time_stamp = t; addr = raddr_of rhost port; proxied = false },
              add_found-provider t rhost msg there,
              g,
              ((publisher, service), named, ground arith, refl),
            ),
      ),
    )
