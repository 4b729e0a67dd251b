-- ===== src/RootRegistry/Provider.antt =====
-- The root registry as the function from a service's name and a provider's ID to the provider.
use adaptiveservice.Prelude.{
  ℕ, ◌≡◌, Bool, ◌&&◌, Option, none, some, Text, text_key, lookup, insert, remove, lookup-insert,
  lookup-remove, text_eq, text_eq_iff, if◌then◌else◌, ◌>>=◌, arith, Option-cases, inl, inr,
}
use adaptiveservice.Names.{to_publisher_service_name}
use adaptiveservice.RootRegistry.{
  ProviderInfo, ProviderMap, ServiceMap, ok, err_service_not_reachable, RegServiceInWan, raddr_of,
  providers_of, reg_service_in_wan, del_service_in_wan,
}

abbrev pub provider : ServiceMap → Text → Text → Option ProviderInfo
provider m name p_id = lookup name m >>= lookup p_id

pub provider-providers_of :
    (m : ServiceMap) (name p_id : Text) → provider m name p_id ≡ lookup p_id (providers_of name m)
unfolding lookup
provider-providers_of m name p_id = ground arith

pub provider-insert :
    (name : Text) (pmap : ProviderMap) (m : ServiceMap) (n p_id : Text)
    → provider (insert name pmap m) n p_id
      ≡ (if text_eq name n then lookup p_id pmap else provider m n p_id)
provider-insert name pmap m n p_id = ground (arith, lookup-insert name n pmap m)

-- regServiceInWAN replies OK exactly when the provider's address answers, and then the registry
-- holds that provider under its service and ID, as of now, and every other provider as before;
-- when it does not answer the registry is unchanged.
pub reg_service_in_wan_lem :
    (ping : Text → Bool) (now : ℕ) (rhost : Text) (msg : RegServiceInWan) (m : ServiceMap)
    → let raddr = raddr_of rhost msg.port in
      let (reply, after) = reg_service_in_wan ping now rhost msg m in
      (reply ≡ (if ping raddr then ok else err_service_not_reachable))
      × ((name p_id : Text)
          → provider after name p_id ≡ (
              if ping raddr
                && (text_eq (to_publisher_service_name msg.publisher msg.service) name
                    && text_eq msg.provider_id p_id)
              then some (record { time_stamp = now; addr = raddr; proxied = msg.proxied })
              else provider m name p_id))
unfolding reg_service_in_wan
reg_service_in_wan_lem ping now rhost msg m = (
  ground arith,
  λ name p_id.
      let service = to_publisher_service_name msg.publisher msg.service in
      let pinfo : ProviderInfo = record {
        time_stamp = now;
        addr = raddr_of rhost msg.port;
        proxied = msg.proxied;
      } in
      ground (
        arith,
        provider-insert service (insert msg.provider_id pinfo (providers_of service m)) m name p_id,
        lookup-insert msg.provider_id p_id pinfo (providers_of service m),
        provider-providers_of m service p_id,
        text_eq_iff service name,
      ),
)

-- After delServiceInWAN the provider is gone, and every other one is as before.
pub provider-del_service_in_wan :
    (publisher service provider_id name p_id : Text) (m : ServiceMap)
    → provider (del_service_in_wan publisher service provider_id m) name p_id ≡ (
        if text_eq (to_publisher_service_name publisher service) name && text_eq provider_id p_id
        then none
        else provider m name p_id)
unfolding del_service_in_wan
provider-del_service_in_wan publisher service provider_id name p_id m =
    let service = to_publisher_service_name publisher service in
    elim (Option-cases (lookup service m)) [
      | inl e ↦ ground (arith, text_eq_iff service name)
      | inr (pmap, e) ↦ ground (
        arith,
        provider-insert service (remove provider_id pmap) m name p_id,
        lookup-remove provider_id p_id pmap,
        text_eq_iff service name,
      )
    ]
