-- ===== src/LanRegistry.antt =====
-- The registry of the local network, registry.go: the loop of registryLAN.run as a step for each
-- case of its select, with getServiceInfos and delService.
-- Times are in seconds. The dials of pingService and the outcome of the broadcast are part of the
-- events, since they happen outside.
pub mod Query
pub mod Local
pub mod Invariant
pub mod Hosts
pub mod LanQuery
pub mod Cache
pub mod Record
mod Examples
use adaptiveservice.Prelude.{
  ℕ, ◌+◌, ltb, Bool, true, false, Option, none, some, List, [], ◌∷◌, ◌++◌, Text, codes, text_key,
  Map, lookup, insert, remove, has_byte, split, words, if◌then◌else◌, ◌>>=◌, length,
}
use adaptiveservice.Wildcard.{star, wildcard_match}
use adaptiveservice.Names.{ServiceInfo, to_publisher_service_name, from_publisher_service_name}
use adaptiveservice.RootRegistry.{
  ProviderInfo, ProviderMap, ServiceMap, Visit, walk_provider_map, providers_of, raddr_of,
  stale_after,
}

pub record LocalSvcInfo : Type 0 where
  pub time_stamp : ℕ
  pub port : Text

-- The variables of run, and the provider ID of its server.
pub record LanRegistry : Type 0 where
  pub provider_id : Text
  pub local_service_table : Map Text LocalSvcInfo
  pub service_cache : ServiceMap

pub record FoundInLan : Type 0 where
  pub name : Text
  pub provider_id : Text
  pub port : Text

-- The function walkProviders of getServiceInfos at one provider, for a service's two names.
unfoldable pub lan_visit : ℕ → Text × Text → Visit ServiceInfo
lan_visit t (p_name, s_name) name p_id p_info =
    if ltb (p_info.time_stamp + stale_after) t
    then some (none, [])
    else some (
      some p_info,
      record { publisher = p_name; service = s_name; provider_id = p_id; addr = p_info.addr } ∷ [],
    )

-- none: fromPublisherServiceName panics.
unfoldable pub lan_walk : ℕ → Text → ProviderMap → Option (ProviderMap × List ServiceInfo)
lan_walk t name prvds = do
  names ← from_publisher_service_name name
  walk_provider_map (lan_visit t names) name prvds

unfoldable pub lan_walk_matching : ℕ → Text → ServiceMap → Option (ServiceMap × List ServiceInfo)
lan_walk_matching t name [] = some ([], [])
lan_walk_matching t name ((n, prvds) ∷ cache) = do
  (after, found) ← (if wildcard_match name n then lan_walk t n prvds else some (prvds, []))
  (rest, others) ← lan_walk_matching t name cache
  some ((n, after) ∷ rest, found ++ others)

unfoldable pub get_service_infos : ℕ → Text → ServiceMap → Option (ServiceMap × List ServiceInfo)
get_service_infos t name cache =
    let one : Option (ServiceMap × List ServiceInfo) = elim (lookup name cache) [
      | none ↦ some (cache, [])
      | some prvds ↦ lan_walk t name prvds >>= λ r. some (insert name r.0 cache, r.1)
    ] in
    if has_byte star name then lan_walk_matching t name cache else one

unfoldable pub del_service : Text → LanRegistry → LanRegistry
del_service name r =
    let rest : LanRegistry = record r { local_service_table = remove name r.local_service_table } in
    elim (lookup name r.service_cache) [
      | none ↦ rest
      | some prvds ↦ record rest {
        service_cache = insert name (remove r.provider_id prvds) r.service_cache;
      }
    ]

unfoldable pub register_service : ℕ → Text → Text → LanRegistry → LanRegistry
register_service t name port r = record r {
  local_service_table = insert name (record { time_stamp = t; port = port }) r.local_service_table;
}

-- One entry of the range of the ticker's case.
unfoldable pub check_entry : (Text → Bool) → ℕ → Text → LocalSvcInfo → LanRegistry → LanRegistry
unfolding del_service
check_entry ping t name lsi r =
    if ping (codes "127.0.0.1:" ++ lsi.port)
    then record r {
      local_service_table = insert name (record lsi { time_stamp = t }) r.local_service_table;
    }
    else if ltb (lsi.time_stamp + stale_after) t
    then del_service name r
    else r

unfoldable pub check_entries : (Text → Bool) → ℕ → Map Text LocalSvcInfo → LanRegistry → LanRegistry
check_entries ping t [] r = r
check_entries ping t ((name, lsi) ∷ entries) r =
    check_entries ping t entries (check_entry ping t name lsi r)

unfoldable pub matching_local : Text → Text → Map Text LocalSvcInfo → List FoundInLan
matching_local provider_id name [] = []
matching_local provider_id name ((n, lsi) ∷ entries) =
    let rest = matching_local provider_id name entries in
    if wildcard_match name n
    then record { name = n; provider_id = provider_id; port = lsi.port } ∷ rest
    else rest

-- The replies to a queryInLAN.
unfoldable pub answer_query : Text → LanRegistry → List FoundInLan
unfolding matching_local
answer_query name r =
    let one : List FoundInLan = elim (lookup name r.local_service_table) [
      | none ↦ []
      | some lsi ↦ record { name = name; provider_id = r.provider_id; port = lsi.port } ∷ []
    ] in
    if has_byte star name then matching_local r.provider_id name r.local_service_table else one

unfoldable pub add_found : ℕ → Text → FoundInLan → LanRegistry → LanRegistry
add_found t rhost msg r =
    let p_info : ProviderInfo = record {
      time_stamp = t;
      addr = raddr_of rhost msg.port;
      proxied = false;
    } in
    record r {
      service_cache =
          insert msg.name (insert msg.provider_id p_info (providers_of msg.name r.service_cache))
            r.service_cache;
    }

-- What the select of run can receive.
pub data LanEvent : Type 0 where
  lan_register : (t : ℕ) (name port : Text) → LanEvent
  lan_delete : (name : Text) → LanEvent
  lan_query : (name : Text) (broadcast_works : Bool) → LanEvent
  lan_delay : (t : ℕ) (name : Text) → LanEvent
  lan_tick : (ping : Text → Bool) (t : ℕ) → LanEvent
  packet_query : (name raddr : Text) → LanEvent
  packet_found : (t : ℕ) (msg : FoundInLan) (rhost : Text) → LanEvent

-- What run does beyond its variables. A query that is delayed is answered 100 ms later, by the case
-- of chanDelay.
pub data LanOutput : Type 0 where
  broadcast_query : (name : Text) → LanOutput
  delay_query : (name : Text) → LanOutput
  reply_found : (msg : FoundInLan) (raddr : Text) → LanOutput
  answer_infos : (infos : List ServiceInfo) → LanOutput

abbrev pub replies : Text → List FoundInLan → List LanOutput
replies raddr [] = []
replies raddr (msg ∷ msgs) = reply_found msg raddr ∷ replies raddr msgs

-- A turn of the loop; none: it panics.
unfoldable pub handle_event : LanEvent → LanRegistry → Option (List LanOutput × LanRegistry)
handle_event (lan_register t name port) r = some ([], register_service t name port r)
handle_event (lan_delete name) r = some ([], del_service name r)
handle_event (lan_query name true) r = some (broadcast_query name ∷ delay_query name ∷ [], r)
handle_event (lan_query name false) r = some ([], r)
handle_event (lan_delay t name) r = do
  (cache, infos) ← get_service_infos t name r.service_cache
  some (answer_infos infos ∷ [], record r { service_cache = cache })
handle_event (lan_tick ping t) r = some ([], check_entries ping t r.local_service_table r)
handle_event (packet_query name raddr) r = some (replies raddr (answer_query name r), r)
handle_event (packet_found t msg rhost) r = some ([], add_found t rhost msg r)

-- The record file that run writes when it is done, and reads when it starts: fmt.Fprintln of the
-- name and the port, and the values that Fscanln reads back.
unfoldable pub local_line : Text → LocalSvcInfo → Text
local_line name lsi = name ++ (b' ' ∷ (lsi.port ++ (b'\n' ∷ [])))

unfoldable pub local_record : Map Text LocalSvcInfo → Text
unfolding local_line
local_record [] = []
local_record ((name, lsi) ∷ entries) = local_line name lsi ++ local_record entries

unfoldable pub load_local_fields :
    ℕ → List Text → Map Text LocalSvcInfo → Option (Map Text LocalSvcInfo)
load_local_fields t (name ∷ port ∷ []) table =
    some (insert name (record { time_stamp = t; port = port }) table)
load_local_fields t _ table = none

unfoldable pub load_local_lines : ℕ → List Text → Map Text LocalSvcInfo → Map Text LocalSvcInfo
load_local_lines t [] table = table
load_local_lines t (line ∷ lines) table = elim (load_local_fields t (words line) table) [
  | none ↦ table
  | some table' ↦ load_local_lines t lines table'
]

unfoldable pub load_local_record : ℕ → Text → Map Text LocalSvcInfo
load_local_record t text =
    let (line, lines) = split b'\n' text in load_local_lines t (line ∷ lines) []
