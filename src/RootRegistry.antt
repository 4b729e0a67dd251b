-- ===== src/RootRegistry.antt =====
-- The root registry, registry.go: rootRegistry with walkProviders, the handlers of
-- regServiceInWAN, delServiceInWAN and queryServiceInWAN, makeServiceInfo, and one round of
-- registryCheckSaver. fmt.Fscanln reads the words of a line, for it takes the spaces of
-- unicode.IsSpace to end a value; a text that is not UTF-8 would come back changed. Each handler
-- runs as one step: what its locks let other handlers do in between is not modelled. Times are in
-- seconds; what pingService answers is an argument, since it dials.
pub mod Provider
pub mod Walk
pub mod Check
pub mod Keys
pub mod Record
pub mod Restart
pub mod Invariant
mod Examples
use adaptiveservice.Prelude.{
  ℕ, ◌+◌, ltb, Bool, true, false, Option, none, some, List, [], ◌∷◌, ◌++◌, Text, codes, text_key,
  Map, lookup, insert, remove, text_eq, has_byte, split, words, keep, not, ◌==◌, if◌then◌else◌,
  ◌>>=◌,
}
use adaptiveservice.Wildcard.{star, wildcard_match}
use adaptiveservice.Names.{ServiceInfo, to_publisher_service_name, from_publisher_service_name}

pub record ProviderInfo : Type 0 where
  pub time_stamp : ℕ
  pub addr : Text
  pub proxied : Bool

abbrev pub ProviderMap : Type 0
ProviderMap = Map Text ProviderInfo

-- rootRegistry.serviceMap
abbrev pub ServiceMap : Type 0
ServiceMap = Map Text ProviderMap

pub data Reply : Type 0 where
  ok : Reply
  err_service_not_reachable : Reply

pub record RegServiceInWan : Type 0 where
  pub publisher : Text
  pub service : Text
  pub provider_id : Text
  pub port : Text
  pub proxied : Bool

-- rhost + ":" + msg.port
abbrev pub raddr_of : Text → Text → Text
raddr_of rhost port = rhost ++ (b':' ∷ port)

-- serviceMap[name], or the empty map that the handler makes.
abbrev pub providers_of : Text → ServiceMap → ProviderMap
providers_of name m = elim (lookup name m) [ none ↦ [] | some pmap ↦ pmap ]

unfoldable pub reg_service_in_wan :
    (Text → Bool) → ℕ → Text → RegServiceInWan → ServiceMap → Reply × ServiceMap
reg_service_in_wan ping now rhost msg m =
    let raddr = raddr_of rhost msg.port in
    let name = to_publisher_service_name msg.publisher msg.service in
    let pinfo : ProviderInfo = record { time_stamp = now; addr = raddr; proxied = msg.proxied } in
    if ping raddr
    then (ok, insert name (insert msg.provider_id pinfo (providers_of name m)) m)
    else (err_service_not_reachable, m)

unfoldable pub del_service_in_wan : Text → Text → Text → ServiceMap → ServiceMap
del_service_in_wan publisher service provider_id m =
    let name = to_publisher_service_name publisher service in
    elim (lookup name m) [ none ↦ m | some pmap ↦ insert name (remove provider_id pmap) m ]

-- none: fromPublisherServiceName panics.
unfoldable pub make_service_info : Text → Text → ProviderInfo → Option ServiceInfo
unfolding text_eq
make_service_info publisher_service_name p_id p_info =
    let addr = if p_info.proxied then p_info.addr ++ codes "P" else p_info.addr in
    let named : Option ServiceInfo = from_publisher_service_name publisher_service_name >>= λ names.
    some (record { publisher = names.0; service = names.1; provider_id = p_id; addr = addr }) in
    if text_eq publisher_service_name []
    then some (record { publisher = []; service = []; provider_id = p_id; addr = addr })
    else named

-- What the function given to walkProviders does with one provider: none in the first part removes
-- it, the second part is what the function collects. none in all: it panics.
abbrev pub Visit : Type 0 → Type 0
Visit A = Text → Text → ProviderInfo → Option (Option ProviderInfo × List A)

abbrev pub kept : Text → Option ProviderInfo → ProviderMap → ProviderMap
kept p_id none pmap = pmap
kept p_id (some p_info) pmap = (p_id, p_info) ∷ pmap

module _ {A : Type 0} where
  unfoldable pub walk_provider_map : Visit A → Text → ProviderMap → Option (ProviderMap × List A)
  walk_provider_map fn service [] = some ([], [])
  walk_provider_map fn service ((p_id, p_info) ∷ pmap) = do
    (after, found) ← fn service p_id p_info
    (rest, others) ← walk_provider_map fn service pmap
    some (kept p_id after rest, found ++ others)

  -- The walk over the names that a pattern stands for.
  unfoldable pub walk_matching : Visit A → Text → ServiceMap → Option (ServiceMap × List A)
  unfolding walk_provider_map
  walk_matching fn name [] = some ([], [])
  walk_matching fn name ((ps_name, pmap) ∷ m) = do
    (after, found) ←
        (if wildcard_match name ps_name then walk_provider_map fn ps_name pmap else some (pmap, []))
    (rest, others) ← walk_matching fn name m
    some ((ps_name, after) ∷ rest, found ++ others)

  unfoldable pub walk_providers : Visit A → Text → ServiceMap → Option (ServiceMap × List A)
  unfolding walk_matching walk_provider_map
  walk_providers fn name m =
      let one : Option (ServiceMap × List A) = elim (lookup name m) [
        | none ↦ some (m, [])
        | some pmap ↦ walk_provider_map fn name pmap >>= λ r. some (insert name r.0 m, r.1)
      ] in
      if has_byte star name then walk_matching fn name m else one

listed_visit : Visit ServiceInfo
listed_visit service p_id p_info = do
  info ← make_service_info service p_id p_info
  some (some p_info, info ∷ [])

-- The map is that of before the query: its function removes nothing.
unfoldable pub query_service_in_wan :
    Text → Text → ServiceMap → Option (ServiceMap × List ServiceInfo)
unfolding listed_visit
query_service_in_wan publisher service m =
    walk_providers listed_visit (to_publisher_service_name publisher service) m

-- 5*time.Minute
abbrev pub stale_after : ℕ
stale_after = 300

-- The function of registryCheckSaver: t is time.Now() at the visit.
-- What pingService answers, and the time before it is called, for each provider of a service.
abbrev pub Pings : Type 0
Pings = (service p_id addr : Text) → Bool

abbrev pub Times : Type 0
Times = (service p_id : Text) → ℕ

unfoldable pub check_visit : Pings → Times → Visit ServiceInfo
unfolding listed_visit
check_visit ping t service p_id p_info =
    let now = t service p_id in
    if ping service p_id p_info.addr
    then listed_visit service p_id (record p_info { time_stamp = now })
    else if ltb (p_info.time_stamp + stale_after) now
    then some (none, [])
    else listed_visit service p_id p_info

-- One round of registryCheckSaver up to the writing of the file.
unfoldable pub registry_check : Pings → Times → ServiceMap → Option (ServiceMap × List ServiceInfo)
unfolding check_visit
registry_check ping t m = walk_providers (check_visit ping t) (codes "*") m

-- fmt.Fprintf(f, "%s %s %s %s\n", ...)
unfoldable pub record_line : ServiceInfo → Text
record_line si =
    si.publisher
    ++ (b' ' ∷ (si.service ++ (b' ' ∷ (si.provider_id ++ (b' ' ∷ (si.addr ++ (b'\n' ∷ [])))))))

-- The file that registryCheckSaver writes.
unfoldable pub services_record : List ServiceInfo → Text
unfolding record_line
services_record [] = []
services_record (si ∷ infos) = record_line si ++ services_record infos

abbrev pub proxied_mark : ℕ
proxied_mark = b'P'

-- addr[len(addr)-1] == 'P', and addr[:len(addr)-1]
unfoldable pub ends_with : ℕ → Text → Bool
ends_with c [] = false
ends_with c (x ∷ []) = x == c
ends_with c (x ∷ y ∷ s) = ends_with c (y ∷ s)

unfoldable pub without_last : Text → Text
without_last [] = []
without_last (x ∷ []) = []
without_last (x ∷ y ∷ s) = x ∷ without_last (y ∷ s)

unfoldable pub load_provider : ℕ → Text → ProviderInfo
unfolding ends_with without_last
load_provider now addr =
    if ends_with proxied_mark addr
    then record { time_stamp = now; addr = without_last addr; proxied = true }
    else record { time_stamp = now; addr = addr; proxied = false }

unfoldable pub load_fields : ℕ → List Text → ServiceMap → Option ServiceMap
unfolding load_provider
load_fields now (publisher ∷ service ∷ provider_id ∷ addr ∷ []) m =
    let name = to_publisher_service_name publisher service in
    some (insert name (insert provider_id (load_provider now addr) (providers_of name m)) m)
load_fields now _ m = none

-- The loop of startRootRegistry over the lines of the file; a line that does not hold four values
-- ends it.
unfoldable pub load_lines : ℕ → List Text → ServiceMap → ServiceMap
load_lines now [] m = m
load_lines now (line ∷ lines) m = elim (load_fields now (words line) m) [
  | none ↦ m
  | some m' ↦ load_lines now lines m'
]

unfoldable pub load_record : ℕ → Text → ServiceMap
load_record now text = let (line, lines) = split b'\n' text in load_lines now (line ∷ lines) []
